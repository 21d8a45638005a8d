-- ===== src/Node/Host/Guest/Trampolines.antt =====
-- trinci-node/src/services/wm/local.rs: `local_host_func`, the functions `hf_...` that a contract imports.
use Prim.Native.Char.{Char, code, len_utf8}
use trinci.Base.{ℕ_eq, ℕ, ◌==◌, true, false, Option, none, some, List, String, if◌then◌else◌}
use trinci.Base.Outcome.{Outcome, returns, panics}
use trinci.Base.Result.{Result, err, ok}
use trinci.Base.Words.{wrapping_sub}
use trinci.Crypto.Hash.{CryptoError, Hash, from_bytes}
use trinci.Artifacts.Messages.{Req}
use trinci.Node.Identity.{Identity}
use trinci.Node.Errors.{WasmError, to_string}
use trinci.Node.Execution.State.{Setting}
use trinci.Node.Host.{
  HostCodec, HostContext, remove_data, load_host_asset, store_host_asset, remove_host_asset,
  get_account_contract, get_keys, get_block_time, is_callable, drand,
}
use trinci.Node.Host.{
  emit as host_emit, load_data as host_load_data, store_data as host_store_data, call as host_call,
  verify as host_verify, sha256 as host_sha256,
}
use trinci.Node.Checks.{hash_bytes}
use trinci.Node.Host.Guest.{
  lift, Guest, GuestCodec, changes, fail, give, mem_from, on_host, or_fault, reads, return_buf,
  slice_from, ◌>>=◌, ◌>>◌,
}

-- The text without its last character, and that character.
unfoldable pub split_last : String → Option (String × Char)
split_last String.[] = none
split_last (String.◌∷◌ c s) =
    let rest = split_last s in
    elim rest [ none ↦ some ("", c) | some (t, d) ↦ some (String.◌∷◌ c t, d) ]

-- The pattern before a last `*`, `none` where it does not end so. The last byte is compared by a slice of the
-- text, which panics inside a character.
unfoldable pub before_star : String → Outcome (Option String)
unfolding split_last
before_star pattern = elim (split_last pattern) [
  | none ↦ returns none
  | some (t, c) ↦
      (if len_utf8 c == 1
        then (if code c == b'*' then returns (some t) else returns none)
        else panics)
]

module _ ⦃i : Identity⦄ ⦃e : Setting⦄ (g : GuestCodec e) (c : HostContext) (k : HostCodec) where
  -- A text that has to be UTF-8, and one that is read anyhow.
  abbrev pub text_from : List ℕ → ℕ → ℕ → Guest e String
  text_from mem offset size = slice_from mem offset size >>= (λ buf. or_fault (g.from_utf8 buf))

  abbrev pub lossy_from : List ℕ → ℕ → ℕ → Guest e String
  lossy_from mem offset size = slice_from mem offset size >>= (λ buf. give (g.from_utf8_lossy buf))

  abbrev burn : ℕ → Guest e Unit
  burn consumed_fuel s = returns (ok tt, record s { fuel = wrapping_sub s.fuel consumed_fuel })

  abbrev remaining : Guest e ℕ
  remaining s = returns (ok s.fuel, s)

  unfoldable pub hf_emit : ℕ → ℕ → ℕ → ℕ → Guest e Unit
  unfolding ◌>>=◌ mem_from slice_from host_emit
  hf_emit name_offset name_size data_offset data_size = do
    mem ← mem_from
    event_name ← text_from mem name_offset name_size
    event_data ← slice_from mem data_offset data_size
    changes (host_emit c k event_name event_data)

  unfoldable pub hf_load_data : ℕ → ℕ → Guest e ℕ
  unfolding ◌>>=◌ mem_from slice_from host_load_data return_buf
  hf_load_data key_offset key_size = do
    mem ← mem_from
    key ← text_from mem key_offset key_size
    buf ← reads (λ h. host_load_data c k h key)
    return_buf g buf

  unfoldable pub hf_store_data : ℕ → ℕ → ℕ → ℕ → Guest e Unit
  unfolding ◌>>=◌ mem_from slice_from host_store_data
  hf_store_data key_offset key_size data_offset data_size = do
    mem ← mem_from
    key ← text_from mem key_offset key_size
    bytes ← slice_from mem data_offset data_size
    changes (host_store_data c k key bytes)

  unfoldable pub hf_remove_data : ℕ → ℕ → Guest e Unit
  unfolding ◌>>=◌ mem_from slice_from remove_data
  hf_remove_data key_offset key_size = do
    mem ← mem_from
    key ← text_from mem key_offset key_size
    changes (remove_data c k key)

  unfoldable pub hf_load_asset : ℕ → ℕ → Guest e ℕ
  unfolding ◌>>=◌ mem_from slice_from load_host_asset return_buf
  hf_load_asset id_offset id_size = do
    mem ← mem_from
    account_id ← lossy_from mem id_offset id_size
    value ← reads (λ h. load_host_asset c k h account_id)
    return_buf g value

  unfoldable pub hf_store_asset : ℕ → ℕ → ℕ → ℕ → Guest e Unit
  unfolding ◌>>=◌ mem_from slice_from store_host_asset
  hf_store_asset id_offset id_size value_offset value_size = do
    mem ← mem_from
    account_id ← lossy_from mem id_offset id_size
    value ← slice_from mem value_offset value_size
    changes (store_host_asset c k account_id value)

  unfoldable pub hf_remove_asset : ℕ → ℕ → Guest e Unit
  unfolding ◌>>=◌ mem_from slice_from remove_host_asset
  hf_remove_asset id_offset id_size = do
    mem ← mem_from
    account_id ← lossy_from mem id_offset id_size
    changes (remove_host_asset c k account_id)

  unfoldable pub hf_get_account_contract : ℕ → ℕ → Guest e ℕ
  unfolding ◌>>=◌ mem_from slice_from get_account_contract return_buf
  hf_get_account_contract id_offset id_size = do
    mem ← mem_from
    account_id ← lossy_from mem id_offset id_size
    contract ← reads (λ h. get_account_contract c k h account_id)
    return_buf g (hash_bytes contract)

  abbrev pub keys_output : Option String → Guest e (List ℕ)
  keys_output none = give (g.rmp_output false (e.utf8 "last char of search pattern must be '*'"))
  keys_output (some prefix) = reads (λ h. g.rmp_output true (g.rmp_keys (get_keys c k h prefix)))

  unfoldable pub hf_get_keys : ℕ → ℕ → Guest e ℕ
  unfolding ◌>>=◌ mem_from slice_from before_star get_keys return_buf
  hf_get_keys pattern_offset pattern_size = do
    mem ← mem_from
    pattern ← text_from mem pattern_offset pattern_size
    prefix ← lift (before_star pattern)
    buf ← keys_output prefix
    return_buf g buf

  -- The output of a call: its bytes, or the text of its error.
  abbrev call_output : Result WasmError (List ℕ) → Guest e (List ℕ)
  call_output (ok buf) = give (g.rmp_output true buf)
  call_output (err error) =
      lift (to_string e.hex error) >>= (λ t. give (g.rmp_output false (e.utf8 t)))

  -- The caller pays for the call.
  unfoldable pub nested_call : String → Option Hash → String → List ℕ → Guest e ℕ
  unfolding ◌>>=◌ host_call return_buf
  nested_call account contract method args = do
    fuel ← remaining
    called ← on_host (host_call c k account contract method args fuel)
    buf ← call_output called.1
    burn called.0
    return_buf g buf

  unfoldable pub hf_call : ℕ → ℕ → ℕ → ℕ → ℕ → ℕ → Guest e ℕ
  unfolding ◌>>=◌ mem_from slice_from nested_call
  hf_call account_offset account_size method_offset method_size args_offset args_size = do
    mem ← mem_from
    account ← lossy_from mem account_offset account_size
    method ← lossy_from mem method_offset method_size
    args ← slice_from mem args_offset args_size
    nested_call account none method args

  abbrev hash_from : Result CryptoError Hash → Guest e Hash
  hash_from (ok hash) = give hash
  hash_from (err error) = fail (WasmError.wasm_machine_fault (g.hash_error error))

  unfoldable pub hf_s_call : ℕ → ℕ → ℕ → ℕ → ℕ → ℕ → ℕ → ℕ → Guest e ℕ
  unfolding ◌>>=◌ mem_from slice_from nested_call from_bytes
  hf_s_call account_offset account_size contract_offset contract_size method_offset method_size
        args_offset args_size =
      do
        mem ← mem_from
        account ← lossy_from mem account_offset account_size
        buf ← slice_from mem contract_offset contract_size
        contract ← hash_from (from_bytes buf)
        method ← lossy_from mem method_offset method_size
        args ← slice_from mem args_offset args_size
        nested_call account (some contract) method args

  abbrev or_zero : Result WasmError ℕ → ℕ
  or_zero (ok value) = value
  or_zero (err error) = 0

  unfoldable pub hf_is_callable : ℕ → ℕ → ℕ → ℕ → Guest e ℕ
  unfolding ◌>>=◌ mem_from slice_from is_callable
  hf_is_callable account_offset account_size method_offset method_size = do
    mem ← mem_from
    account ← text_from mem account_offset account_size
    method ← text_from mem method_offset method_size
    fuel ← remaining
    asked ← on_host (is_callable c k account method fuel)
    burn asked.0
    give (or_zero asked.1)

  unfoldable pub hf_verify : ℕ → ℕ → ℕ → ℕ → ℕ → ℕ → Guest e ℕ
  unfolding ◌>>=◌ mem_from slice_from host_verify
  hf_verify pk_offset pk_size data_offset data_size sign_offset sign_size = do
    mem ← mem_from
    buf ← slice_from mem pk_offset pk_size
    pk ← or_fault (g.read_public_key buf)
    bytes ← slice_from mem data_offset data_size
    sign ← slice_from mem sign_offset sign_size
    give (host_verify c k pk bytes sign)

  unfoldable pub hf_sha256 : ℕ → ℕ → Guest e ℕ
  unfolding ◌>>=◌ mem_from slice_from host_sha256 return_buf
  hf_sha256 data_offset data_size = do
    mem ← mem_from
    bytes ← slice_from mem data_offset data_size
    return_buf g (host_sha256 c k bytes)

  abbrev pub drawn : Option ℕ → Guest e ℕ
  drawn none = fail (WasmError.wasm_machine_fault "Problems with drand number retrieval")
  drawn (some number) = give number

  unfoldable pub hf_drand : (Req → Option ℕ) → ℕ → Guest e ℕ
  unfolding drand
  hf_drand send_req max = drawn (drand c k send_req max)

  unfoldable pub hf_get_block_time : Guest e ℕ
  unfolding get_block_time
  hf_get_block_time = give (get_block_time c k)
