-- ===== src/Node/Errors.antt =====
-- trinci-node/src/artifacts/errors.rs: the errors of the node that an execution ends in, and their texts.
-- A text is cut at a number of bytes, which panics inside a character. `hex` is the crate of that name.
pub mod Cut
use Prim.Native.Char.{code, len_utf8}
use Prim.Native.String
use Prim.Native.String.{◌++◌}
use trinci.Base.{
  ℕ, ◌-◌, min, Bool, false, ◌==◌, ℕ_eq, leb, ◌&&◌, Option, none, some, String, if◌then◌else◌,
}
use trinci.Base.Outcome.{Outcome, returns, panics, expect, ◌>>=◌}
use trinci.Crypto.Hash.{Hash}
use trinci.Node.Identity.{Identity}
use trinci.Node.Models.{BlockData}
use trinci.Node.Database.{Receipt}

pub data DbError : Type 0 where
  block_already_in_db create_fork merge_fork player_retrieval_error tx_already_in_db : DbError

module _ ⦃i : Identity⦄ where
  pub data WasmError : Type 0 where
    account_fault : String → WasmError
    bulk_execution_fault : Receipt → WasmError
    block_execution_mismatch : BlockData → Hash → Hash → Hash → WasmError
    fuel_error invalid_contract not_implemented : String → WasmError
    resource_not_found smart_contract_fault wasm_machine_fault : String → WasmError

  pub data NodeError : Type 0 where
    crypto_error : NodeError
    db_error : DbError → NodeError
    wasm_error : WasmError → NodeError

-- `&text[..n]` for an `n` that is at most the length.
unfoldable pub take_bytes : ℕ → String → Outcome String
unfolding ◌>>=◌
take_bytes n String.[] = returns ""
take_bytes n (String.◌∷◌ c s) =
    let rest = take_bytes (n - len_utf8 c) s in
    if n == 0
    then returns ""
    else if leb (len_utf8 c) n
    then rest >>= (λ t. returns (String.◌∷◌ c t))
    else panics

unfoldable pub format_error_string : String → Outcome String
unfolding take_bytes
format_error_string err_string = take_bytes (min (String.len err_string) 126) err_string

abbrev starts_with_space : String → Bool
starts_with_space String.[] = false
starts_with_space (String.◌∷◌ c s) = code c == b' '

-- `split_once(": ")`, its first part.
unfoldable pub before_colon : String → Option String
before_colon String.[] = none
before_colon (String.◌∷◌ c s) =
    let rest = before_colon s in
    if code c == b':' && starts_with_space s
    then some ""
    else (elim rest [ none ↦ none | some t ↦ some (String.◌∷◌ c t) ])

module _ ⦃i : Identity⦄ (hex : Hash → String) where
  abbrev prefixed : String → String → Outcome String
  unfolding ◌>>=◌ format_error_string
  prefixed prefix e = format_error_string e >>= (λ t. returns (prefix ++ t))

  unfoldable pub to_string : WasmError → Outcome String
  unfolding format_error_string ◌>>=◌
  to_string (WasmError.account_fault e) = prefixed "account fault: " e
  to_string (WasmError.bulk_execution_fault r) = returns "bulk execution fault"
  to_string (WasmError.block_execution_mismatch block_data state_hash txs_root rxs_root) = returns (
      "Hashes mismatch after block execution. Calculated:\n\tstate_hash - "
      ++ hex state_hash
      ++ "\n\ttxs_root - "
      ++ hex txs_root
      ++ "\n\trxs_root - "
      ++ hex rxs_root
      ++ "\nExpected:\n\tstate_hash - "
      ++ hex block_data.state_hash
      ++ "\n\ttxs_root - "
      ++ hex block_data.txs_hash
      ++ "\n\trxs_root - "
      ++ hex block_data.rxs_hash)
  to_string (WasmError.fuel_error e) = prefixed "burning fuel error: " e
  to_string (WasmError.invalid_contract e) = prefixed "invalid contract hash: " e
  to_string (WasmError.not_implemented e) = prefixed "not implemented: " e
  to_string (WasmError.resource_not_found e) = prefixed "resource not found: " e
  to_string (WasmError.smart_contract_fault e) = prefixed "smart contract fault: " e
  to_string (WasmError.wasm_machine_fault e) = prefixed "wasm machine fault: " e

  unfoldable pub to_string_kind : WasmError → Outcome String
  unfolding to_string before_colon ◌>>=◌ expect
  to_string_kind e = to_string e >>= (λ t. expect (before_colon t))
