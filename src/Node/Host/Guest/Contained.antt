-- ===== src/Node/Host/Guest/Contained.antt =====
-- What a contract can change by the functions that are linked into it, whatever addresses and sizes it gives.
use trinci.Base.{ℕ, Option, List, [], ◌∷◌, String}
use trinci.Base.Result.{Result}
use trinci.Artifacts.Messages.{Req}
use trinci.Node.Identity.{Identity}
use trinci.Node.Execution.State.{Setting}
use trinci.Node.Checks.{hash_bytes}
use trinci.Node.Host.{
  get_account_contract as contract_of, get_block_time as block_time, Host, HostCodec, HostContext,
}
use trinci.Node.Host.Confined.{HostOp, perform}
use trinci.Node.Host.Guest.{
  or_fault, Guest, GuestCodec, ◌>>=◌, or_fault, reads, give, mem_from, slice_from, return_buf,
}
use trinci.Node.Host.Guest.Sandboxed.{
  AllocIsConfined, Sandboxed, bind-Sandboxed, give-Sandboxed, reads-Sandboxed, mem_from-Sandboxed,
  slice_from-Sandboxed, changes-Sandboxed, lift-Sandboxed, fault-Sandboxed, return_buf-Sandboxed,
  text_from-Sandboxed, lossy_from-Sandboxed, keys_output-Sandboxed, drawn-Sandboxed,
}
use trinci.Node.Host.Guest.Trampolines.{
  hf_emit, hf_load_data, hf_store_data, hf_remove_data, hf_load_asset, hf_store_asset,
  hf_remove_asset, hf_get_account_contract, hf_get_keys, hf_verify, hf_sha256, hf_drand,
  hf_get_block_time,
}

-- A call of a linked function, but of `hf_call`, `hf_s_call` and `hf_is_callable`, which call other contracts, and
-- of the log: the addresses and sizes, or the DRand service and the bound.
pub data GuestCall : Type 0 where
  emit store_data store_asset : ℕ → ℕ → ℕ → ℕ → GuestCall
  load_data remove_data load_asset remove_asset get_account_contract get_keys sha256 :
      ℕ → ℕ → GuestCall
  verify : ℕ → ℕ → ℕ → ℕ → ℕ → ℕ → GuestCall
  drand : (Req → Option ℕ) → ℕ → GuestCall
  get_block_time : GuestCall

module _ ⦃i : Identity⦄ ⦃e : Setting⦄ (g : GuestCodec e) (c : HostContext) (k : HostCodec) where
  -- What the contract is given back does not matter here.
  abbrev pub forget : Guest e ℕ → Guest e Unit
  forget m = m >>= (λ r. give tt)

  unfoldable pub invoke : GuestCall → Guest e Unit
  unfolding ◌>>=◌
  invoke (GuestCall.emit a b x y) = hf_emit g c k a b x y
  invoke (GuestCall.store_data a b x y) = hf_store_data g c k a b x y
  invoke (GuestCall.store_asset a b x y) = hf_store_asset g c k a b x y
  invoke (GuestCall.load_data a b) = forget (hf_load_data g c k a b)
  invoke (GuestCall.remove_data a b) = hf_remove_data g c k a b
  invoke (GuestCall.load_asset a b) = forget (hf_load_asset g c k a b)
  invoke (GuestCall.remove_asset a b) = hf_remove_asset g c k a b
  invoke (GuestCall.get_account_contract a b) = forget (hf_get_account_contract g c k a b)
  invoke (GuestCall.get_keys a b) = forget (hf_get_keys g c k a b)
  invoke (GuestCall.sha256 a b) = forget (hf_sha256 g c k a b)
  invoke (GuestCall.verify a b x y u v) = forget (hf_verify g c k a b x y u v)
  invoke (GuestCall.drand send_req max) = forget (hf_drand g c k send_req max)
  invoke GuestCall.get_block_time = forget (hf_get_block_time g c k)

  -- The first error ends the contract.
  unfoldable pub invoke_all : List GuestCall → Guest e Unit
  unfolding ◌>>=◌ invoke
  invoke_all [] = give tt
  invoke_all (x ∷ xs) = do done ← invoke x; invoke_all xs

  module _ (confined : AllocIsConfined c k g.alloc) where
    -- A text is read, and what is done with it.
    with_text :
        {A : Type 0} (offset size : ℕ) (next : List ℕ → String → Guest e A)
        → ((mem : List ℕ) (t : String) → Sandboxed c k (next mem t))
        → Sandboxed c k (
            mem_from >>= (λ mem.
              slice_from mem offset size
              >>= (λ buf. or_fault (g.from_utf8 buf))
              >>= (λ t. next mem t)))
    with_text offset size next h = bind-Sandboxed c k _ _ (mem_from-Sandboxed c k) (λ mem.
        bind-Sandboxed c k _ _ (text_from-Sandboxed c k g confined mem offset size) (λ t. h mem t))

    with_lossy :
        {A : Type 0} (offset size : ℕ) (next : List ℕ → String → Guest e A)
        → ((mem : List ℕ) (t : String) → Sandboxed c k (next mem t))
        → Sandboxed c k (
            mem_from >>= (λ mem.
              slice_from mem offset size
              >>= (λ buf. give (g.from_utf8_lossy buf))
              >>= (λ t. next mem t)))
    with_lossy offset size next h = bind-Sandboxed c k _ _ (mem_from-Sandboxed c k) (λ mem.
        bind-Sandboxed c k _ _ (lossy_from-Sandboxed c k g confined mem offset size) (λ t. h mem t))

    forget-Sandboxed : (m : Guest e ℕ) → Sandboxed c k m → Sandboxed c k (forget m)
    forget-Sandboxed m h = bind-Sandboxed c k m _ h (λ r. give-Sandboxed c k tt)

    -- A value of the host is read and written into the memory.
    tells-Sandboxed : (f : Host e → List ℕ) → Sandboxed c k (reads f >>= (λ buf. return_buf g buf))
    tells-Sandboxed f =
        bind-Sandboxed c k _ _ (reads-Sandboxed c k f)
          (λ buf. return_buf-Sandboxed c k g confined buf)

    reading-Sandboxed : (x y : ℕ) → Sandboxed c k (hf_load_data g c k x y)
    unfolding hf_load_data
    reading-Sandboxed x y = with_text x y _ (λ mem key. tells-Sandboxed _)

    asset-Sandboxed : (x y : ℕ) → Sandboxed c k (hf_load_asset g c k x y)
    unfolding hf_load_asset
    asset-Sandboxed x y = with_lossy x y _ (λ mem id. tells-Sandboxed _)

    contract-Sandboxed : (x y : ℕ) → Sandboxed c k (hf_get_account_contract g c k x y)
    unfolding hf_get_account_contract
    contract-Sandboxed x y = with_lossy x y _ (λ mem id.
        bind-Sandboxed c k _ _ (reads-Sandboxed c k (λ h. contract_of c k h id))
          (λ hash. return_buf-Sandboxed c k g confined (hash_bytes hash)))

    keys-Sandboxed : (x y : ℕ) → Sandboxed c k (hf_get_keys g c k x y)
    unfolding hf_get_keys
    keys-Sandboxed x y = with_text x y _ (λ mem pattern.
        bind-Sandboxed c k _ _ (lift-Sandboxed c k _) (λ prefix.
          bind-Sandboxed c k _ _ (keys_output-Sandboxed c k g confined prefix)
            (λ buf. return_buf-Sandboxed c k g confined buf)))

    digest-Sandboxed : (x y : ℕ) → Sandboxed c k (hf_sha256 g c k x y)
    unfolding hf_sha256
    digest-Sandboxed x y = bind-Sandboxed c k _ _ (mem_from-Sandboxed c k) (λ mem.
        bind-Sandboxed c k _ _ (slice_from-Sandboxed c k mem x y)
          (λ bytes. return_buf-Sandboxed c k g confined _))

    verified-Sandboxed : (a b x y u v : ℕ) → Sandboxed c k (hf_verify g c k a b x y u v)
    unfolding hf_verify
    verified-Sandboxed a b x y u v = bind-Sandboxed c k _ _ (mem_from-Sandboxed c k) (λ mem.
        bind-Sandboxed c k _ _ (slice_from-Sandboxed c k mem a b) (λ buf.
          bind-Sandboxed c k _ _ (fault-Sandboxed c k (g.read_public_key buf)) (λ pk.
            bind-Sandboxed c k _ _ (slice_from-Sandboxed c k mem x y) (λ bytes.
              bind-Sandboxed c k _ _ (slice_from-Sandboxed c k mem u v)
                (λ sign. give-Sandboxed c k _)))))

    pub invoke-Sandboxed : (x : GuestCall) → Sandboxed c k (invoke x)
    unfolding invoke perform hf_emit hf_store_data hf_store_asset hf_remove_data hf_remove_asset
        hf_drand hf_get_block_time
    invoke-Sandboxed (GuestCall.emit a b x y) = with_text a b _ (λ mem name.
        bind-Sandboxed c k _ _ (slice_from-Sandboxed c k mem x y)
          (λ bytes. changes-Sandboxed c k (HostOp.emits name bytes)))
    invoke-Sandboxed (GuestCall.store_data a b x y) = with_text a b _ (λ mem key.
        bind-Sandboxed c k _ _ (slice_from-Sandboxed c k mem x y)
          (λ bytes. changes-Sandboxed c k (HostOp.stores key bytes)))
    invoke-Sandboxed (GuestCall.store_asset a b x y) = with_lossy a b _ (λ mem id.
        bind-Sandboxed c k _ _ (slice_from-Sandboxed c k mem x y)
          (λ bytes. changes-Sandboxed c k (HostOp.stores_asset id bytes)))
    invoke-Sandboxed (GuestCall.remove_data a b) =
        with_text a b _ (λ mem key. changes-Sandboxed c k (HostOp.removes key))
    invoke-Sandboxed (GuestCall.remove_asset a b) =
        with_lossy a b _ (λ mem id. changes-Sandboxed c k (HostOp.removes_asset id))
    invoke-Sandboxed (GuestCall.load_data a b) = forget-Sandboxed _ (reading-Sandboxed a b)
    invoke-Sandboxed (GuestCall.load_asset a b) = forget-Sandboxed _ (asset-Sandboxed a b)
    invoke-Sandboxed (GuestCall.get_account_contract a b) =
        forget-Sandboxed _ (contract-Sandboxed a b)
    invoke-Sandboxed (GuestCall.get_keys a b) = forget-Sandboxed _ (keys-Sandboxed a b)
    invoke-Sandboxed (GuestCall.sha256 a b) = forget-Sandboxed _ (digest-Sandboxed a b)
    invoke-Sandboxed (GuestCall.verify a b x y u v) =
        forget-Sandboxed _ (verified-Sandboxed a b x y u v)
    invoke-Sandboxed (GuestCall.drand send_req max) =
        forget-Sandboxed _ (drawn-Sandboxed c k g confined _)
    invoke-Sandboxed GuestCall.get_block_time =
        forget-Sandboxed _ (give-Sandboxed c k (block_time c k))
