-- ===== src/Node/Host/Confined.antt =====
-- What a contract can change by the functions of the host, without a call of another contract.
use trinci.Base.{
  subst, ◌∷◌, ℕ, ◌≡◌, refl, sym, ap, ◌∙◌, inl, inr, ◌==◌, String_eq, List, [], String, Bool-cases,
}
use trinci.Node.Identity.{Identity}
use trinci.Node.Account.{value_of-retain, value_of-insert, remove_asset, store_asset, load_asset}
use trinci.Node.Execution.State.{Setting}
use trinci.Node.Host.Isolated.{
  IsIsolated, IsKeyed, changed, changed-IsIsolated, changed-IsKeyed, IsIsolated-refl,
  IsIsolated-trans,
}
use trinci.Node.Database.{
  load_account, Database, change_data, remove_account_data, store_account_data,
}
use trinci.Node.Host.{
  Host, HostCodec, HostContext, drop_asset, emit, put_asset, remove_data, remove_host_asset,
  store_data, store_host_asset,
}

-- The functions that change something.
pub data HostOp : Type 0 where
  emits : String → List ℕ → HostOp
  stores : String → List ℕ → HostOp
  removes : String → HostOp
  stores_asset : String → List ℕ → HostOp
  removes_asset : String → HostOp

module _ ⦃i : Identity⦄ ⦃e : Setting⦄ (c : HostContext) (k : HostCodec) where
  unfoldable pub perform : HostOp → Host e → Host e
  perform (HostOp.emits name bytes) h = emit c k name bytes h
  perform (HostOp.stores key bytes) h = store_data c k key bytes h
  perform (HostOp.removes key) h = remove_data c k key h
  perform (HostOp.stores_asset account_id value) h = store_host_asset c k account_id value h
  perform (HostOp.removes_asset account_id) h = remove_host_asset c k account_id h

  unfoldable pub perform_all : List HostOp → Host e → Host e
  perform_all [] h = h
  perform_all (op ∷ ops) h = perform_all ops (perform op h)

  -- The change of an operation, as one of databases.
  abbrev Confined : Database e.indexes → Database e.indexes → Type 0
  Confined db db' = IsIsolated c.owner db db' × IsKeyed db'

  Confined-same : (db : Database e.indexes) → IsKeyed db → Confined db db
  Confined-same db keyed = (IsIsolated-refl c.owner db, keyed)

  Confined-data :
      (change : e.indexes.Map String (List ℕ) → e.indexes.Map String (List ℕ))
      (db : Database e.indexes)
      → IsKeyed db
      → Confined db (change_data e.indexes c.owner change db)
  unfolding load_account
  Confined-data change db keyed = (
    record {
      data_kept = λ id h. rw h refl;
      assets_kept = λ id asset h. refl;
      data_hashes_kept = λ id h. refl;
      contracts_kept = λ id. refl;
      blocks_kept = refl;
      confirmations_kept = refl;
      transactions_kept = refl;
      receipts_kept = refl;
      attachments_kept = refl;
      config_kept = refl;
    },
    record { keyed = keyed.keyed },
  )

  Confined-put :
      (id : String) (value : List ℕ) (db : Database e.indexes)
      → IsKeyed db
      → Confined db (put_asset c k id value db)
  unfolding changed store_asset load_asset
  Confined-put id value db keyed = (
    changed-IsIsolated (store_asset c.owner value) (λ a. refl) c.owner
        (λ a asset h. value_of-insert c.owner asset value a.assets ∙ rw h refl) (λ a. refl) id db
        keyed (λ j h h' a. refl),
    changed-IsKeyed (store_asset c.owner value) (λ a. refl) id db keyed,
  )

  Confined-drop :
      (id : String) (db : Database e.indexes) → IsKeyed db → Confined db (drop_asset c k id db)
  unfolding changed remove_asset load_asset
  Confined-drop id db keyed = (
    changed-IsIsolated (remove_asset c.owner) (λ a. refl) c.owner
        (λ a asset h. value_of-retain c.owner asset a.assets ∙ rw h refl) (λ a. refl) id db keyed
        (λ j h h' a. refl),
    changed-IsKeyed (remove_asset c.owner) (λ a. refl) id db keyed,
  )

  -- What an operation does to the fork: a confined write, or nothing; the checkpoint stays.
  abbrev pub IsConfined : Host e → Host e → Type 0
  IsConfined h h' =
      IsIsolated c.owner (e.forks.view h.db) (e.forks.view h'.db)
      × IsKeyed (e.forks.view h'.db)
      × (e.forks.saved h'.db ≡ e.forks.saved h.db)

  pub wrote :
      (f : Database e.indexes → Database e.indexes) (h h' : Host e)
      → h'.db ≡ e.forks.write f h.db
      → Confined (e.forks.view h.db) (f (e.forks.view h.db))
      → IsConfined h h'
  wrote f h h' same (isolated, keyed) =
      let view : e.forks.view h'.db ≡ f (e.forks.view h.db) =
        ap e.forks.view same ∙ e.forks.view-write f h.db in
      (
        subst (IsIsolated c.owner (e.forks.view h.db)) (sym view) isolated,
        subst IsKeyed (sym view) keyed,
        ap e.forks.saved same ∙ e.forks.saved-write f h.db,
      )

  pub nothing : (h h' : Host e) → h'.db ≡ h.db → IsKeyed (e.forks.view h.db) → IsConfined h h'
  nothing h h' same keyed = (
    subst (λ f. IsIsolated c.owner (e.forks.view h.db) (e.forks.view f)) (sym same)
        (IsIsolated-refl c.owner (e.forks.view h.db)),
    subst (λ f. IsKeyed (e.forks.view f)) (sym same) keyed,
    ap e.forks.saved same,
  )

  pub perform-IsConfined :
      (op : HostOp) (h : Host e) → IsKeyed (e.forks.view h.db) → IsConfined h (perform op h)
  unfolding perform emit store_data remove_data store_host_asset remove_host_asset
      store_account_data remove_account_data
  perform-IsConfined (HostOp.emits name bytes) h keyed =
      nothing h (perform (HostOp.emits name bytes) h) refl keyed
  perform-IsConfined (HostOp.stores key bytes) h keyed =
      wrote (store_account_data e.indexes c.owner key bytes) h (perform (HostOp.stores key bytes) h)
        refl (Confined-data (e.indexes.put key bytes) (e.forks.view h.db) keyed)
  perform-IsConfined (HostOp.removes key) h keyed =
      wrote (remove_account_data e.indexes c.owner key) h (perform (HostOp.removes key) h) refl
        (Confined-data (e.indexes.remove key) (e.forks.view h.db) keyed)
  perform-IsConfined (HostOp.stores_asset account_id value) h keyed =
      let h' = perform (HostOp.stores_asset account_id value) h in
      elim (Bool-cases (account_id == "")) [
        | inl blank ↦ nothing h h' (rw blank refl) keyed
        | inr named ↦
            wrote (put_asset c k account_id value) h h' (rw named refl)
              (Confined-put account_id value (e.forks.view h.db) keyed)
      ]
  perform-IsConfined (HostOp.removes_asset account_id) h keyed =
      wrote (drop_asset c k account_id) h (perform (HostOp.removes_asset account_id) h) refl
        (Confined-drop account_id (e.forks.view h.db) keyed)

  -- Where every account stands under its id, whatever a contract stores, removes and emits, it leaves as
  -- they were: the data of other accounts than its own, of every account all assets but the one of its own
  -- account and the contract, the blocks, confirmations, transactions, receipts, attachments and settings.
  -- Every account still stands under its id, and a rollback of the fork leads where it did.
  pub perform_all-IsConfined :
      (ops : List HostOp) (h : Host e)
      → IsKeyed (e.forks.view h.db)
      → IsConfined h (perform_all ops h)
  unfolding perform_all
  perform_all-IsConfined [] h keyed = nothing h h refl keyed
  perform_all-IsConfined (op ∷ ops) h keyed =
      let (isolated, keyed', saved) = perform-IsConfined op h keyed in
      let (isolated', keyed'', saved') = perform_all-IsConfined ops (perform op h) keyed' in
      (IsIsolated-trans c.owner _ _ _ isolated isolated', keyed'', saved' ∙ saved)
