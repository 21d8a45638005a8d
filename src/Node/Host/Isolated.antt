-- ===== src/Node/Host/Isolated.antt =====
-- What a change of one account leaves as it is.
use trinci.Base.{
  true, ℕ, false, ◌≡◌, refl, sym, ap, ◌∙◌, inl, inr, ◌==◌, String_eq, Option, none, some, List, [],
  String, if◌then◌else◌, Bool-cases, eq→≡,
}
use trinci.Crypto.Hash.{Hash}
use trinci.Node.Identity.{Identity}
use trinci.Node.Account.{Account, load_asset, new_account}
use trinci.Node.Database.{Database, load_account, store_account}
use trinci.Node.Execution.State.{Setting}
use trinci.Node.Host.{account_or_new, contract_in}

module _ ⦃i : Identity⦄ ⦃e : Setting⦄ where
  -- The value of an asset of an account, empty where the account is not there.
  abbrev pub asset_of : Option Account → String → List ℕ
  asset_of none asset = []
  asset_of (some account) asset = load_asset account asset

  abbrev pub asset_at : Database e.indexes → String → String → List ℕ
  asset_at db id asset = asset_of (load_account e.indexes db id) asset

  abbrev pub hash_of_data : Option Account → Option Hash
  hash_of_data none = none
  hash_of_data (some account) = account.data_hash

  abbrev pub data_hash_at : Database e.indexes → String → Option Hash
  data_hash_at db id = hash_of_data (load_account e.indexes db id)

  abbrev pub contract_at : Database e.indexes → String → Option Hash
  contract_at db id = contract_in (load_account e.indexes db id)

  -- Every account stands under its id.
  pub record IsKeyed (db : Database e.indexes) : Type 0 where
    pub keyed :
        (id : String) (account : Account)
        → load_account e.indexes db id ≡ some account
        → account.id ≡ id

  -- What the contract of `owner` leaves as it is: the data of other accounts and its hash, all assets but its own, the
  -- contracts, and all that is not of accounts.
  pub record IsIsolated (owner : String) (db db' : Database e.indexes) : Type 0 where
    pub data_kept : (id : String) → (owner == id) ≡ false → db'.account_data id ≡ db.account_data id
    pub assets_kept :
        (id asset : String)
        → (owner == asset) ≡ false
        → asset_at db' id asset ≡ asset_at db id asset
    pub data_hashes_kept :
        (id : String) → (owner == id) ≡ false → data_hash_at db' id ≡ data_hash_at db id
    pub contracts_kept : (id : String) → contract_at db' id ≡ contract_at db id
    pub blocks_kept : db'.blocks ≡ db.blocks
    pub confirmations_kept : db'.confirmations ≡ db.confirmations
    pub transactions_kept : db'.transactions ≡ db.transactions
    pub receipts_kept : db'.receipts ≡ db.receipts
    pub attachments_kept : db'.attachments ≡ db.attachments
    pub config_kept : db'.config ≡ db.config

  pub IsIsolated-refl : (owner : String) (db : Database e.indexes) → IsIsolated owner db db
  IsIsolated-refl owner db = record {
    data_kept = λ id h. refl;
    assets_kept = λ id asset h. refl;
    data_hashes_kept = λ id h. refl;
    contracts_kept = λ id. refl;
    blocks_kept = refl;
    confirmations_kept = refl;
    transactions_kept = refl;
    receipts_kept = refl;
    attachments_kept = refl;
    config_kept = refl;
  }

  pub IsIsolated-trans :
      (owner : String) (a b c : Database e.indexes)
      → IsIsolated owner a b
      → IsIsolated owner b c
      → IsIsolated owner a c
  IsIsolated-trans owner a b c x y = record {
    data_kept = λ id h. y.data_kept id h ∙ x.data_kept id h;
    assets_kept = λ id asset h. y.assets_kept id asset h ∙ x.assets_kept id asset h;
    data_hashes_kept = λ id h. y.data_hashes_kept id h ∙ x.data_hashes_kept id h;
    contracts_kept = λ id. y.contracts_kept id ∙ x.contracts_kept id;
    blocks_kept = y.blocks_kept ∙ x.blocks_kept;
    confirmations_kept = y.confirmations_kept ∙ x.confirmations_kept;
    transactions_kept = y.transactions_kept ∙ x.transactions_kept;
    receipts_kept = y.receipts_kept ∙ x.receipts_kept;
    attachments_kept = y.attachments_kept ∙ x.attachments_kept;
    config_kept = y.config_kept ∙ x.config_kept;
  }

  module _ (change : Account → Account) (same_id : (a : Account) → (change a).id ≡ a.id) where
    unfoldable pub changed : String → Database e.indexes → Database e.indexes
    changed id db =
        store_account e.indexes (change (account_or_new id (load_account e.indexes db id))) db

    own_id :
        (id : String) (o : Option Account)
        → ((a : Account) → o ≡ some a → a.id ≡ id)
        → (change (account_or_new id o)).id ≡ id
    unfolding new_account
    own_id id none h = same_id (new_account id none)
    own_id id (some a) h = same_id a ∙ h a refl

    load_account-changed :
        (id j : String) (db : Database e.indexes)
        → IsKeyed db
        → load_account e.indexes (changed id db) j ≡ (
            if id == j
            then some (change (account_or_new id (load_account e.indexes db id)))
            else load_account e.indexes db j)
    unfolding load_account store_account changed
    load_account-changed id j db k =
        let new = change (account_or_new id (load_account e.indexes db id)) in
        e.indexes.get-put new.id j new db.accounts
        ∙ ap (λ x. if x == j then some new else load_account e.indexes db j)
            (own_id id (load_account e.indexes db id) (λ a h. k.keyed id a h))

    pub changed-IsKeyed :
        (id : String) (db : Database e.indexes) → IsKeyed db → IsKeyed (changed id db)
    changed-IsKeyed id db k = record {
      keyed = λ j account h. elim (Bool-cases (id == j)) [
        | inl same ↦
            let new = change (account_or_new id (load_account e.indexes db id)) in
            let found : some new ≡ some account =
              rw same at (sym (load_account-changed id j db k) ∙ h) in
            let is_new : new ≡ account = cc in
            sym (ap (λ a. a.id) is_new)
            ∙ own_id id (load_account e.indexes db id) (λ a q. k.keyed id a q)
            ∙ eq→≡ id j same
        | inr other ↦ k.keyed j account (rw other at (sym (load_account-changed id j db k) ∙ h))
      ];
    }

    module _ (owner : String)
        (others : (a : Account) (asset : String)
          → (owner == asset) ≡ false
          → load_asset (change a) asset ≡ load_asset a asset)
        (same_contract : (a : Account) → (change a).contract ≡ a.contract) where
      asset_of-change :
          (id asset : String) (o : Option Account)
          → (owner == asset) ≡ false
          → load_asset (change (account_or_new id o)) asset ≡ asset_of o asset
      unfolding new_account load_asset
      asset_of-change id asset none h = others (new_account id none) asset h
      asset_of-change id asset (some a) h = others a asset h

      contract_in-change :
          (id : String) (o : Option Account)
          → (change (account_or_new id o)).contract ≡ contract_in o
      unfolding new_account
      contract_in-change id none = same_contract (new_account id none)
      contract_in-change id (some a) = same_contract a

      asset_at-changed :
          (id j asset : String) (db : Database e.indexes)
          → IsKeyed db
          → (owner == asset) ≡ false
          → asset_at (changed id db) j asset ≡ asset_at db j asset
      asset_at-changed id j asset db k h =
          ap (λ o. asset_of o asset) (load_account-changed id j db k)
          ∙ elim (Bool-cases (id == j)) [
            | inl same ↦ rw same (
                asset_of-change id asset (load_account e.indexes db id) h
                ∙ ap (λ x. asset_of (load_account e.indexes db x) asset) (eq→≡ id j same))
            | inr other ↦ rw other refl
          ]

      contract_at-changed :
          (id j : String) (db : Database e.indexes)
          → IsKeyed db
          → contract_at (changed id db) j ≡ contract_at db j
      contract_at-changed id j db k =
          ap contract_in (load_account-changed id j db k) ∙ elim (Bool-cases (id == j)) [
            | inl same ↦ rw same (
                contract_in-change id (load_account e.indexes db id)
                ∙ ap (λ x. contract_in (load_account e.indexes db x)) (eq→≡ id j same))
            | inr other ↦ rw other refl
          ]

      hash_of_data-change :
          (id : String) (o : Option Account)
          → ((a : Account) → (change a).data_hash ≡ a.data_hash)
          → (change (account_or_new id o)).data_hash ≡ hash_of_data o
      unfolding new_account
      hash_of_data-change id none kept = kept (new_account id none)
      hash_of_data-change id (some a) kept = kept a

      data_hash_at-changed :
          (id j : String) (db : Database e.indexes)
          → IsKeyed db
          → ((id == j) ≡ true → (a : Account) → (change a).data_hash ≡ a.data_hash)
          → data_hash_at (changed id db) j ≡ data_hash_at db j
      data_hash_at-changed id j db k kept =
          ap hash_of_data (load_account-changed id j db k) ∙ elim (Bool-cases (id == j)) [
            | inl same ↦ rw same (
                hash_of_data-change id (load_account e.indexes db id) (kept same)
                ∙ ap (λ x. hash_of_data (load_account e.indexes db x)) (eq→≡ id j same))
            | inr other ↦ rw other refl
          ]

      pub changed-IsIsolated :
          (id : String) (db : Database e.indexes)
          → IsKeyed db
          → ((j : String)
              → (owner == j) ≡ false
              → (id == j) ≡ true
              → (a : Account) → (change a).data_hash ≡ a.data_hash)
          → IsIsolated owner db (changed id db)
      unfolding changed store_account
      changed-IsIsolated id db k kept = record {
        data_kept = λ j h. refl;
        assets_kept = λ j asset h. asset_at-changed id j asset db k h;
        data_hashes_kept = λ j h. data_hash_at-changed id j db k (kept j h);
        contracts_kept = λ j. contract_at-changed id j db k;
        blocks_kept = refl;
        confirmations_kept = refl;
        transactions_kept = refl;
        receipts_kept = refl;
        attachments_kept = refl;
        config_kept = refl;
      }
