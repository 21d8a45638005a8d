-- ===== src/Services/Transactions/Pool.antt =====
-- transaction_service.rs: the state of `TransactionService` and its pool. The map from hashes is an
-- association list with one entry for a hash, in no particular order, and the set of attachments a list.
use trinci.Base.{
  retain, if◌then◌else◌, contains, ℕ, Bool, not, Option, none, some, List, [], ◌∷◌, ◌==◌, String,
}
use trinci.Crypto.Hash.{Hash, Hash_eq}
use trinci.Artifacts.Models.{Chain}
use trinci.Artifacts.Messages.{PoolTx, Effect}

module _ (c : Chain) where
  open c use {Attachment}

  pub record TransactionService : Type 0 where
    pub alignment_in_progress : Bool
    pub build_in_progress : Bool
    pub node_id : String
    pub old_collector : List (Hash × ℕ)
    pub unconfirmed_pool : List (Hash × PoolTx c)
    pub unconfirmed_pool_attachments : List Attachment
    pub outbox : List (Effect c)

-- `HashMap::get`, `HashMap::insert` with the value that it replaces, `HashMap::remove`.
abbrev pub get {ℓ} : {V : Type ℓ} → Hash → List (Hash × V) → Option V
get k [] = none
get k ((i, v) ∷ rest) = if i == k then some v else get k rest

abbrev pub put {ℓ} : {V : Type ℓ} → Hash → V → List (Hash × V) → List (Hash × V)
put k new [] = (k, new) ∷ []
put k new ((i, v) ∷ rest) = if i == k then (i, new) ∷ rest else (i, v) ∷ put k new rest

abbrev pub drop_key {ℓ} : {V : Type ℓ} → Hash → List (Hash × V) → List (Hash × V)
drop_key k l = retain (λ entry. not (entry.0 == k)) l

module _ ⦃c : Chain⦄ where
  open c use {Attachment, Transaction, transactable}

  abbrev known : List Attachment → Attachment → Bool
  known set a = contains ⦃e = c.attachment_eq⦄ set a

  -- The loops over the attachments of a transaction.
  unfoldable pub insert_attachments : List Attachment → List Attachment → List Attachment
  insert_attachments [] set = set
  insert_attachments (a ∷ rest) set = insert_attachments rest (if known set a then set else a ∷ set)

  unfoldable pub remove_attachments : List Attachment → List Attachment → List Attachment
  remove_attachments [] set = set
  remove_attachments (a ∷ rest) set =
      remove_attachments rest (retain (λ b. not (c.attachment_eq.eq b a)) set)

  abbrev attachments_of : Option (List Attachment) → List Attachment
  attachments_of none = []
  attachments_of (some attachments) = attachments

  unfoldable pub insert_in_pool :
      PoolTx c → TransactionService c → TransactionService c × Option (PoolTx c)
  unfolding insert_attachments
  insert_in_pool (tx, tx_size, attachments) s =
      let tx_hash = transactable.get_hash tx in
      (
        record s {
          unconfirmed_pool_attachments =
              insert_attachments (attachments_of attachments) s.unconfirmed_pool_attachments;
          unconfirmed_pool = put tx_hash (tx, tx_size, attachments) s.unconfirmed_pool;
        },
        get tx_hash s.unconfirmed_pool,
      )

  -- The attachments of what a removal takes out; none where the hash is unknown.
  abbrev attachments_removed : Option (PoolTx c) → List Attachment
  attachments_removed none = []
  attachments_removed (some (tx, tx_size, attachments)) = attachments_of attachments

  unfoldable pub remove_from_pool :
      Hash → TransactionService c → TransactionService c × Option (PoolTx c)
  unfolding remove_attachments
  remove_from_pool tx_hash s =
      let removed = get tx_hash s.unconfirmed_pool in
      (
        record s {
          unconfirmed_pool = drop_key tx_hash s.unconfirmed_pool;
          unconfirmed_pool_attachments =
              remove_attachments (attachments_removed removed) s.unconfirmed_pool_attachments;
        },
        removed,
      )
