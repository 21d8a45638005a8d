-- ===== src/Node/Database.antt =====
-- trinci-node/src/artifacts/rocks_db.rs: what `RocksDb` and `RocksDbFork` read and write, over the
-- indexes of the crate merkledb, which are the parameter `Indexes`: maps, and lists that only grow. The
-- record `Database` holds one index for each name of consts.rs; a snapshot and a fork are both such a
-- record. A map with a name and a key, as the data of an account, is a function from the key.
use trinci.Base.{
  ◌++◌, get_elem?, ℕ, ◌-◌, ◌≡◌, Bool, not, Option, none, some, List, [], ◌∷◌, ◌==◌, String,
  String_eq, PartialEq, if◌then◌else◌, is_some, ℕ_eq,
}
use trinci.Base.Words.{u64_mod}
use trinci.Crypto.Hash.{Hash, Hash_eq}
use trinci.Node.Identity.{Identity}
use trinci.Node.Account.{Account}
use trinci.Node.Models.{Block, Confirmation}
use trinci.Node.Transactions.{Transaction}

-- `MapIndex` and `ProofMapIndex` are used in the same way, as are `ListIndex` and `ProofListIndex`.
pub record Indexes : Type 1 where
  pub Map : Type 0 → Type 0 → Type 0
  pub Vec : Type 0 → Type 0
  pub get : {K V : Type 0} → ⦃e : PartialEq K⦄ → Map K V → K → Option V
  pub put : {K V : Type 0} → ⦃e : PartialEq K⦄ → K → V → Map K V → Map K V
  pub remove : {K V : Type 0} → ⦃e : PartialEq K⦄ → K → Map K V → Map K V
  pub keys : {K V : Type 0} → ⦃e : PartialEq K⦄ → Map K V → List K
  pub entries : {V : Type 0} → Vec V → List V
  pub push : {V : Type 0} → V → Vec V → Vec V
  pub get-put :
      {K V : Type 0} ⦃e : PartialEq K⦄ (k j : K) (v : V) (m : Map K V)
      → get (put k v m) j ≡ (if k == j then some v else get m j)
  pub entries-push : {V : Type 0} (v : V) (l : Vec V) → entries (push v l) ≡ entries l ++ v ∷ []

pub record SmartContractEvent : Type 0 where
  pub event_tx : Hash
  pub emitter_account : String
  pub emitter_smart_contract : Hash
  pub event_name : String
  pub event_data : List ℕ

pub record Receipt : Type 0 where
  pub height : ℕ
  pub index : ℕ
  pub burned_fuel : ℕ
  pub success : Bool
  pub returns : List ℕ
  pub events : Option (List SmartContractEvent)

-- `ListIndex::last`.
abbrev pub last : {A : Type 0} → List A → Option A
last [] = none
last (a ∷ []) = some a
last (a ∷ (b ∷ l)) = last (b ∷ l)

-- The entry at a height, where the greatest `u64` stands for the last one.
abbrev pub at_height : {A : Type 0} → List A → ℕ → Option A
at_height l height = if height == u64_mod - 1 then last l else get_elem? l height

module _ ⦃i : Identity⦄ (x : Indexes) where
  open x use {Map, Vec}

  pub record Database : Type 0 where
    pub accounts : Map String Account
    pub account_data : String → Map String (List ℕ)
    pub attachments : Map Hash Hash
    pub blocks : Vec Block
    pub config : Map String (List ℕ)
    pub confirmations : Vec (List Confirmation)
    pub internal_db : Map String (List ℕ)
    pub receipts : Map Hash Receipt
    pub receipts_hash : ℕ → Vec Hash
    pub transactions : Map Hash Transaction
    pub transactions_hash : ℕ → Vec Hash

  unfoldable pub load_account : Database → String → Option Account
  load_account db id = x.get db.accounts id

  unfoldable pub store_account : Account → Database → Database
  store_account account db = record db { accounts = x.put account.id account db.accounts }

  unfoldable pub load_account_data : Database → String → String → Option (List ℕ)
  load_account_data db id key = x.get (db.account_data id) key

  unfoldable pub load_account_keys : Database → String → List String
  load_account_keys db id = x.keys (db.account_data id)

  -- The change of the map of one account.
  abbrev pub change_data :
      String → (Map String (List ℕ) → Map String (List ℕ)) → Database → Database
  change_data id change db = record db {
    account_data = λ j. if id == j then change (db.account_data j) else db.account_data j;
  }

  unfoldable pub store_account_data : String → String → List ℕ → Database → Database
  store_account_data id key bytes db = change_data id (x.put key bytes) db

  unfoldable pub remove_account_data : String → String → Database → Database
  remove_account_data id key db = change_data id (x.remove key) db

  unfoldable pub load_data : Database → String → Option (List ℕ)
  load_data db key = x.get db.internal_db key

  unfoldable pub store_data : String → List ℕ → Database → Database
  store_data key bytes db = record db { internal_db = x.put key bytes db.internal_db }

  unfoldable pub load_configuration : Database → String → Option (List ℕ)
  load_configuration db id = x.get db.config id

  unfoldable pub store_configuration : String → List ℕ → Database → Database
  store_configuration id config db = record db { config = x.put id config db.config }

  unfoldable pub load_attachment : Database → Hash → Option Hash
  load_attachment db hash = x.get db.attachments hash

  unfoldable pub store_attachment : Hash → Hash → Database → Database
  store_attachment hash parent_hash db = record db {
    attachments = x.put hash parent_hash db.attachments;
  }

  unfoldable pub contains_attachment : Database → Hash → Bool
  contains_attachment db hash = is_some (x.get db.attachments hash)

  unfoldable pub contains_transaction : Database → Hash → Bool
  unfolding contains_attachment
  contains_transaction db hash =
      let res = is_some (x.get db.transactions hash) in
      if not res then contains_attachment db hash else res

  unfoldable pub load_confirmations : Database → ℕ → Option (List Confirmation)
  load_confirmations db height = at_height (x.entries db.confirmations) height

  unfoldable pub load_block : Database → ℕ → Option Block
  load_block db height = at_height (x.entries db.blocks) height

  unfoldable pub store_block : Block → List Confirmation → Database → Database
  store_block block confirmations db = record db {
    blocks = x.push block db.blocks;
    confirmations = x.push confirmations db.confirmations;
  }

  abbrev pub unless_empty : List Hash → Option (List Hash)
  unless_empty [] = none
  unless_empty (hash ∷ hashes) = some (hash ∷ hashes)

  unfoldable pub load_transactions_hashes : Database → ℕ → Option (List Hash)
  load_transactions_hashes db height = unless_empty (x.entries (db.transactions_hash height))

  abbrev pub push_all : List Hash → Vec Hash → Vec Hash
  push_all [] l = l
  push_all (hash ∷ hashes) l = push_all hashes (x.push hash l)

  -- Without the root of the trie that the call returns.
  unfoldable pub store_transactions_hashes : ℕ → List Hash → Database → Database
  store_transactions_hashes height hashes db = record db {
    transactions_hash = λ h.
        if height == h then push_all hashes (db.transactions_hash h) else db.transactions_hash h;
  }

  unfoldable pub store_receipts_hashes : ℕ → List Hash → Database → Database
  store_receipts_hashes height hashes db = record db {
    receipts_hash =
        λ h. if height == h then push_all hashes (db.receipts_hash h) else db.receipts_hash h;
  }

  unfoldable pub load_receipt : Database → Hash → Option Receipt
  unfolding load_attachment
  load_receipt db hash = elim (x.get db.receipts hash) [
    | some receipt ↦ some receipt
    | none ↦ elim (load_attachment db hash) [
      | none ↦ none
      | some parent_tx ↦ x.get db.receipts parent_tx
    ]
  ]

  unfoldable pub store_receipt : Hash → Receipt → Database → Database
  store_receipt hash receipt db = record db { receipts = x.put hash receipt db.receipts }
