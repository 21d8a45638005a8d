-- ===== src/Artifacts/Models.antt =====
-- trinci-core-new/src/artifacts/models.rs: the traits of blocks, confirmations and transactions as
-- records of operations, and the structs that the services keep. The types that implement the traits
-- are chosen by the node, so a `Chain` is a parameter of every service.
pub mod Players
pub mod Seed
use trinci.Base.{ℕ, ◌≡◌, Bool, Option, List, String, PartialEq, length}
use trinci.Crypto.Hash.{Hash}

-- `Executable`, with keys `P` and key pairs `K`. `get_builder_pub_key` and the `get_mut_*`
-- accessors are called by the node only.
pub record Executable (B P K : Type 0) : Type 0 where
  pub get_builder_id : B → Option String
  pub get_hash : B → Hash
  pub get_height : B → ℕ
  pub get_prev_hash : B → Hash
  pub get_txs_hash : B → Hash
  pub get_rxs_hash : B → Hash
  pub new : P → List Hash → ℕ → Hash → B
  pub sign : B → K → B
  pub verify : B → Bool
  pub get_height-new :
      (p : P) (hs : List Hash) (h : ℕ) (prev : Hash) → get_height (new p hs h prev) ≡ h
  pub get_prev_hash-new :
      (p : P) (hs : List Hash) (h : ℕ) (prev : Hash) → get_prev_hash (new p hs h prev) ≡ prev
  pub get_height-sign : (b : B) (k : K) → get_height (sign b k) ≡ get_height b
  pub get_hash-sign : (b : B) (k : K) → get_hash (sign b k) ≡ get_hash b

-- `Confirmable`.
pub record Confirmable (C P K : Type 0) : Type 0 where
  pub get_block_hash : C → Hash
  pub get_block_height : C → ℕ
  pub get_block_round : C → ℕ
  pub get_player_id : C → String
  pub new : Hash → ℕ → ℕ → P → C
  pub sign : C → K → C
  pub verify : C → Bool
  pub get_block_hash-new :
      (hash : Hash) (h r : ℕ) (p : P) (k : K) → get_block_hash (sign (new hash h r p) k) ≡ hash
  pub get_block_height-new :
      (hash : Hash) (h r : ℕ) (p : P) (k : K) → get_block_height (sign (new hash h r p) k) ≡ h
  pub get_block_round-new :
      (hash : Hash) (h r : ℕ) (p : P) (k : K) → get_block_round (sign (new hash h r p) k) ≡ r

-- `Transactable`.
pub record Transactable (T : Type 0) : Type 0 where
  pub get_hash : T → Hash
  pub verify : T → Bool

-- The type arguments `A`, `B`, `C`, `T` of the services, with what their bounds require.
pub record Chain : Type 1 where
  pub Attachment : Type 0
  pub Block : Type 0
  pub Confirmation : Type 0
  pub Transaction : Type 0
  pub PublicKey : Type 0
  pub KeyPair : Type 0
  pub public_key : KeyPair → PublicKey
  pub executable : Executable Block PublicKey KeyPair
  pub confirmable : Confirmable Confirmation PublicKey KeyPair
  pub transactable : Transactable Transaction
  pub attachment_eq : PartialEq Attachment
  pub confirmation_eq : PartialEq Confirmation

module _ (c : Chain) where
  open c use {Block, Confirmation, Transaction}

  -- `timestamp` is the reading of the clock in `BlockProposal::new`.
  pub record BlockProposal : Type 0 where
    pub block : Option (Block × List Hash)
    pub block_hash : Hash
    pub block_height : ℕ
    pub count : ℕ
    pub received_confirmations : List Confirmation
    pub round : ℕ
    pub timestamp : ℕ

  pub record FullBlock : Type 0 where
    pub block : Block
    pub confirmations : List Confirmation
    pub txs : List Transaction

module _ ⦃c : Chain⦄ where
  open c use {Block, Confirmation}

  -- `BlockProposal::new` at the time `now`.
  abbrev pub new_proposal :
      ℕ → Option (Block × List Hash) → Hash → ℕ → List Confirmation → ℕ → BlockProposal c
  new_proposal now block block_hash block_height received_confirmations round = record {
    block = block;
    block_hash = block_hash;
    block_height = block_height;
    count = length received_confirmations;
    received_confirmations = received_confirmations;
    round = round;
    timestamp = now;
  }
