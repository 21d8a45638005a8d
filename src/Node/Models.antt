-- ===== src/Node/Models.antt =====
-- trinci-node/src/artifacts/models.rs: `Block`, `BlockData`, `Confirmation`, `ConfirmationData` and the
-- traits that they implement. Serialization and the hash of an object are the parameter `Codec`; the
-- clock that `Block::new` reads is an argument.
use trinci.Base.{ℕ, ◌%◌, ◌^◌, Bool, false, Option, none, some, List, [], String, length}
use trinci.Crypto.Hash
use trinci.Crypto.Hash.{Hash}
use trinci.Node.Identity.{Identity}

module _ ⦃i : Identity⦄ where
  open i use {PublicKey, KeyPair}

  pub record BlockData : Type 0 where
    pub validator : Option PublicKey
    pub height : ℕ
    pub size : ℕ
    pub prev_hash : Hash
    pub txs_hash : Hash
    pub rxs_hash : Hash
    pub state_hash : Hash
    pub timestamp : ℕ

  pub record Block : Type 0 where
    pub content : BlockData
    pub signature : List ℕ

  pub record ConfirmationData : Type 0 where
    pub block_hash : Hash
    pub block_height : ℕ
    pub block_round : ℕ
    pub signer : PublicKey

  pub record Confirmation : Type 0 where
    pub content : ConfirmationData
    pub signature : List ℕ

  -- `rmp_serialize` and `primary_hash`.
  pub record Codec : Type 0 where
    pub rmp_block : BlockData → List ℕ
    pub primary_hash : BlockData → Hash
    pub rmp_confirmation : ConfirmationData → List ℕ

  abbrev id_of : Option PublicKey → Option String
  id_of none = none
  id_of (some key) = i.to_account_id key

  -- `unwrap_or_else` with an empty vector.
  abbrev or_empty : Option (List ℕ) → List ℕ
  or_empty none = []
  or_empty (some bytes) = bytes

  abbrev or_blank : Option String → String
  or_blank none = ""
  or_blank (some id) = id

  unfoldable pub new_block : ℕ → PublicKey → List Hash → ℕ → Hash → Block
  new_block now builder_id hashes height prev_hash = record {
    content = record {
      validator = some builder_id;
      height = height;
      size = length hashes % 2 ^ 32;
      prev_hash = prev_hash;
      txs_hash = Hash.default;
      rxs_hash = Hash.default;
      state_hash = Hash.default;
      timestamp = now;
    };
    signature = [];
  }

  unfoldable pub get_builder_id : Block → Option String
  get_builder_id b = id_of b.content.validator

  unfoldable pub new_confirmation : Hash → ℕ → ℕ → PublicKey → Confirmation
  new_confirmation block_hash block_height block_round signer = record {
    content = record {
      block_hash = block_hash;
      block_height = block_height;
      block_round = block_round;
      signer = signer;
    };
    signature = [];
  }

  unfoldable pub get_player_id : Confirmation → String
  get_player_id x = or_blank (i.to_account_id x.content.signer)

  module _ (k : Codec) where
    unfoldable pub get_block_hash : Block → Hash
    get_block_hash b = k.primary_hash b.content

    unfoldable pub sign_block : Block → KeyPair → Block
    sign_block b kp = record b { signature = or_empty (i.sign kp (k.rmp_block b.content)) }

    abbrev verify_by : Option PublicKey → Block → Bool
    verify_by none b = false
    verify_by (some validator) b = i.verify validator (k.rmp_block b.content) b.signature

    unfoldable pub verify_block : Block → Bool
    verify_block b = verify_by b.content.validator b

    unfoldable pub sign_confirmation : Confirmation → KeyPair → Confirmation
    sign_confirmation x kp = record x {
      signature = or_empty (i.sign kp (k.rmp_confirmation x.content));
    }

    unfoldable pub verify_confirmation : Confirmation → Bool
    verify_confirmation x = i.verify x.content.signer (k.rmp_confirmation x.content) x.signature
