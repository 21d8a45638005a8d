-- ===== src/Tests/Sample.antt =====
-- A small instance of the traits: a block is its fields, a key is the id of its account, and every
-- signature is accepted.
use trinci.Base.{
  none, ℕ, ◌≡◌, refl, Bool, true, ◌&&◌, ◌==◌, ℕ_eq, String, String_eq, Option, some, List, [], ◌∷◌,
  ◌↔◌, arith,
}
use trinci.Crypto.Hash.{Hash, Hash_eq}
use trinci.Crypto.Hash
use trinci.Artifacts.Models.{Chain, Executable, Confirmable}
use trinci.Artifacts.Models.Players.{Players}
use trinci.Artifacts.Messages.{Res}
use trinci.Services.Consensus.State.{ConsensusService, World}

pub record SampleBlock : Type 0 where
  pub builder : Option String
  pub hash : Hash
  pub height : ℕ
  pub prev : Hash
  pub txs : List Hash

pub record SampleConfirmation : Type 0 where
  pub hash : Hash
  pub height : ℕ
  pub round : ℕ
  pub player : String

abbrev confirmation_test : SampleConfirmation → SampleConfirmation → Bool
confirmation_test a b =
    a.hash == b.hash && (a.height == b.height && (a.round == b.round && a.player == b.player))

pub confirmation_test_iff : (a b : SampleConfirmation) → (confirmation_test a b ≡ true) ↔ (a ≡ b)
confirmation_test_iff a b = ground (
  arith,
  Hash_eq.eq_iff a.hash b.hash,
  ℕ_eq.eq_iff a.height b.height,
  ℕ_eq.eq_iff a.round b.round,
  String_eq.eq_iff a.player b.player,
)

abbrev blocks : Executable SampleBlock String String
blocks = record {
  get_builder_id = λ b. b.builder;
  get_hash = λ b. b.hash;
  get_height = λ b. b.height;
  get_prev_hash = λ b. b.prev;
  get_txs_hash = λ b. Hash.default;
  get_rxs_hash = λ b. Hash.default;
  new = λ p txs height prev. record {
    builder = some p;
    hash = Hash.default;
    height = height;
    prev = prev;
    txs = txs;
  };
  sign = λ b k. b;
  verify = λ b. true;
  get_height-new = λ p hs h prev. refl;
  get_prev_hash-new = λ p hs h prev. refl;
  get_height-sign = λ b k. refl;
  get_hash-sign = λ b k. refl;
}

abbrev confirmations : Confirmable SampleConfirmation String String
confirmations = record {
  get_block_hash = λ x. x.hash;
  get_block_height = λ x. x.height;
  get_block_round = λ x. x.round;
  get_player_id = λ x. x.player;
  new = λ hash height round p. record { hash = hash; height = height; round = round; player = p };
  sign = λ x k. x;
  verify = λ x. true;
  get_block_hash-new = λ hash h r p k. refl;
  get_block_height-new = λ hash h r p k. refl;
  get_block_round-new = λ hash h r p k. refl;
}

instance abbrev pub sample : Chain
sample = record {
  Attachment = ℕ;
  Block = SampleBlock;
  Confirmation = SampleConfirmation;
  Transaction = ℕ;
  PublicKey = String;
  KeyPair = String;
  public_key = λ k. k;
  executable = blocks;
  confirmable = confirmations;
  transactable = record { get_hash = λ t. Hash.default; verify = λ t. true };
  attachment_eq = ℕ_eq;
  confirmation_eq = record { eq = confirmation_test; eq_iff = confirmation_test_iff };
}

abbrev pub three : Players
three = record { players_ids = "a" ∷ "b" ∷ "c" ∷ []; weights = 1 ∷ 2 ∷ 1 ∷ [] }

-- The block that `a` builds on the genesis block.
abbrev pub block_one : SampleBlock
block_one = record {
  builder = some "a";
  hash = record { array = 1 ∷ [] };
  height = 1;
  prev = Hash.default;
  txs = [];
}

abbrev pub confirmed_by : String → SampleConfirmation
confirmed_by id = record { hash = block_one.hash; height = 1; round = 0; player = id }

-- The node `b` at height 0, with the leader `a`.
abbrev pub node : ConsensusService sample
node = record {
  actual_round = 0;
  blocks_collector = λ h. none;
  block_proposals = [];
  consolidation_in_progress = none;
  height = 0;
  keypair = "b";
  last_block_hash = Hash.default;
  leader = "a";
  node_id = "b";
  players = three;
  proposal_exit_poll = [];
  outbox = [];
}

abbrev pub world : World sample
world = record { now = 100; answer = λ r. some (Res.get_drand_num 2) }
