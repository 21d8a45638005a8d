-- ===== src/Node/Traits.antt =====
-- The blocks, confirmations and transactions of the node as an instance of the traits of the core, which
-- the services of the core are used with. `now` is the reading of the clock; a check that panics, which
-- ends the thread of the service, counts as a transaction that does not verify.
use trinci.Base.{
  ℕ, ℕ_eq, Bool, true, false, ◌&&◌, ◌==◌, ◌≡◌, ◌↔◌, refl, PartialEq, list_eq, list_eq_iff, arith,
}
use trinci.Base.Outcome.{Outcome, returns, panics}
use trinci.Crypto.Hash.{Hash_eq}
use trinci.Artifacts.Models.{Chain, Confirmable, Executable, Transactable}
use trinci.Node.Identity.{Identity}
use trinci.Node.Models.{
  Block, Codec, Confirmation, get_block_hash, get_builder_id, get_player_id, new_block,
  new_confirmation, sign_block, sign_confirmation, verify_block, verify_confirmation,
}
use trinci.Node.Transactions.{DataCodec, Transaction}
use trinci.Node.Integrity.{get_hash, verify}

module _ ⦃i : Identity⦄ where
  open i use {PublicKey, KeyPair}

  abbrev confirmation_test : Confirmation → Confirmation → Bool
  confirmation_test a b =
      a.content.block_hash == b.content.block_hash
      && (a.content.block_height == b.content.block_height
          && (a.content.block_round == b.content.block_round
              && (i.key_eq.eq a.content.signer b.content.signer
                  && list_eq a.signature b.signature)))

  confirmation_test_iff : (a b : Confirmation) → (confirmation_test a b ≡ true) ↔ (a ≡ b)
  confirmation_test_iff a b = ground (
    arith,
    Hash_eq.eq_iff a.content.block_hash b.content.block_hash,
    ℕ_eq.eq_iff a.content.block_height b.content.block_height,
    ℕ_eq.eq_iff a.content.block_round b.content.block_round,
    i.key_eq.eq_iff a.content.signer b.content.signer,
    list_eq_iff a.signature b.signature,
  )

  pub Confirmation_eq : PartialEq Confirmation
  Confirmation_eq = record { eq = confirmation_test; eq_iff = confirmation_test_iff }

  abbrev holds : Outcome Bool → Bool
  holds (returns b) = b
  holds panics = false

  unfoldable pub block_traits : Codec → ℕ → Executable Block PublicKey KeyPair
  unfolding new_block sign_block get_block_hash
  block_traits k now = record {
    get_builder_id = get_builder_id;
    get_hash = get_block_hash k;
    get_height = λ b. b.content.height;
    get_prev_hash = λ b. b.content.prev_hash;
    get_txs_hash = λ b. b.content.txs_hash;
    get_rxs_hash = λ b. b.content.rxs_hash;
    new = new_block now;
    sign = sign_block k;
    verify = verify_block k;
    get_height-new = λ p hs h prev. refl;
    get_prev_hash-new = λ p hs h prev. refl;
    get_height-sign = λ b kp. refl;
    get_hash-sign = λ b kp. refl;
  }

  unfoldable pub confirmation_traits : Codec → Confirmable Confirmation PublicKey KeyPair
  unfolding new_confirmation sign_confirmation
  confirmation_traits k = record {
    get_block_hash = λ x. x.content.block_hash;
    get_block_height = λ x. x.content.block_height;
    get_block_round = λ x. x.content.block_round;
    get_player_id = get_player_id;
    new = new_confirmation;
    sign = sign_confirmation k;
    verify = verify_confirmation k;
    get_block_hash-new = λ hash h r p kp. refl;
    get_block_height-new = λ hash h r p kp. refl;
    get_block_round-new = λ hash h r p kp. refl;
  }

  unfoldable pub transaction_traits : DataCodec → Transactable Transaction
  transaction_traits d = record { get_hash = get_hash d; verify = λ tx. holds (verify d tx) }

  unfoldable pub node_chain : {A : Type 0} → PartialEq A → Codec → DataCodec → ℕ → Chain
  unfolding block_traits confirmation_traits transaction_traits
  node_chain {A} attachment_eq k d now = record {
    Attachment = A;
    Block = Block;
    Confirmation = Confirmation;
    Transaction = Transaction;
    PublicKey = PublicKey;
    KeyPair = KeyPair;
    public_key = i.public_key;
    executable = block_traits k now;
    confirmable = confirmation_traits k;
    transactable = transaction_traits d;
    attachment_eq = attachment_eq;
    confirmation_eq = Confirmation_eq;
  }
