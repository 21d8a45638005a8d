-- ===== src/Services/Blocks/Chained.antt =====
-- What `BlockService` sends for execution, against the block that it stands at.
use trinci.Base.{
  length, ap, ◌∙◌, retain, All, Bool, true, ◌≡◌, refl, ℕ, ◌+◌, zero, suc, Option, none, some, List,
  ◌==◌, String, String_eq, ℕ_eq, contains, map, not,
}
use trinci.Base.Result.{ok}
use trinci.Base.Words.{wrapping_add}
use trinci.Crypto.Hash.{Hash, Hash_eq}
use trinci.Artifacts.Models.{Chain}
use trinci.Artifacts.Messages.{Effect, Msg, PoolTx, Req, Res, Service, send}
use trinci.Services.Blocks.State.{BlockService, Call, Outside, emit, give, send_msg}
use trinci.Services.Blocks.Execution.{
  hand_on, begin_execution, build_block, chosen_txs, collect_missing_txs, execute_with, hashes_in,
  is_unfit, next_block, txs_in,
}
use trinci.Consts.{max_req_attempts}
use trinci.Services.Blocks.Kept
use trinci.Services.Blocks.Verification.{players_in}

module _ ⦃c : Chain⦄ (o : Outside c) where
  -- The consensus service has named these players in a response.
  pub record AreNamed (players : List String) : Type 0 where
    pub request : ℕ
    pub answer : Res c
    pub responded : o.response request Service.consensus_service Req.get_actual_players ≡ ok answer
    pub named : players_in answer ≡ some players

module _ ⦃c : Chain⦄ (o : Outside c) (at : BlockService c) where
  open c use {Block, Confirmation, executable}

  -- The node built the block from these hashes, or the block verifies and its builder is among
  -- the players of a response of the consensus service.
  pub data HasOrigin (b : Block) (ks : List Hash) : Type 0 where
    own :
        b
          ≡ executable.new
              (c.public_key at.keypair)
              ks
              (wrapping_add at.height 1)
              at.last_block_hash
        → HasOrigin b ks
    external :
        (id : String) (players : List String)
        → executable.verify b ≡ true
        → executable.get_builder_id b ≡ some id
        → AreNamed o players
        → contains players id ≡ true
        → HasOrigin b ks

  -- A block that follows the last one by its height and its previous hash.
  pub record IsNext (b : Block) (r : ℕ) (ks : List Hash) : Type 0 where
    pub height : executable.get_height b ≡ wrapping_add at.height 1
    pub prev_hash : executable.get_prev_hash b ≡ at.last_block_hash
    pub round : r ≡ at.actual_round
    pub origin : HasOrigin b ks

  -- Only a next block is sent to be executed.
  abbrev pub IsSound : Effect c → Type 0
  IsSound (send service (Msg.collect_block_txs b r ks)) = IsNext b r ks
  IsSound _ = Unit

  pub record Chained (s : BlockService c) : Type 0 where
    pub height : s.height ≡ at.height
    pub last : s.last_block_hash ≡ at.last_block_hash
    pub round : s.actual_round ≡ at.actual_round
    pub keypair : s.keypair ≡ at.keypair
    pub sent : All IsSound at.outbox → All IsSound s.outbox

  pub emit-Chained :
      (e : Effect c) (s : BlockService c) → IsSound e → Chained s → Chained (emit e s)
  unfolding emit
  emit-Chained e s h v = record {
    height = v.height;
    last = v.last;
    round = v.round;
    keypair = v.keypair;
    sent = λ g. (h, v.sent g);
  }

  pub send-Chained :
      (service : Service) (msg : Msg c)
      → IsSound (send service msg)
      → Kept.Kept Chained (send_msg service msg)
  send-Chained service msg h = Kept.Kept-modify _ (λ s v. emit-Chained (send service msg) s h v)

  pub flags-Chained :
      (n : ℕ) (a b : Bool) (s : BlockService c)
      → Chained s
      → Chained (record s { asked = n; aligning = a; build_in_progress = b })
  flags-Chained n a b s v = record {
    height = v.height;
    last = v.last;
    round = v.round;
    keypair = v.keypair;
    sent = v.sent;
  }

  pub asked-Chained : (n : ℕ) (s : BlockService c) → Chained s → Chained (record s { asked = n })
  asked-Chained n s v = flags-Chained n s.aligning s.build_in_progress s v

  collect_missing_txs-given :
      (r : Option (List (PoolTx c))) (again : Call c Unit) (missing : List Hash)
      → Kept.Kept Chained again
      → Kept.Kept Chained (hand_on missing again r)
  collect_missing_txs-given none again missing h = h
  collect_missing_txs-given (some txs) again missing h =
      Kept.Kept-if (is_unfit missing txs) _ _ (λ _. h)
        (λ _. send-Chained Service.transaction_service (Msg.add_txs txs) tt)

  pub collect_missing_txs-Chained :
      (left : ℕ) (missing : List Hash) → Kept.Kept Chained (collect_missing_txs o left missing)
  unfolding collect_missing_txs
  collect_missing_txs-Chained zero missing = Kept.Kept-fail _
  collect_missing_txs-Chained (suc left) missing =
      Kept.Kept-reply o Service.node_interface (Req.get_txs missing) _ asked-Chained (λ r.
        collect_missing_txs-given (txs_in r) _ missing (collect_missing_txs-Chained left missing))

  execute_with-Chained :
      (b : Block) (ks unconfirmed : List Hash)
      → IsNext b at.actual_round ks
      → Kept.Kept Chained (execute_with o b ks unconfirmed)
  unfolding execute_with
  execute_with-Chained b ks unconfirmed h =
      let missing = retain (λ hash. not (contains unconfirmed hash)) ks in
      Kept.Kept-then _ _
        (Kept.Kept-if (length missing == 0) _ _ (λ _. Kept.Kept-give tt)
          (λ _. collect_missing_txs-Chained (max_req_attempts + 1) missing))
        (Kept.Kept-gets (λ s. s.actual_round) at.actual_round _ (λ s v. v.round)
          λ r same.
            send-Chained Service.transaction_service (Msg.collect_block_txs b r ks) (rw same h))

  begin_execution-given :
      (r : Option (List (Hash × ℕ))) (b : Block) (ks : List Hash)
      → IsNext b at.actual_round ks
      → Kept.Kept Chained (elim r [
        | none ↦ give tt
        | some hashes ↦ execute_with o b ks (map (λ entry. entry.0) hashes)
      ])
  begin_execution-given none b ks h = Kept.Kept-give tt
  begin_execution-given (some hashes) b ks h = execute_with-Chained b ks _ h

  pub begin_execution-Chained :
      (b : Block) (ks : List Hash)
      → IsNext b at.actual_round ks
      → Kept.Kept Chained (begin_execution o b ks)
  unfolding begin_execution
  begin_execution-Chained b ks h =
      Kept.Kept-ask o Service.transaction_service Req.get_unconfirmed_hashes _ asked-Chained
        (λ n answer same. begin_execution-given (hashes_in answer) b ks h)

  next_block-IsNext :
      (s : BlockService c) (ks : List Hash)
      → Chained s
      → IsNext (next_block s ks) at.actual_round ks
  next_block-IsNext s ks v = record {
    height = executable.get_height-new _ _ _ _ ∙ ap (λ h. wrapping_add h 1) v.height;
    prev_hash = executable.get_prev_hash-new _ _ _ _ ∙ v.last;
    round = refl;
    origin = own (rw (v.keypair, v.height, v.last) refl);
  }

  pub build_block-Chained : Kept.Kept Chained (build_block o)
  unfolding build_block
  build_block-Chained =
      Kept.Kept-then _ _ (Kept.Kept-modify _ (λ s v. flags-Chained s.asked s.aligning true s v)) (
        Kept.Kept-ask o Service.transaction_service Req.get_unconfirmed_hashes _ asked-Chained
          (λ n answer same. Kept.Kept-found (hashes_in answer) _ _ (λ hashes there.
            let ks = chosen_txs hashes in
            Kept.Kept-state (λ s. next_block s ks) (λ b. begin_execution o b ks)
              (λ s v. begin_execution-Chained (next_block s ks) ks (next_block-IsNext s ks v)))))
