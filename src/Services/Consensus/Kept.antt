-- ===== src/Services/Consensus/Kept.antt =====
-- What `handle_messages` and `run` do to a predicate that `Keeps` describes.
use trinci.Base.{
  leb, retain, is_none, ltb, if_cases, any, if◌then◌else◌, refl, ◌∷◌, [], List, ℕ, none, some,
  Option, Bool, false, ◌≡◌,
}
use trinci.Artifacts.Models.Players.{Players}
use trinci.Base.Outcome.{
  Ensures-weaken, Outcome, Ensures-returns, returns, Ensures-if, Ensures-bind, Ensures,
}
use trinci.Artifacts.Models.{BlockProposal, Chain}
use trinci.Services.Consensus.State.{emit, set_proposals, World, ConsensusService}
use trinci.Services.Consensus.Keeps.{Keeps}
use trinci.Crypto.Hash.{Hash}
use trinci.Services.Consensus.Handlers.{
  run, handle_messages, consolidating, on_block_consolidated, on_block_election_failed,
}
use trinci.Services.Consensus.Rounds.{
  put_at, sort_by_count, check_old_proposals, find_round, take_up_proposal,
  check_old_block_proposals, check_next_round_proposals,
}
use trinci.Base.Words.{wrapping_add}
use trinci.Services.Consensus.Proposals.{update_proposals, proposals_at}
use trinci.Services.Consensus.Handled.{
  verify_confirmations_from_peer-kept, on_proposal_from_alignment_block-kept,
  on_proposal_after_build-kept, vote_proposal-kept, on_block_from_peer-kept, update_proposals-kept,
  on_block_execution_ended-kept, on_block_confirmation_from_peer-kept,
  verify_block_proposal_quorum-kept,
}
use trinci.Services.Consensus.Voting.{vote_proposal, should_player_vote}
use trinci.Artifacts.Messages.{Service, send, Msg}
use trinci.Services.Consensus.Frame.{
  check_old_proposals-Survives, confirm_build-Survives, block_election_failed-Survives,
}

module _ ⦃c : Chain⦄ (P : ConsensusService c → Type 0) (k : Keeps P) where
  open c use {Block, Confirmation, executable}

  voted-kept :
      (now r : ℕ) (block : Block × List Hash) (s : ConsensusService c)
      → P s
      → Ensures P (
          if should_player_vote (some block) r s
          then (let (voting, confirmation) = vote_proposal block.0 r s in
              update_proposals now (confirmation ∷ []) (some block) voting)
          else returns s)
  voted-kept now r block s v =
      Ensures-if (should_player_vote (some block) r s) _ _
        (λ yes.
          update_proposals-kept P k now _ _ _ (vote_proposal-kept P k block.0 block.1 r s yes v))
        (λ no. Ensures-returns s v)

  take_up_proposal-kept :
      (now h r : ℕ) (block : Block × List Hash) (s : ConsensusService c)
      → P s
      → Ensures (λ (o : ConsensusService c × Bool). P o.0) (take_up_proposal now h r block s)
  unfolding take_up_proposal
  take_up_proposal-kept now h r block s v =
      Ensures-bind {P = P} _ _ (voted-kept now r block s v) λ t u.
        Ensures-bind {P = λ (o : ConsensusService c × Bool). P o.0} _ _
          (verify_block_proposal_quorum-kept P k _ h r t u) λ o p. Ensures-returns _ p

  with_block-kept :
      (now h r : ℕ) (block : Option (Block × List Hash)) (s : ConsensusService c)
      → P s
      → Ensures
          (λ (o : ConsensusService c × Bool). P o.0)
          (elim block [ none ↦ returns (s, false) | some b ↦ take_up_proposal now h r b s ])
  with_block-kept now h r none s v = Ensures-returns _ v
  with_block-kept now h r (some b) s v = take_up_proposal-kept now h r b s v

  with_proposal-kept :
      (now h r : ℕ) (found : Option (BlockProposal c)) (s : ConsensusService c)
      → P s
      → Ensures
          (λ (o : ConsensusService c × Bool). P o.0)
          (elim found [
            | none ↦ returns (s, false)
            | some p ↦ elim p.block [
              | none ↦ returns (s, false)
              | some block ↦ take_up_proposal now h r block s
            ]
          ])
  with_proposal-kept now h r none s v = Ensures-returns _ v
  with_proposal-kept now h r (some p) s v = with_block-kept now h r p.block s v

  check_next_round_proposals-kept :
      (now h r : ℕ) (s : ConsensusService c)
      → P s
      → Ensures (λ (o : ConsensusService c × Bool). P o.0) (check_next_round_proposals now h r s)
  unfolding check_next_round_proposals
  check_next_round_proposals-kept now h r s v =
      with_proposal-kept now h r (find_round h r s.block_proposals).1
        (set_proposals (find_round h r s.block_proposals).0 s) (k.on_sort h r s v)

  on_block_election_failed-kept :
      (w : World c) (h r : ℕ) (s : ConsensusService c)
      → P s
      → Ensures P (on_block_election_failed w h r s)
  unfolding on_block_election_failed
  on_block_election_failed-kept w h r s v =
      Ensures-if (consolidating s h) _ _ (λ busy. Ensures-returns s v)
        λ free.
          Ensures-bind {P = λ (o : ConsensusService c × Bool). P o.0} _ _
            (check_next_round_proposals-kept w.now h r _ (k.on_emit _ _ refl (k.on_round r s v)))
            λ o u. Ensures-returns _ (
              if_cases P o.1 _ _ (λ taken. u)
                (λ failed. block_election_failed-Survives P k.on_emit h r o.0 u))

  old_proposals-kept :
      (now h : ℕ) (found : Option (List (BlockProposal c))) (s : ConsensusService c)
      → proposals_at h s.block_proposals ≡ found
      → P s
      → P (elim found [
        | none ↦
            if any (λ entry. ltb h entry.0) s.block_proposals
            then emit (send Service.block_service Msg.detected_possible_misalignment) s
            else s
        | some ps ↦
            let (ps', s') =
              check_old_proposals now
                (sort_by_count (retain (λ p. leb s.actual_round p.round) ps))
                s in
            set_proposals (put_at h ps' s.block_proposals) s'
      ])
  old_proposals-kept now h none s e v =
      if_cases P (any (λ entry. ltb h entry.0) s.block_proposals) _ _
        (λ ahead. k.on_emit _ s refl v) (λ level. v)
  old_proposals-kept now h (some ps) s e v = k.on_check now h ps s _ e v (
      check_old_proposals-Survives P k.on_emit now
        (sort_by_count (retain (λ p. leb s.actual_round p.round) ps)) s v)

  check_old_block_proposals-kept :
      (now : ℕ) (s : ConsensusService c) → P s → P (check_old_block_proposals now s)
  unfolding check_old_block_proposals
  check_old_block_proposals-kept now s v =
      old_proposals-kept now (wrapping_add s.height 1)
        (proposals_at (wrapping_add s.height 1) s.block_proposals) s refl v

  module _ (R : ConsensusService c → Type 0) (weaken : (t : ConsensusService c) → P t → R t)
      (consolidated : (w : World c) (b : Block) (p : Players) (s : ConsensusService c)
        → P s
        → Ensures R (on_block_consolidated w b p s)) where
    kept : (m : Outcome (ConsensusService c)) → Ensures P m → Ensures R m
    kept m h = Ensures-weaken m weaken h

    -- A new block is the one message after which less may hold, `R` in place of `P`.
    pub handle_messages-kept :
        (w : World c) (msg : Msg c) (s : ConsensusService c)
        → P s
        → Ensures R (handle_messages w msg s)
    unfolding handle_messages
    handle_messages-kept w (Msg.block_election_failed h r) s v =
        kept _ (on_block_election_failed-kept w h r s v)
    handle_messages-kept w (Msg.block_confirmation_from_peer x) s v =
        kept _ (on_block_confirmation_from_peer-kept P k w x s v)
    handle_messages-kept w (Msg.block_consolidated b hs p) s v = consolidated w b p s v
    handle_messages-kept w (Msg.block_execution_ended b hs) s v =
        kept _ (on_block_execution_ended-kept P k w b hs s v)
    handle_messages-kept w (Msg.block_from_peer b x hs) s v =
        kept _ (on_block_from_peer-kept P k w b x hs s v)
    handle_messages-kept w Msg.check_old_block_proposals s v = Ensures-returns _ (
        weaken _ (
          if_cases P (is_none s.consolidation_in_progress) _ _
            (λ idle. check_old_block_proposals-kept w.now s v) (λ busy. v)))
    handle_messages-kept w (Msg.confirm_build_block_in_place_of_leader h r) s v =
        Ensures-returns _ (weaken _ (confirm_build-Survives P k.on_emit w h r s v))
    handle_messages-kept w (Msg.proposal_after_build b r hs) s v =
        kept _ (on_proposal_after_build-kept P k w b r hs s v)
    handle_messages-kept w (Msg.proposal_from_alignment_block xs) s v =
        kept _ (on_proposal_from_alignment_block-kept P k w xs s v)
    handle_messages-kept w (Msg.verify_confirmations b xs) s v =
        kept _ (verify_confirmations_from_peer-kept P k w xs b s v)
    handle_messages-kept w _ s v = Ensures-returns s (weaken s v)

  module _
      (consolidated : (w : World c) (b : Block) (p : Players) (s : ConsensusService c)
        → P s
        → Ensures P (on_block_consolidated w b p s)) where
    pub run-kept :
        (msgs : List (World c × Msg c)) (s : ConsensusService c) → P s → Ensures P (run msgs s)
    unfolding run
    run-kept [] s v = Ensures-returns s v
    run-kept ((w, msg) ∷ rest) s v =
        Ensures-bind {P = P} _ _ (handle_messages-kept P (λ t u. u) consolidated w msg s v)
          λ t u. run-kept rest t u
