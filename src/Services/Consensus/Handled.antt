-- ===== src/Services/Consensus/Handled.antt =====
-- What each handler of `ConsensusService` does to a predicate that `Keeps` describes.
use trinci.Base.{
  ℕ_eq, ◌==◌, is_none, if_cases, if◌then◌else◌, ◌∷◌, [], List, ℕ, none, some, Option, Bool, true,
  false, ◌≡◌, refl, arith,
}
use trinci.Artifacts.Messages.{Msg, Service, send}
use trinci.Base.Words.{wrapping_add}
use trinci.Base.Outcome.{
  Ensures-returns, Ensures-panics, Ensures-if, Ensures-expect-bind, Ensures-bind, ◌>>=◌, Ensures,
  Outcome,
}
use trinci.Artifacts.Models.{BlockProposal, Chain}
use trinci.Services.Consensus.Voting.{vote_proposal, voted, should_player_vote}
use trinci.Crypto.Hash.{Hash}
use trinci.Services.Consensus.State.{push_vote, emit, World, ConsensusService}
use trinci.Services.Consensus.Keeps.{Keeps}
use trinci.Services.Consensus.Handlers.{
  verify_confirmations_from_peer, state_of, quorum_unless_consolidating,
  on_proposal_from_alignment_block, on_proposal_after_build, on_block_from_peer,
  on_block_execution_ended, on_block_confirmation_from_peer,
}
use trinci.Services.Consensus.Proposals.{
  decide_quorum, find_proposal, verify_block_proposal_quorum, update_proposals,
}

should_player_vote-unvoted :
    ⦃c : Chain⦄ (b : c.Block) (hs : List Hash) (r : ℕ) (s : ConsensusService c)
    → should_player_vote (some (b, hs)) r s ≡ true
    → voted s.proposal_exit_poll (c.executable.get_height b) r ≡ false
unfolding should_player_vote
should_player_vote-unvoted b hs r s h = ground arith

module _ ⦃c : Chain⦄ (P : ConsensusService c → Type 0) (k : Keeps P) where
  open c use {Block, Confirmation, executable}

  pub update_proposals-kept :
      (now : ℕ) (cs : List Confirmation) (b : Option (Block × List Hash)) (s : ConsensusService c)
      → P s
      → Ensures P (update_proposals now cs b s)
  unfolding update_proposals ◌>>=◌
  update_proposals-kept now [] b s v = Ensures-panics
  update_proposals-kept now (x ∷ xs) b s v = Ensures-returns _ (k.on_update now x xs b s v)

  decided-kept :
      (hash : Hash) (h r : ℕ) (p : BlockProposal c) (found : Option (Block × List Hash))
      (s : ConsensusService c)
      → h ≡ wrapping_add s.height 1
      → find_proposal hash h r s.block_proposals ≡ some p
      → P s
      → let o : ConsensusService c × Bool = elim found [
        | none ↦ (s, false)
        | some b ↦ decide_quorum h p b s
      ] in
        P o.0
  decided-kept hash h r p none s e found v = v
  decided-kept hash h r p (some b) s e found v = k.on_decide hash h r p b s e found v

  pub verify_block_proposal_quorum-kept :
      (hash : Hash) (h r : ℕ) (s : ConsensusService c)
      → P s
      → Ensures (λ o. P o.0) (verify_block_proposal_quorum hash h r s)
  unfolding verify_block_proposal_quorum
  verify_block_proposal_quorum-kept hash h r s v = Ensures-expect-bind _ _ λ p found.
      Ensures-returns _ (
        if_cases (λ (o : ConsensusService c × Bool). P o.0) (h == wrapping_add s.height 1) _ _
          (λ next.
            decided-kept hash h r p p.block s ((ℕ_eq.eq_iff h (wrapping_add s.height 1)).0 next)
              found v)
          (λ other. v))

  pub state_of-kept :
      (m : Outcome (ConsensusService c × Bool)) → Ensures (λ o. P o.0) m → Ensures P (state_of m)
  state_of-kept m h = Ensures-bind m _ h λ o v. Ensures-returns o.0 v

  quorum_unless_consolidating-kept :
      (hash : Hash) (h r : ℕ) (s : ConsensusService c)
      → P s
      → Ensures P (quorum_unless_consolidating hash h r s)
  unfolding quorum_unless_consolidating
  quorum_unless_consolidating-kept hash h r s v =
      Ensures-if (is_none s.consolidation_in_progress) _ _
        (λ idle. state_of-kept _ (verify_block_proposal_quorum-kept hash h r s v))
        (λ busy. Ensures-returns s v)

  -- Updating the proposals and testing the quorum.
  update_and_decide-kept :
      (now : ℕ) (cs : List Confirmation) (b : Option (Block × List Hash)) (hash : Hash) (h r : ℕ)
      (s : ConsensusService c)
      → P s
      → Ensures P (update_proposals now cs b s >>= quorum_unless_consolidating hash h r)
  update_and_decide-kept now cs b hash h r s v =
      Ensures-bind (update_proposals now cs b s) (quorum_unless_consolidating hash h r)
        (update_proposals-kept now cs b s v) (quorum_unless_consolidating-kept hash h r)

  pub vote_proposal-kept :
      (b : Block) (hs : List Hash) (r : ℕ) (s : ConsensusService c)
      → should_player_vote (some (b, hs)) r s ≡ true
      → P s
      → P (vote_proposal b r s).0
  unfolding vote_proposal
  vote_proposal-kept b hs r s e v =
      k.on_emit _ _ refl (k.on_vote _ r s (should_player_vote-unvoted b hs r s e) v)

  pub on_block_confirmation_from_peer-kept :
      (w : World c) (x : Confirmation) (s : ConsensusService c)
      → P s
      → Ensures P (on_block_confirmation_from_peer w x s)
  unfolding on_block_confirmation_from_peer
  on_block_confirmation_from_peer-kept w x s v =
      search (Ensures-returns, Ensures-if, update_and_decide-kept)

  pub on_block_execution_ended-kept :
      (w : World c) (b : Block) (hs : List Hash) (s : ConsensusService c)
      → P s
      → Ensures P (on_block_execution_ended w b hs s)
  unfolding on_block_execution_ended
  on_block_execution_ended-kept w b hs s v = Ensures-expect-bind _ _ λ p found.
      update_and_decide-kept w.now _ _ _ _ _ _ (
        if_cases P (should_player_vote (some (b, hs)) s.actual_round s) _ _
          (λ yes. vote_proposal-kept b hs s.actual_round s yes v) (λ no. v))

  kept-if : (b : Bool) (s t : ConsensusService c) → P s → P t → P (if b then s else t)
  kept-if Bool.true s t v u = v
  kept-if Bool.false s t v u = u

  kept-bind :
      (m : Outcome (ConsensusService c)) (f : ConsensusService c → Outcome (ConsensusService c))
      → Ensures P m
      → ((t : ConsensusService c) → P t → Ensures P (f t))
      → Ensures P (m >>= f)
  kept-bind m f h g = Ensures-bind m f h g

  kept_forward :
      (b : Block) (x : Confirmation) (hs : List Hash) (s : ConsensusService c)
      → P s
      → P (emit (send Service.block_service (Msg.block_from_peer b x hs)) s)
  kept_forward b x hs s v = k.on_emit _ s refl v

  kept_propagate :
      (b : Block) (x : Confirmation) (hs : List Hash) (s : ConsensusService c)
      → P s
      → P (emit (send Service.node_interface (Msg.propagate_block_to_peers b x hs)) s)
  kept_propagate b x hs s v = k.on_emit _ s refl v

  pub on_block_from_peer-kept :
      (w : World c) (b : Block) (x : Confirmation) (hs : List Hash) (s : ConsensusService c)
      → P s
      → Ensures P (on_block_from_peer w b x hs s)
  unfolding on_block_from_peer
  on_block_from_peer-kept w b x hs s v =
      search
        (
          Ensures-if, Ensures-returns, kept-bind, kept-if, update_proposals-kept, kept_forward,
          k.on_collector,
        )
        depth 9

  pub on_proposal_from_alignment_block-kept :
      (w : World c) (xs : List Confirmation) (s : ConsensusService c)
      → P s
      → Ensures P (on_proposal_from_alignment_block w xs s)
  unfolding on_proposal_from_alignment_block
  on_proposal_from_alignment_block-kept w xs s v =
      Ensures-expect-bind _ _ λ x found. update_proposals-kept w.now xs none _ (k.on_round _ s v)

  pub on_proposal_after_build-kept :
      (w : World c) (b : Block) (r : ℕ) (hs : List Hash) (s : ConsensusService c)
      → P s
      → Ensures P (on_proposal_after_build w b r hs s)
  unfolding on_proposal_after_build
  on_proposal_after_build-kept w b r hs s v =
      Ensures-if (voted s.proposal_exit_poll (executable.get_height b) r) _ _
        (λ used. Ensures-returns s v)
        λ spare.
          let recorded : P (push_vote (executable.get_height (executable.sign b s.keypair)) r s) =
            k.on_vote _ r s (rw (executable.get_height-sign b s.keypair) spare) v in
          search
            (
              Ensures-if, Ensures-returns, kept-bind, update_proposals-kept, kept_propagate,
              state_of-kept, verify_block_proposal_quorum-kept, recorded,
            )
            depth 9

  pub verify_confirmations_from_peer-kept :
      (w : World c) (xs : List Confirmation) (b : Option (Block × List Hash))
      (s : ConsensusService c)
      → P s
      → Ensures P (verify_confirmations_from_peer w xs b s)
  unfolding verify_confirmations_from_peer
  verify_confirmations_from_peer-kept w xs none s v =
      Ensures-expect-bind _ _
        λ x found. search (Ensures-if, Ensures-returns, update_and_decide-kept)
  verify_confirmations_from_peer-kept w xs (some (b, hs)) s v = Ensures-expect-bind _ _ λ x found.
      search (Ensures-if, Ensures-returns, kept-bind, update_proposals-kept, kept_forward) depth 7
