-- ===== src/Services/Consensus/Frame.antt =====
-- What the calls that only send messages leave alone: a predicate that survives `send_msg` survives them.
use trinci.Artifacts.Models.{BlockProposal, Chain}
use trinci.Services.Consensus.State.{
  is_player, Collected, set_leader, emit, World, ConsensusService,
}
use trinci.Base.{false, ◌≡◌, ◌∷◌, String}
use trinci.Artifacts.Messages.{spawn_retrieval, Effect}
use trinci.Services.Consensus.Rounds.{
  sort_by_count, is_old, forward, collected_block, leader_is_ahead, forward_blocks,
  confirm_build_block_in_place_of_leader, check_old_proposals, check_old_proposal,
  block_election_failed, block_consolidated,
}
use trinci.Base.{ℕ}
use trinci.Base.{
  leb, retain, length, ltb, get_elem?, ℕ_eq, none, [], is_none, ◌&&◌, if◌then◌else◌, ◌==◌, some,
  Option, List, if_cases,
}
use trinci.Services.Consensus.Leader.{draw_new_leader}
use trinci.Services.Consensus.Proposals.{proposals_at}
use trinci.Base.Outcome.{
  ◌>>=◌, expect, returns, Ensures-returns, Ensures-expect-bind, Ensures-if, Ensures,
}
use trinci.Base.Words.{wrapping_add}
use trinci.Base.{refl, List, Option, Bool-cases, any, inl, inr}
use trinci.Services.Consensus.Keeps.{is_start}

module _ ⦃c : Chain⦄ where
  open c use {Block}

  -- A predicate that does not mind a message, save the start of a consolidation.
  abbrev pub SurvivesSending : (ConsensusService c → Type 0) → Type 0
  SurvivesSending P =
      (e : Effect c) (s : ConsensusService c) → is_start e ≡ false → P s → P (emit e s)

  module _ (P : ConsensusService c → Type 0) (sending : SurvivesSending P) where
    pub forward_blocks-Survives :
        (h : ℕ) (ps : List (BlockProposal c)) (s : ConsensusService c)
        → P s
        → P (forward_blocks h ps s)
    unfolding forward_blocks
    forward_blocks-Survives h [] s v = v
    forward_blocks-Survives h (p ∷ ps) s v =
        elim (collected_block h p s)
          as (λ o. P (forward_blocks h ps (elim o [ none ↦ s | some found ↦ forward found s ]))) [
            | none ↦ forward_blocks-Survives h ps s v
            | some found ↦ forward_blocks-Survives h ps (forward found s) (sending _ s refl v)
          ]

    pub block_consolidated-Survives :
        (h : ℕ) (s : ConsensusService c) → P s → P (block_consolidated h s)
    unfolding block_consolidated
    block_consolidated-Survives h s v =
        elim (proposals_at (wrapping_add h 1) s.block_proposals)
          as (λ o. P (elim o [
            | none ↦ s
            | some ps ↦
                forward_blocks (wrapping_add h 1)
                  (sort_by_count (retain (λ p. leb s.actual_round p.round) ps)) s
          ])) [ none ↦ v | some ps ↦ forward_blocks-Survives _ _ s v ]

    pub block_election_failed-Survives :
        (h r : ℕ) (s : ConsensusService c) → P s → P (block_election_failed h r s)
    unfolding block_election_failed
    block_election_failed-Survives h r s v = elim (Bool-cases (is_player s)) [
      | inl e ↦ rw e (sending _ s refl v)
      | inr e ↦ rw e v
    ]

    found_or_retrieve-Survives :
        (p : BlockProposal c) (found : Option (Collected c)) (s : ConsensusService c)
        → P s
        → P (elim found [
          | some f ↦ if is_none s.consolidation_in_progress then forward f s else s
          | none ↦ emit (spawn_retrieval p) s
        ])
    found_or_retrieve-Survives p none s v = sending _ s refl v
    found_or_retrieve-Survives p (some f) s v =
        if_cases P (is_none s.consolidation_in_progress) _ _ (λ idle. sending _ s refl v)
          (λ busy. v)

    check_old_proposal-Survives :
        (p : BlockProposal c) (s : ConsensusService c) → P s → P (check_old_proposal p s)
    unfolding check_old_proposal
    check_old_proposal-Survives p s v = found_or_retrieve-Survives p _ s v

    pub check_old_proposals-Survives :
        (now : ℕ) (ps : List (BlockProposal c)) (s : ConsensusService c)
        → P s
        → P (check_old_proposals now ps s).1
    unfolding check_old_proposals
    check_old_proposals-Survives now [] s v = v
    check_old_proposals-Survives now (p ∷ ps) s v =
        check_old_proposals-Survives now ps _
          (if_cases P (is_old now p) _ _ (λ old. check_old_proposal-Survives _ s v) (λ young. v))

    pub confirm_build-Survives :
        (w : World c) (h r : ℕ) (s : ConsensusService c)
        → P s
        → P (confirm_build_block_in_place_of_leader w h r s)
    unfolding confirm_build_block_in_place_of_leader
    confirm_build-Survives w h r s v =
        if_cases P (leader_is_ahead w h r s) _ _ (λ ahead. sending _ s refl v)
          (λ level.
            if_cases P
              (any (λ entry. entry.0 == h && any (λ p. p.round == r) entry.1) s.block_proposals) _ _
              (λ known. v) (λ unknown. sending _ s refl v))

    module _ (leading : (l : String) (s : ConsensusService c) → P s → P (set_leader l s)) where
      with_number-Survives :
          (o : Option ℕ) (ids : List String) (s : ConsensusService c)
          → P s
          → Ensures P (elim o [
            | none ↦ returns s
            | some n ↦ expect (get_elem? ids n) >>= λ l. returns (set_leader l s)
          ])
      with_number-Survives none ids s v = Ensures-returns s v
      with_number-Survives (some n) ids s v =
          Ensures-expect-bind _ _ λ l at. Ensures-returns _ (leading l s v)

      pub draw_new_leader-Survives :
          (w : World c) (b : Block) (s : ConsensusService c)
          → P s
          → Ensures P (draw_new_leader w b s)
      unfolding draw_new_leader
      draw_new_leader-Survives w b s v =
          Ensures-if (ltb 1 (length s.players.players_ids)) _ _
            (λ many. with_number-Survives _ _ _ (sending _ s refl v))
            (λ one.
              Ensures-expect-bind _ _ λ l at. Ensures-returns _ (leading l _ (sending _ s refl v)))
