-- ===== src/Services/Consensus/Rounds.antt =====
-- consensus_service.rs: what the rounds do with the cached proposals: `block_election_failed`,
-- `block_consolidated`, `check_next_round_proposals`, `check_old_block_proposals` and
-- `confirm_build_block_in_place_of_leader`.
use trinci.Base.{
  ℕ, ◌%◌, Bool, true, false, ◌&&◌, Option, none, some, List, [], ◌∷◌, ◌==◌, ℕ_eq, if◌then◌else◌,
  leb, ltb, find, any, retain, is_none,
}
use trinci.Base.Words.{wrapping_add, wrapping_sub}
use trinci.Base.Outcome.{Outcome, returns, ◌>>=◌}
use trinci.Crypto.Hash.{Hash, Hash_eq}
use trinci.Artifacts.Models.{Chain, BlockProposal}
use trinci.Artifacts.Messages.{
  send, spawn, spawn_retrieval, sleep_ms, sleep_up_to_s, deliver, Msg, Req, Res, Service,
}
use trinci.Services.Consensus.State.{
  BlockProposals, Collected, ConsensusService, World, emit, is_player, set_proposals,
}
use trinci.Services.Consensus.Proposals.{
  update_proposals, verify_block_proposal_quorum, proposals_at,
}
use trinci.Services.Consensus.Voting.{should_player_vote, vote_proposal}

abbrev pub max_time_to_propose_block_s : ℕ
max_time_to_propose_block_s = 30

abbrev pub default_poll_timeout_ms : ℕ
default_poll_timeout_ms = 10000

abbrev pub verify_old_block_proposals_s : ℕ
verify_old_block_proposals_s = 15

abbrev pub round_check_misalignment : ℕ
round_check_misalignment = 10

module _ ⦃c : Chain⦄ where
  open c use {Block, Confirmation, executable, confirmable}

  unfoldable pub block_election_failed : ℕ → ℕ → ConsensusService c → ConsensusService c
  unfolding is_player
  block_election_failed height_to_build round s =
      if is_player s
      then emit
          (spawn (
            sleep_up_to_s max_time_to_propose_block_s
            ∷ deliver Service.consensus_service
                (Msg.confirm_build_block_in_place_of_leader height_to_build round)
            ∷ sleep_ms default_poll_timeout_ms
            ∷ deliver Service.node_interface (Msg.verify_if_consolidated height_to_build round)
            ∷ []))
          s
      else s

  -- `sort_by(|a, b| b.count.cmp(&a.count))`, which is stable: an earlier proposal stays in front of
  -- the later ones with its count.
  unfoldable pub insert_by_count : BlockProposal c → List (BlockProposal c) → List (BlockProposal c)
  insert_by_count p [] = p ∷ []
  insert_by_count p (q ∷ qs) = if leb q.count p.count then p ∷ q ∷ qs else q ∷ insert_by_count p qs

  unfoldable pub sort_by_count : List (BlockProposal c) → List (BlockProposal c)
  unfolding insert_by_count
  sort_by_count [] = []
  sort_by_count (p ∷ ps) = insert_by_count p (sort_by_count ps)

  abbrev pub is_block_of : BlockProposal c → Collected c → Bool
  is_block_of p (block, _, _) = executable.get_hash block == p.block_hash

  -- The collected block of a proposal at a height.
  unfoldable pub collected_block : ℕ → BlockProposal c → ConsensusService c → Option (Collected c)
  collected_block height p s = elim (s.blocks_collector height) [
    | none ↦ none
    | some blocks_at_height ↦ find (is_block_of p) blocks_at_height
  ]

  abbrev pub forward : Collected c → ConsensusService c → ConsensusService c
  forward (block, confirmation, txs_hashes) s =
      emit (send Service.block_service (Msg.block_from_peer block confirmation txs_hashes)) s

  -- The loop of `block_consolidated` over the proposals at `height + 1`.
  unfoldable pub forward_blocks :
      ℕ → List (BlockProposal c) → ConsensusService c → ConsensusService c
  forward_blocks height [] s = s
  forward_blocks height (p ∷ ps) s =
      forward_blocks height ps
        (elim (collected_block height p s) [ none ↦ s | some found ↦ forward found s ])

  unfoldable pub block_consolidated : ℕ → ConsensusService c → ConsensusService c
  block_consolidated height s = elim (proposals_at (wrapping_add height 1) s.block_proposals) [
    | none ↦ s
    | some ps ↦
        forward_blocks (wrapping_add height 1)
          (sort_by_count (retain (λ p. leb s.actual_round p.round) ps)) s
  ]

  -- The `find_map` of `check_next_round_proposals`, which sorts what it visits.
  unfoldable pub find_round : ℕ → ℕ → BlockProposals c → BlockProposals c × Option (BlockProposal c)
  find_round block_height block_round [] = ([], none)
  find_round block_height block_round ((h, ps) ∷ rest) =
      let (rest', later) = find_round block_height block_round rest in
      if h == block_height
      then elim (find (λ p. p.round == block_round) (sort_by_count ps)) [
        | some p ↦ ((h, sort_by_count ps) ∷ rest, some p)
        | none ↦ ((h, sort_by_count ps) ∷ rest', later)
      ]
      else ((h, ps) ∷ rest', later)

  -- What follows where a proposal with its block is found.
  unfoldable pub take_up_proposal :
      ℕ → ℕ → ℕ → Block × List Hash → ConsensusService c → Outcome (ConsensusService c × Bool)
  take_up_proposal now block_height block_round block s = do
    s' ←
        if should_player_vote (some block) block_round s
        then (let (voting, confirmation) = vote_proposal block.0 block_round s in
            update_proposals now (confirmation ∷ []) (some block) voting)
        else returns s
    (s'', started) ←
        verify_block_proposal_quorum (executable.get_hash block.0) block_height block_round s'
    returns (s'', true)

  unfoldable pub check_next_round_proposals :
      ℕ → ℕ → ℕ → ConsensusService c → Outcome (ConsensusService c × Bool)
  check_next_round_proposals now block_height block_round s =
      let (sorted, found) = find_round block_height block_round s.block_proposals in
      let s' = set_proposals sorted s in
      elim found [
        | none ↦ returns (s', false)
        | some p ↦ elim p.block [
          | none ↦ returns (s', false)
          | some block ↦ take_up_proposal now block_height block_round block s'
        ]
      ]

  abbrev pub is_old : ℕ → BlockProposal c → Bool
  is_old now p = leb verify_old_block_proposals_s (wrapping_sub now p.timestamp)

  -- One round of the loop over the proposals: what it does for an old one.
  unfoldable pub check_old_proposal : BlockProposal c → ConsensusService c → ConsensusService c
  check_old_proposal p s =
      elim (if is_none p.block then collected_block p.block_height p s else none) [
        | some found ↦ if is_none s.consolidation_in_progress then forward found s else s
        | none ↦ emit (spawn_retrieval p) s
      ]

  abbrev pub refresh : ℕ → BlockProposal c → BlockProposal c
  refresh now p = record p { timestamp = now }

  unfoldable pub check_old_proposals :
      ℕ → List (BlockProposal c) → ConsensusService c → List (BlockProposal c) × ConsensusService c
  check_old_proposals now [] s = ([], s)
  check_old_proposals now (p ∷ ps) s =
      let p' = if is_old now p then refresh now p else p in
      let s' = if is_old now p then check_old_proposal p' s else s in
      let (ps', s'') = check_old_proposals now ps s' in (p' ∷ ps', s'')

  -- Writes back the proposals at the first place of a height.
  unfoldable pub put_at : ℕ → List (BlockProposal c) → BlockProposals c → BlockProposals c
  put_at height new [] = []
  put_at height new ((h, ps) ∷ rest) =
      if h == height then (h, new) ∷ rest else (h, ps) ∷ put_at height new rest

  unfoldable pub check_old_block_proposals : ℕ → ConsensusService c → ConsensusService c
  check_old_block_proposals now s =
      let height_to_build = wrapping_add s.height 1 in
      elim (proposals_at height_to_build s.block_proposals) [
        | none ↦
            if any (λ entry. ltb height_to_build entry.0) s.block_proposals
            then emit (send Service.block_service Msg.detected_possible_misalignment) s
            else s
        | some ps ↦
            let (ps', s') =
              check_old_proposals now (sort_by_count (retain (λ p. leb s.actual_round p.round) ps))
                s in
            set_proposals (put_at height_to_build ps' s.block_proposals) s'
      ]

  -- The height that the leader reports; `none` for an error or another response.
  abbrev pub reported_height : Option (Res c) → Option ℕ
  reported_height (some (Res.get_last_block_info info)) = some info.height
  reported_height _ = none

  abbrev pub leader_is_ahead : World c → ℕ → ℕ → ConsensusService c → Bool
  leader_is_ahead w height_to_build round s =
      if round % round_check_misalignment == 0
      then elim (reported_height (w.answer (Req.get_last_block_info s.leader))) [
        | none ↦ false
        | some height ↦ leb (wrapping_add height_to_build 2) height
      ]
      else false

  unfoldable pub confirm_build_block_in_place_of_leader :
      World c → ℕ → ℕ → ConsensusService c → ConsensusService c
  confirm_build_block_in_place_of_leader w height_to_build round s =
      if leader_is_ahead w height_to_build round s
      then emit (send Service.block_service Msg.detected_possible_misalignment) s
      else if any (λ entry. entry.0 == height_to_build && any (λ p. p.round == round) entry.1)
          s.block_proposals
      then s
      else emit (send Service.block_service (Msg.build_block_in_place_of_leader height_to_build)) s
