-- ===== src/Services/Consensus/Handlers.antt =====
-- consensus_service.rs: `handle_messages` and `handle_requests`, with the rest of the methods.
use trinci.Base.{
  ℕ, Bool, false, not, ◌&&◌, ◌||◌, Option, none, some, List, [], ◌∷◌, ◌++◌, ◌==◌, ℕ_eq, String_eq,
  if◌then◌else◌, leb, ltb, length, any, is_none,
}
use trinci.Base.Words.{wrapping_add, wrapping_sub}
use trinci.Base.Outcome.{Outcome, returns, ◌>>=◌, expect}
use trinci.Crypto.Hash.{Hash, Hash_eq}
use trinci.Artifacts.Models.{Chain}
use trinci.Artifacts.Models.Players.{Players}
use trinci.Artifacts.Messages.{send, respond, Msg, Req, Res, Service}
use trinci.Services.Consensus.State.{
  Collected, ConsensusService, World, emit, is_leader, set_round, push_vote,
}
use trinci.Services.Consensus.Proposals.{
  first, find_proposal, update_proposals, verify_block_proposal_quorum, is_player_confirmation,
}
use trinci.Services.Consensus.Voting.{voted, confirm, should_player_vote, vote_proposal}
use trinci.Services.Consensus.Leader.{draw_new_leader, reset_proposals}
use trinci.Services.Consensus.Rounds.{
  block_election_failed, block_consolidated, check_next_round_proposals, check_old_block_proposals,
  confirm_build_block_in_place_of_leader,
}

-- `entry(height).or_default()`
abbrev or_default {ℓ} : {A : Type ℓ} → Option (List A) → List A
or_default none = []
or_default (some xs) = xs

module _ ⦃c : Chain⦄ where
  open c use {Block, Confirmation, executable, confirmable}

  -- A consolidation of the block at this height is running.
  abbrev pub consolidating : ConsensusService c → ℕ → Bool
  consolidating s height = elim s.consolidation_in_progress [ none ↦ false | some h ↦ h == height ]

  -- Keeps the state of a call whose Boolean result is not used.
  abbrev pub state_of : Outcome (ConsensusService c × Bool) → Outcome (ConsensusService c)
  state_of m = do (s, result) ← m; returns s

  unfoldable pub quorum_unless_consolidating :
      Hash → ℕ → ℕ → ConsensusService c → Outcome (ConsensusService c)
  quorum_unless_consolidating block_hash block_height block_round s =
      if is_none s.consolidation_in_progress
      then state_of (verify_block_proposal_quorum block_hash block_height block_round s)
      else returns s

  -- `Msg::BlockElectionFailed`
  unfoldable pub on_block_election_failed :
      World c → ℕ → ℕ → ConsensusService c → Outcome (ConsensusService c)
  on_block_election_failed w height_to_build new_round s =
      if consolidating s height_to_build then returns s else (do
        let s' =
            emit (send Service.block_service (Msg.refresh_round new_round)) (set_round new_round s)
        (s'', taken) ← check_next_round_proposals w.now height_to_build new_round s'
        returns (if taken then s'' else block_election_failed height_to_build new_round s''))

  -- `Msg::BlockConfirmationFromPeer`
  unfoldable pub on_block_confirmation_from_peer :
      World c → Confirmation → ConsensusService c → Outcome (ConsensusService c)
  on_block_confirmation_from_peer w confirmation s =
      if (leb s.actual_round (confirmable.get_block_round confirmation)
          || ltb s.height (confirmable.get_block_height confirmation))
        && confirmable.verify confirmation
      then (do
        s' ← update_proposals w.now (confirmation ∷ []) none s
        quorum_unless_consolidating (confirmable.get_block_hash confirmation)
            (confirmable.get_block_height confirmation) (confirmable.get_block_round confirmation)
            s')
      else returns s

  unfoldable pub update_collector :
      ℕ → Option (List (Collected c)) → ConsensusService c → ConsensusService c
  update_collector height blocks s = record s {
    blocks_collector = λ h. if h == height then blocks else s.blocks_collector h;
  }

  unfoldable pub set_players : Players → ConsensusService c → ConsensusService c
  set_players players s = record s { players = players }

  unfoldable pub end_consolidation : ConsensusService c → ConsensusService c
  end_consolidation s = record s { consolidation_in_progress = none }

  -- `Msg::BlockConsolidated`
  unfoldable pub on_block_consolidated :
      World c → Block → Players → ConsensusService c → Outcome (ConsensusService c)
  on_block_consolidated w block players s = do
    let block_height = executable.get_height block
    let s' = update_collector block_height none (set_players players s)
    drawn ← draw_new_leader w block (reset_proposals (executable.get_hash block) block_height s')
    returns (block_consolidated block_height (end_consolidation drawn))

  -- `Msg::BlockExecutionEnded`
  unfoldable pub on_block_execution_ended :
      World c → Block → List Hash → ConsensusService c → Outcome (ConsensusService c)
  on_block_execution_ended w block txs_hashes s = do
    let block_hash = executable.get_hash block
    let block_height = executable.get_height block
    p ← expect (find_proposal block_hash block_height s.actual_round s.block_proposals)
    let voting = vote_proposal block s.actual_round s
    let votes = should_player_vote (some (block, txs_hashes)) s.actual_round s
    let confirmations =
        if votes then p.received_confirmations ++ voting.1 ∷ [] else p.received_confirmations
    s' ←
        update_proposals w.now confirmations (some (block, txs_hashes))
          (if votes then voting.0 else s)
    quorum_unless_consolidating block_hash block_height s.actual_round s'

  -- The block that follows the last one, or the one that is being consolidated.
  abbrev pub is_expected : ConsensusService c → ℕ → Bool
  is_expected s height =
      height == wrapping_add s.height 1
      || (height == wrapping_add s.height 2 && consolidating s (wrapping_sub height 1))

  -- `Msg::BlockFromPeer`
  unfoldable pub on_block_from_peer :
      World c → Block → Confirmation → List Hash → ConsensusService c → Outcome (ConsensusService c)
  on_block_from_peer w block confirmation txs_hashes s =
      let block_height = executable.get_height block in
      if consolidating s block_height
      then returns s
      else if executable.verify block
          && (leb s.actual_round (confirmable.get_block_round confirmation)
              && ltb s.height block_height)
      then (do
        let blocks =
            or_default (s.blocks_collector block_height) ++ (block, confirmation, txs_hashes) ∷ []
        s' ←
            update_proposals w.now (confirmation ∷ []) none
              (update_collector block_height (some blocks) s)
        returns (
            if is_expected s block_height
            then emit
                (send Service.block_service (Msg.block_from_peer block confirmation txs_hashes)) s'
            else s'))
      else returns s

  -- `Msg::ProposalAfterBuild`
  unfoldable pub on_proposal_after_build :
      World c → Block → ℕ → List Hash → ConsensusService c → Outcome (ConsensusService c)
  on_proposal_after_build w block block_round txs_hashes s =
      if voted s.proposal_exit_poll (executable.get_height block) block_round
      then returns s
      else (do
        let signed = executable.sign block s.keypair
        let height = executable.get_height signed
        let confirmation = confirm s signed block_round
        s' ←
            update_proposals w.now (confirmation ∷ []) (some (signed, txs_hashes))
              (push_vote height block_round s)
        s'' ←
            if length s.players.players_ids == 1
            then state_of
                (verify_block_proposal_quorum (executable.get_hash signed) height block_round s')
            else returns s'
        returns (
            emit
              (send Service.node_interface
                (Msg.propagate_block_to_peers signed confirmation txs_hashes))
              s''))

  -- `Msg::ProposalFromAlignmentBlock`, which panics on an empty vector.
  unfoldable pub on_proposal_from_alignment_block :
      World c → List Confirmation → ConsensusService c → Outcome (ConsensusService c)
  on_proposal_from_alignment_block w confirmations s = do
    first_confirmation ← expect (first confirmations)
    update_proposals w.now confirmations none
        (set_round (confirmable.get_block_round first_confirmation) s)

  abbrev pub are_rejected : ConsensusService c → List Confirmation → Confirmation → Bool
  are_rejected s confirmations first_confirmation =
      any
        (λ confirmation.
          not (is_player_confirmation s confirmation) || not (confirmable.verify confirmation))
        confirmations
      || (not (confirmable.get_block_height first_confirmation == wrapping_add s.height 1)
          || ltb (confirmable.get_block_round first_confirmation) s.actual_round)

  unfoldable pub verify_confirmations_from_peer :
      World c
      → List Confirmation
      → Option (Block × List Hash)
      → ConsensusService c
      → Outcome (ConsensusService c)
  verify_confirmations_from_peer w confirmations block s = do
    first_confirmation ← expect (first confirmations)
    if are_rejected s confirmations first_confirmation then returns s else do
      s' ← update_proposals w.now confirmations block s
      elim block [
        | some (b, txs_hashes) ↦ returns (
            emit (send Service.block_service (Msg.block_from_peer b first_confirmation txs_hashes))
              s')
        | none ↦
            quorum_unless_consolidating (confirmable.get_block_hash first_confirmation)
              (confirmable.get_block_height first_confirmation)
              (confirmable.get_block_round first_confirmation) s'
      ]

  -- A message that the service does not expect is logged.
  unfoldable pub handle_messages :
      World c → Msg c → ConsensusService c → Outcome (ConsensusService c)
  handle_messages w (Msg.block_election_failed height_to_build new_round) s =
      on_block_election_failed w height_to_build new_round s
  handle_messages w (Msg.block_confirmation_from_peer confirmation) s =
      on_block_confirmation_from_peer w confirmation s
  handle_messages w (Msg.block_consolidated block _ players) s =
      on_block_consolidated w block players s
  handle_messages w (Msg.block_execution_ended block txs_hashes) s =
      on_block_execution_ended w block txs_hashes s
  handle_messages w (Msg.block_from_peer block confirmation txs_hashes) s =
      on_block_from_peer w block confirmation txs_hashes s
  handle_messages w Msg.check_old_block_proposals s =
      returns (if is_none s.consolidation_in_progress then check_old_block_proposals w.now s else s)
  handle_messages w (Msg.confirm_build_block_in_place_of_leader height_to_build round) s =
      returns (confirm_build_block_in_place_of_leader w height_to_build round s)
  handle_messages w (Msg.proposal_after_build block block_round txs_hashes) s =
      on_proposal_after_build w block block_round txs_hashes s
  handle_messages w (Msg.proposal_from_alignment_block confirmations) s =
      on_proposal_from_alignment_block w confirmations s
  handle_messages w (Msg.verify_confirmations block confirmations) s =
      verify_confirmations_from_peer w confirmations block s
  handle_messages w _ s = returns s

  unfoldable pub handle_requests : Req → ConsensusService c → ConsensusService c
  unfolding is_leader
  handle_requests Req.get_actual_players s =
      emit (respond (Res.get_actual_players s.players.players_ids)) s
  handle_requests Req.get_leader s = emit (respond (Res.get_leader s.leader)) s
  handle_requests (Req.is_leader node_id) s = emit (respond (Res.is_leader (is_leader s node_id))) s
  handle_requests _ s = s

  -- `run` over the messages that arrive, with what the outside gives each handler.
  unfoldable pub run : List (World c × Msg c) → ConsensusService c → Outcome (ConsensusService c)
  run [] s = returns s
  run ((w, msg) ∷ rest) s = do s' ← handle_messages w msg s; run rest s'
