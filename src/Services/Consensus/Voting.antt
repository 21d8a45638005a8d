-- ===== src/Services/Consensus/Voting.antt =====
-- consensus_service.rs: `should_player_vote` and `vote_proposal`.
use trinci.Base.{
  ℕ, Bool, true, false, not, ◌&&◌, Option, none, some, List, String_eq, contains, ◌==◌, ℕ_eq,
  if◌then◌else◌, any,
}
use trinci.Base.Words.{wrapping_add}
use trinci.Crypto.Hash.{Hash, Hash_eq}
use trinci.Artifacts.Models.{Chain}
use trinci.Artifacts.Messages.{send, Msg, Service}
use trinci.Services.Consensus.State.{ConsensusService, push_vote, emit, is_player}

-- `proposal_exit_poll.iter().any(…)`
abbrev pub voted : List (ℕ × ℕ) → ℕ → ℕ → Bool
voted poll height round = any (λ v. v.0 == height && v.1 == round) poll

module _ ⦃c : Chain⦄ where
  open c use {Block, Confirmation, executable, confirmable, public_key}

  -- The builder is known and is a player.
  abbrev pub built_by_player : ConsensusService c → Block → Bool
  built_by_player s block = elim (executable.get_builder_id block) [
    | none ↦ false
    | some id ↦ contains s.players.players_ids id
  ]

  unfoldable pub should_player_vote : Option (Block × List Hash) → ℕ → ConsensusService c → Bool
  unfolding is_player
  should_player_vote none block_round s = false
  should_player_vote (some (block, txs_hashes)) block_round s =
      if not (is_player s)
      then false
      else if voted s.proposal_exit_poll (executable.get_height block) block_round
      then false
      else if not (built_by_player s block)
      then false
      else if not (block_round == s.actual_round)
      then false
      else if not (executable.get_height block == wrapping_add s.height 1)
      then false
      else if not (executable.get_prev_hash block == s.last_block_hash)
      then false
      else true

  -- The confirmation of a block by this node.
  abbrev pub confirm : ConsensusService c → Block → ℕ → Confirmation
  confirm s block block_round =
      confirmable.sign
        (confirmable.new (executable.get_hash block) (executable.get_height block) block_round
          (public_key s.keypair))
        s.keypair

  unfoldable pub vote_proposal : Block → ℕ → ConsensusService c → ConsensusService c × Confirmation
  vote_proposal block block_round s =
      let confirmation = confirm s block block_round in
      (
        emit (send Service.node_interface (Msg.propagate_confirmation_to_peers confirmation))
            (push_vote (executable.get_height block) block_round s),
        confirmation,
      )
