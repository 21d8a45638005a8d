-- ===== src/Services/Blocks/Verification.antt =====
-- block_service.rs: `verify_ext_block`.
use trinci.Base.{
  ℕ, Bool, not, ◌&&◌, Option, none, some, List, ◌==◌, leb, any, contains, ℕ_eq, String, String_eq,
}
use trinci.Base.Words.{wrapping_add}
use trinci.Crypto.Hash.{Hash, Hash_eq}
use trinci.Artifacts.Models.{Chain}
use trinci.Artifacts.Messages.{Req, Res, Service}
use trinci.Services.Blocks.State.{
  give, Call, ChainError, CommError, CoreError, Outside, ◌>>=◌, ◌>>◌, ask, found, gets, require,
}
use trinci.Services.Blocks.Execution.{begin_execution}

module _ ⦃c : Chain⦄ where
  open c use {Block, Confirmation, executable, confirmable}

  abbrev pub players_in : Res c → Option (List String)
  players_in (Res.get_actual_players players) = some players
  players_in _ = none

  -- A confirmation of this round or a later one whose author is not a player.
  abbrev pub is_foreign : List String → ℕ → Confirmation → Bool
  is_foreign players round x =
      not (contains players (confirmable.get_player_id x))
      && leb round (confirmable.get_block_round x)

  module _ (o : Outside c) where
    -- The request for the players and the test of the builder, which `verify_ext_block` makes twice.
    unfoldable pub players_with : String → Call c (List String)
    unfolding ask found require ◌>>=◌
    players_with builder_id = do
      answer ← ask o Service.consensus_service Req.get_actual_players
      players ← found (players_in answer) (CoreError.comm_error CommError.invalid_comm)
      require (contains players builder_id)
          (CoreError.chain_error (ChainError.invalid_block_player builder_id))
      give players

    unfoldable pub verify_ext_block : Block → List Hash → List Confirmation → Call c Unit
    unfolding players_with begin_execution
    verify_ext_block block txs_hashes confirmations = do
      require (executable.verify block) (CoreError.chain_error ChainError.block_verification_fault)
      builder_id ←
          found (executable.get_builder_id block)
            (CoreError.chain_error ChainError.missing_block_builder)
      expected ← gets (λ s. wrapping_add s.height 1)
      require (executable.get_height block == expected) (
          CoreError.chain_error
            (ChainError.invalid_block_height expected (executable.get_height block)))
      last ← gets (λ s. s.last_block_hash)
      require (executable.get_prev_hash block == last) (
          CoreError.chain_error
            (ChainError.invalid_block_previous_hash last (executable.get_prev_hash block)))
      players ← players_with builder_id
      players' ← players_with builder_id
      round ← gets (λ s. s.actual_round)
      require (not (any (is_foreign players' round) confirmations))
          (CoreError.chain_error ChainError.confirmation_error)
      begin_execution o block txs_hashes
