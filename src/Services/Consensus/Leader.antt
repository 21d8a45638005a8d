-- ===== src/Services/Consensus/Leader.antt =====
-- consensus_service.rs: `draw_new_leader`, `reset_proposals` and `start`.
use trinci.Base.{
  ℕ, not, Option, none, some, [], ◌∷◌, ◌*◌, String, ℕ_eq, if◌then◌else◌, ltb, leb, length, retain,
  get_elem?,
}
use trinci.Base.Words.{wrapping_sub}
use trinci.Base.Outcome.{Outcome, returns, ◌>>=◌, expect}
use trinci.Crypto.Hash.{Hash}
use trinci.Crypto.Hash
use trinci.Artifacts.Models.{Chain}
use trinci.Artifacts.Models.Players.{Players, sum, get_weighted_player_ids}
use trinci.Artifacts.Messages.{Effect, send, spawn_loop, sleep_ms, deliver, Msg, Req, Res, Service}
use trinci.Services.Consensus.State.{ConsensusService, set_leader, World, emit, is_player}

abbrev pub check_old_block_proposals_s : ℕ
check_old_block_proposals_s = 5

module _ ⦃c : Chain⦄ where
  open c use {Block, KeyPair, executable}

  -- The response to `GetDRandNum`; `none` for any other.
  abbrev pub drawn : Option (Res c) → Option ℕ
  drawn (some (Res.get_drand_num n)) = some n
  drawn _ = none

  unfoldable pub draw_new_leader :
      World c → Block → ConsensusService c → Outcome (ConsensusService c)
  draw_new_leader w block s =
      let seeded =
        emit
          (send Service.drand_service (
            Msg.update_seed_source (executable.get_hash block) (executable.get_txs_hash block)
              (executable.get_rxs_hash block)))
          s in
      if ltb 1 (length s.players.players_ids)
      then elim (drawn (w.answer (Req.get_drand_num (wrapping_sub (sum s.players.weights) 1)))) [
        | none ↦ returns seeded
        | some drand_num ↦ (do
          new_leader ← expect (get_elem? (get_weighted_player_ids s.players) drand_num)
          returns (set_leader new_leader seeded))
      ]
      else (do only ← expect (get_elem? s.players.players_ids 0); returns (set_leader only seeded))

  -- The poll keeps the heights up to `block_height`, as the code does.
  unfoldable pub reset_proposals : Hash → ℕ → ConsensusService c → ConsensusService c
  unfolding is_player
  reset_proposals block_hash block_height s = record s {
    actual_round = 0;
    height = block_height;
    last_block_hash = block_hash;
    proposal_exit_poll =
        if is_player s
        then retain (λ v. leb v.0 block_height) s.proposal_exit_poll
        else s.proposal_exit_poll;
    block_proposals = retain (λ entry. not (leb entry.0 block_height)) s.block_proposals;
  }

  -- The state before the first message, and the thread that asks for a check of old proposals.
  abbrev first_state : World c → KeyPair → String → Players → ℕ → Hash → String → ConsensusService c
  first_state w keypair node_id players height last_block_hash leader = record {
    actual_round = 0;
    blocks_collector = λ h. none;
    block_proposals = [];
    consolidation_in_progress = none;
    height = height;
    keypair = keypair;
    last_block_hash = last_block_hash;
    leader = leader;
    node_id = node_id;
    players = players;
    proposal_exit_poll = [];
    outbox = [];
  }

  abbrev checker : Effect c
  checker = spawn_loop (
      sleep_ms (check_old_block_proposals_s * 1000)
      ∷ deliver Service.consensus_service Msg.check_old_block_proposals
      ∷ [])

  unfoldable pub start :
      World c → KeyPair → String → Players → Option Block → Outcome (ConsensusService c)
  unfolding draw_new_leader emit
  start w keypair node_id players none = do
    leader ← expect (get_elem? players.players_ids 0)
    returns (emit checker (first_state w keypair node_id players 0 Hash.default leader))
  start w keypair node_id players (some block) = do
    leader ← expect (get_elem? players.players_ids 0)
    let s =
        first_state w keypair node_id players (executable.get_height block)
          (executable.get_hash block) leader
    drawn_state ← if ltb 0 s.height then draw_new_leader w block s else returns s
    returns (emit checker drawn_state)
