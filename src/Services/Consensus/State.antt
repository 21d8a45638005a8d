-- ===== src/Services/Consensus/State.antt =====
-- consensus_service.rs: the state of `ConsensusService`. `blocks_collector` is a function from heights.
-- `outbox` stands for the channels and the spawned threads, the newest effect first.
use trinci.Base.{[], ◌++◌, ℕ, Bool, Option, List, ◌∷◌, String, String_eq, contains, ◌==◌, ℕ_eq}
use trinci.Crypto.Hash.{Hash}
use trinci.Artifacts.Models.{Chain, BlockProposal}
use trinci.Artifacts.Models.Players.{Players}
use trinci.Artifacts.Messages.{Effect, Req, Res}

module _ (c : Chain) where
  open c use {Block, Confirmation, KeyPair}

  -- `Vec<(u64, Vec<BlockProposal<B, C>>)>`
  abbrev pub BlockProposals : Type 0
  BlockProposals = List (ℕ × List (BlockProposal c))

  -- A block with a confirmation and the hashes of its transactions.
  abbrev pub Collected : Type 0
  Collected = Block × Confirmation × List Hash

  pub record ConsensusService : Type 0 where
    pub actual_round : ℕ
    pub blocks_collector : ℕ → Option (List Collected)
    pub block_proposals : BlockProposals
    pub consolidation_in_progress : Option ℕ
    pub height : ℕ
    pub keypair : KeyPair
    pub last_block_hash : Hash
    pub leader : String
    pub node_id : String
    pub players : Players
    pub proposal_exit_poll : List (ℕ × ℕ)
    pub outbox : List (Effect c)

  -- What a handler reads from outside: the clock, and the response to a request; `none` stands for an
  -- error or a timeout of `send_req`. A handler makes one request at most.
  pub record World : Type 0 where
    pub now : ℕ
    pub answer : Req → Option (Res c)

module _ ⦃c : Chain⦄ where
  -- `send_msg`
  unfoldable pub emit : Effect c → ConsensusService c → ConsensusService c
  emit e s = record s { outbox = e ∷ s.outbox }

  -- Assignments to single fields.
  unfoldable pub set_round : ℕ → ConsensusService c → ConsensusService c
  set_round round s = record s { actual_round = round }

  unfoldable pub set_proposals : BlockProposals c → ConsensusService c → ConsensusService c
  set_proposals proposals s = record s { block_proposals = proposals }

  unfoldable pub set_leader : String → ConsensusService c → ConsensusService c
  set_leader leader s = record s { leader = leader }

  unfoldable pub push_vote : ℕ → ℕ → ConsensusService c → ConsensusService c
  push_vote height round s = record s {
    proposal_exit_poll = s.proposal_exit_poll ++ (height, round) ∷ [];
  }

  unfoldable pub is_leader : ConsensusService c → String → Bool
  is_leader s node_id = s.leader == node_id

  unfoldable pub is_player : ConsensusService c → Bool
  is_player s = contains s.players.players_ids s.node_id
