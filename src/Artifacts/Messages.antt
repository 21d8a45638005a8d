-- ===== src/Artifacts/Messages.antt =====
-- trinci-core-new/src/artifacts/messages.rs: the messages, requests and responses that the services
-- exchange, and what a handler sends or starts, as data. A channel is unbounded and keeps its order;
-- a failed send is only logged, so sending is one more entry in the outbox of a service.
use trinci.Base.{ℕ, Bool, Option, List, String, ℕ_eq}
use trinci.Crypto.Hash.{Hash, Hash_eq}
use trinci.Artifacts.Models.{Chain, BlockProposal, FullBlock}
use trinci.Artifacts.Models.Players.{Players}

pub record BlockInfo : Type 0 where
  pub height : ℕ
  pub hash : Hash

pub data Req : Type 0 where
  get_actual_players : Req
  get_confirmations : ℕ → Hash → Bool → Req
  get_drand_num : ℕ → Req
  get_full_block : ℕ → List String → Req
  get_last_block_info : String → Req
  get_leader get_neighbors get_pool_length : Req
  get_txs : List Hash → Req
  get_unconfirmed_hashes : Req
  is_leader : String → Req

pub data Service : Type 0 where
  alignment_service block_service consensus_service drand_service node_interface : Service
  transaction_service : Service

module _ (c : Chain) where
  open c use {Attachment, Block, Confirmation, Transaction}

  -- A transaction with its serialized size and its attachments.
  abbrev pub PoolTx : Type 0
  PoolTx = Transaction × ℕ × Option (List Attachment)

  pub data Msg : Type 0 where
    add_tx : PoolTx → Msg
    add_txs : List PoolTx → Msg
    alignment_ended alignment_started : Msg
    block_confirmation_from_peer : Confirmation → Msg
    block_consolidated : Block → List Hash → Players → Msg
    block_from_peer : Block → Confirmation → List Hash → Msg
    build_block : Msg
    block_execution_ended : Block → List Hash → Msg
    build_block_in_place_of_leader build_block_timeout : ℕ → Msg
    check_old_block_proposals check_old_txs : Msg
    collect_block_txs : Block → ℕ → List Hash → Msg
    confirm_build_block_in_place_of_leader : ℕ → ℕ → Msg
    detected_possible_misalignment : Msg
    execute_block : Block → ℕ → List Transaction → Msg
    height_from_peer : ℕ → Msg
    block_election_failed : ℕ → ℕ → Msg
    new_height : ℕ → Msg
    propagate_block_to_peers : Block → Confirmation → List Hash → Msg
    propagate_confirmation_to_peers : Confirmation → Msg
    propagate_old_txs : List Transaction → Msg
    proposal_after_build : Block → ℕ → List Hash → Msg
    proposal_from_alignment_block : List Confirmation → Msg
    refresh_round : ℕ → Msg
    retrieve_block : List String → Msg
    start_block_consolidation : Block → List Confirmation → List Hash → Msg
    start_timer_to_build_block : Msg
    update_seed_source : Hash → Hash → Hash → Msg
    verify_confirmations : Option (Block × List Hash) → List Confirmation → Msg
    verify_if_consolidated : ℕ → ℕ → Msg

  pub data Res : Type 0 where
    get_actual_players : List String → Res
    get_confirmations : Option (List Confirmation) → Option (Block × List Hash) → Res
    get_drand_num : ℕ → Res
    get_full_block : Option (FullBlock c) → String → Res
    get_last_block_info : BlockInfo → Res
    get_leader : String → Res
    get_neighbors : List String → Res
    get_pool_length : ℕ → Res
    get_txs : List PoolTx → Res
    get_unconfirmed_hashes : List (Hash × ℕ) → Res
    is_leader : Bool → Res

  -- A step of a spawned thread: a wait of so many milliseconds, a random wait of up to so many
  -- seconds, a message.
  pub data ThreadStep : Type 0 where
    sleep_ms sleep_up_to_s : ℕ → ThreadStep
    deliver : Service → Msg → ThreadStep

  -- What a handler does to the outside: a message, a response to the request at hand, a thread that
  -- runs the given steps once, one that repeats them for ever, the alignment thread, and the thread that retrieves confirmations.
  pub data Effect : Type 0 where
    send : Service → Msg → Effect
    respond : Res → Effect
    spawn : List ThreadStep → Effect
    spawn_loop : List ThreadStep → Effect
    spawn_alignment : ℕ → ℕ → List String → Effect
    spawn_retrieval : BlockProposal c → Effect
