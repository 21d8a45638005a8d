-- ===== src/Tests/Blocks.antt =====
-- The block service of the sample node.
use trinci.Base.{
  some, ◌⊎◌, ◌<◌, ◌≤◌, take, false, All, none, List, [], ◌∷◌, ◌++◌, ◌≡◌, refl, ℕ, ◌+◌, arith,
  replicate,
}
use trinci.Base.Outcome.{panics}
use trinci.Base.Result.{Result, ok, err}
use trinci.Crypto.Hash
use trinci.Crypto.Hash.{hash_eq, Hash, Hash_eq}
use trinci.Artifacts.Messages.{send, PoolTx, Effect, Msg, Req, Res, Service}
use trinci.Services.Blocks.State.{
  ChainError, CoreError, emit, gets, BlockService, CommError, Outside,
}
use trinci.Services.Blocks.Handlers.{handle_messages, run}
use trinci.Tests.Sample.{three, sample, block_one, confirmed_by}
use trinci.Services.Blocks.Alignment.{ending, best_last_block, alignment_thread}
use trinci.Services.Blocks.Best.{best_last_block_lem, IsChosen}
use trinci.Services.Blocks.Chained.{IsSound}
use trinci.Services.Blocks.Execution.{
  block_size_limit, max_txs_in_block, pop_all, begin_execution, collect_missing_txs, chosen_txs,
}
use trinci.Services.Blocks.Tip.{run-tip, extend_all, tip}
use trinci.Services.Blocks.Missing.{collect_missing_txs_lem, AllUnfit, IsFit, response_txs}
use trinci.Services.Blocks.Selection.{chosen_txs_lem, IsFull, total_size, hashes}
use trinci.Services.Blocks.Thread.{alignment_thread-climb, retrieving, climb}
use trinci.Services.Blocks.Sound.{handle_messages-IsSound}
use trinci.Base.Words.{wrapping_add}
use trinci.Services.Handover.{begin_execution-Executes, Lacks, receive_all, Executes}
use trinci.Services.Transactions.Invariant.{IsInStep}
use trinci.Services.Transactions.Pool.{TransactionService}

-- The other services of the node `b`, which know the players and one transaction; two neighbours are
-- ahead, and one stands at height 1.
abbrev answers : ℕ → Service → Req → Result CommError (Res sample)
answers n service Req.get_actual_players = ok (Res.get_actual_players ("a" ∷ "b" ∷ "c" ∷ []))
answers n service Req.get_unconfirmed_hashes =
    ok (Res.get_unconfirmed_hashes ((Hash.default, 100) ∷ []))
answers n service Req.get_neighbors = ok (Res.get_neighbors ("a" ∷ "c" ∷ []))
answers n service (Req.get_last_block_info id) =
    ok (Res.get_last_block_info (record { height = 3; hash = Hash.default }))
answers n service (Req.get_txs hashes) = ok (Res.get_txs ((7, 100, none) ∷ []))
answers n service _ = err CommError.recv_timeout_error

abbrev pub others : Outside sample
others = record { response = answers; rmp_len = λ t. 100 }

abbrev pub builder : BlockService sample
builder = record {
  actual_round = 0;
  aligning = false;
  build_in_progress = false;
  height = 0;
  keypair = "b";
  last_block_hash = Hash.default;
  node_id = "b";
  asked = 0;
  outbox = [];
}

handle_messages-IsSound_example :
    All
      (IsSound others builder)
      (handle_messages others
        (Msg.block_from_peer block_one (confirmed_by "a") (Hash.default ∷ []))
        builder).outbox
handle_messages-IsSound_example =
    handle_messages-IsSound others builder
      (Msg.block_from_peer block_one (confirmed_by "a") (Hash.default ∷ [])) tt

run-tip_example :
    tip (run others (Msg.build_block ∷ Msg.block_consolidated block_one [] three ∷ []) builder)
    ≡ extend_all (Msg.build_block ∷ Msg.block_consolidated block_one [] three ∷ []) (tip builder)
run-tip_example =
    run-tip others (Msg.build_block ∷ Msg.block_consolidated block_one [] three ∷ []) builder

collect_missing_txs_example :
    ((i : ℕ) × (txs : List (PoolTx sample)) × (i < 6)
      × AllUnfit others (Hash.default ∷ []) 0 i
      × (response_txs others (Hash.default ∷ []) (0 + i) ≡ some txs)
      × IsFit (Hash.default ∷ []) txs
      × (collect_missing_txs others 6 (Hash.default ∷ []) builder ≡ (
        ok tt,
        emit
            (send Service.transaction_service (Msg.add_txs txs))
            (record builder { asked = 0 + i + 1 }),
      )))
    ⊎ (AllUnfit others (Hash.default ∷ []) 0 6
        × (collect_missing_txs others 6 (Hash.default ∷ []) builder ≡ (
          err (CoreError.chain_error ChainError.missing_txs_error),
          record builder { asked = 0 + 6 },
        )))
collect_missing_txs_example = collect_missing_txs_lem others 6 (Hash.default ∷ []) builder

abbrev sized : List (Hash × ℕ)
sized = (Hash.default, 100) ∷ (Hash.default, 1048476) ∷ (Hash.default, 300) ∷ []

chosen_txs_example :
    (n : ℕ) × (chosen_txs sized ≡ hashes (take n (pop_all sized [])))
    × (n ≤ max_txs_in_block)
    × (total_size (take n (pop_all sized [])) < block_size_limit)
    × ((n ≡ max_txs_in_block) ⊎ IsFull 0 n (pop_all sized []))
chosen_txs_example = chosen_txs_lem sized (omega arith, (omega arith, (omega arith, tt)))

best_last_block_run : (best_last_block others builder).0 ≡ ok (3, "a" ∷ "c" ∷ [])
unfolding best_last_block hash_eq
best_last_block_run = refl

best_last_block_example : IsChosen others 0 3 ("a" ∷ "c" ∷ [])
best_last_block_example = best_last_block_lem others builder 3 ("a" ∷ "c" ∷ []) best_last_block_run

alignment_thread-climb_example :
    alignment_thread 0 3 ("a" ∷ []) (climb 0 3 ++ [])
    ≡ replicate 3 (retrieving ("a" ∷ [])) ++ ending
alignment_thread-climb_example = alignment_thread-climb 3 0 3 ("a" ∷ []) [] (omega arith)

first_height : 1 ≡ wrapping_add 0 1
unfolding wrapping_add
first_height = refl

-- A node whose pool is empty, and whose neighbours have the transaction.
abbrev fetching : ℕ → Service → Req → Result CommError (Res sample)
fetching n service Req.get_unconfirmed_hashes = ok (Res.get_unconfirmed_hashes [])
fetching n service (Req.get_txs hashes) = ok (Res.get_txs ((7, 100, none) ∷ []))
fetching n service _ = err CommError.recv_timeout_error

abbrev fetching_others : Outside sample
fetching_others = record { response = fetching; rmp_len = λ t. 100 }

abbrev nothing_pooled : TransactionService sample
nothing_pooled = record {
  alignment_in_progress = false;
  build_in_progress = false;
  node_id = "b";
  old_collector = [];
  unconfirmed_pool = [];
  unconfirmed_pool_attachments = [];
  outbox = [];
}

nothing_pooled-IsInStep : IsInStep nothing_pooled
nothing_pooled-IsInStep = record { same_hashes = λ k. refl; good = tt }

abbrev fetched_txs : List (PoolTx sample)
fetched_txs = (7, 100, none) ∷ []

abbrev begun : List (Effect sample)
begun = (begin_execution fetching_others block_one (Hash.default ∷ []) builder).1.outbox

begun_run : (begin_execution fetching_others block_one (Hash.default ∷ []) builder).0 ≡ ok tt
unfolding begin_execution hash_eq gets
begun_run = refl

begin_execution-Executes_example :
    Executes block_one 0 (Hash.default ∷ []) (receive_all 20 begun nothing_pooled)
    ⊎ ((receive_all 20 begun nothing_pooled ≡ panics) × Lacks fetching_others (Hash.default ∷ []))
begin_execution-Executes_example =
    begin_execution-Executes fetching_others 20 block_one (Hash.default ∷ []) builder nothing_pooled
      nothing_pooled-IsInStep refl refl begun_run
