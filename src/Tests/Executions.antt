-- ===== src/Tests/Executions.antt =====
-- The execution of transactions and blocks by a machine that writes a note into the data of the account and fails
-- where the method says so, over forks that are pairs of databases.
use trinci.Base.{
  map, ◌+◌, arith, ◌≤◌, true, ℕ, ◌≡◌, refl, ◌⊎◌, ◌==◌, String_eq, false, some, none, List, [], ◌∷◌,
  String, Option, if◌then◌else◌,
}
use trinci.Base.Result.{Result, ok, err}
use trinci.Crypto.Hash
use trinci.Crypto.Hash.{Hash}
use trinci.Node.Database.{load_block, load_account, Database, Receipt, store_account_data}
use trinci.Node.Errors.{take_bytes, format_error_string, to_string, WasmError}
use trinci.Node.Machine.{Forks, Wm}
use trinci.Node.Transactions.{
  BulkNodes, SignedTransactions, get_fuel_limit, get_args, get_method, get_caller, get_network,
  get_account, get_contract, Transaction, TransactionData,
}
use trinci.Node.Validators.{
  validators_key, ValidatorsCodec, collect_players, load_ids, load_players, validators_of,
}
use trinci.Artifacts.Models.Players.{Players}
use trinci.Node.Execution.Consolidated.{
  IsConsolidated, IsExecuted, consolidate_block-IsConsolidated,
}
use trinci.Base.{inl, inr, Option-cases}
use trinci.Node.Database.{store_block, load_account_data, load_account_keys}
use trinci.Node.Execution.State
use trinci.Node.Execution.State.{
  BulkResult, app_hash_check, call, rollback, flush, reads, HandleTransactionReturns, Reply,
  Setting, World,
}
use trinci.Tests.Nodes.{codec, plain}
use trinci.Tests.Stores.{empty_database, lists}
use trinci.Node.Execution.Rollback.{IsRestored}
use trinci.Node.Execution.Failed.{execute_transaction-restores, IsPaid}
use trinci.Node.Execution.Transactions.{
  execute_block_transactions, unpaid, charge, burn, handle_transaction, execute_transaction,
}
use trinci.Node.Execution.Units.{
  error_text, judge, call_contract, known_unit, handle_unit_transaction,
}
use trinci.Node.Fuel.{calculate_wm_fuel_limit}
use trinci.Node.Execution.Blocks.{
  consolidate_block, settle_block, roots_of, update_db_fork, executed, send, note_leader, Sent,
  insert_fork, store_hashes, execute_block, WasmService,
}
use trinci.Node.Execution.Bulks.{
  charged, settle, call_node, known_node, handle_node, handle_nodes, handle_bulk_nodes_execution,
}
use trinci.Node.Execution.Roots.{
  unless, conclude, conclude_bulk, after_root, proceed, execute_root, execute_bulk, total_burnt,
  handle_bulk_v1, handle_bulk_transaction,
}
use trinci.Node.Execution.Complete.{handle_bulk_transaction-IsComplete, IsComplete}
use trinci.Node.Execution.Agreement.{execute_block-agrees}
use trinci.Node.Execution.Burnt.{handle_bulk_v1-le}
use trinci.Base.Outcome.{returns, expect, ◌>>=◌}
use trinci.Node.Models.{Block, get_builder_id, get_block_hash}
use trinci.Base.Words.{wrapping_sub, wrapping_add}

pub unwrapped : (a b : Database lists) → Path (Option (Database lists)) (some a) (some b) → b ≡ a
unwrapped a b h = cc

abbrev pub pairs : Forks lists
pairs = record {
  Fork = Database lists × Database lists;
  create = λ db. (db, db);
  view = λ f. f.0;
  saved = λ f. f.1;
  write = λ g f. (g f.0, f.1);
  flush = λ f. (f.0, f.0);
  rollback = λ f. (f.1, f.1);
  merge = λ f db. some f.0;
  state_hash = λ db id. Hash.default;
  root = λ l. Hash.default;
  view-create = λ db. refl;
  view-write = λ g f. refl;
  saved-write = λ g f. refl;
  view-flush = λ f. refl;
  saved-flush = λ f. refl;
  view-rollback = λ f. refl;
  saved-rollback = λ f. refl;
  merge-view = λ f db db' h. unwrapped f.0 db' h;
}

abbrev answer : String → Result WasmError (List ℕ)
answer method =
    if method == "transfer" then ok (7 ∷ []) else err (WasmError.smart_contract_fault "no")

abbrev noting : Wm lists pairs
noting = record {
  State = ℕ;
  call = λ a m f. (
    record { burnt_wm_fuel = 5; result = answer a.method; events = [] },
    m,
    (store_account_data lists a.owner "note" [] f.0, f.1),
  );
  app_hash_check = λ h a time m f. (ok Hash.default, m, f);
  callable_call = λ a m f. ((0, ok 0, []), m, f);
  saved-call = λ a m f. refl;
  saved-check = λ h a time m f. refl;
}

abbrev pub no_validators : ValidatorsCodec
no_validators = record { read_ids = λ bytes. some (some []); read_value = λ bytes. none }

instance abbrev pub small : Setting
small = record {
  indexes = lists;
  forks = pairs;
  wm = noting;
  codec = codec;
  hex = λ h. "";
  utf8 = λ s. [];
  units_of = λ bytes. 0;
  burn_args = λ id fuel. [];
  burn_returns = λ bytes. none;
  rmp_results = λ results. [];
  rmp_slashed = λ p. [];
  receipt_hash = λ r. Hash.default;
  block_codec = record {
    rmp_block = λ b. [];
    primary_hash = λ b. Hash.default;
    rmp_confirmation = λ x. [];
  };
  tx_primary_hash = λ tx. Hash.default;
  validators = no_validators;
}

abbrev start : World small
start = record { machine = 0; fork = (empty_database, empty_database) }

abbrev fails : Transaction
fails =
    Transaction.unit_transaction
      (TransactionData.v1 (record {
        account = "a";
        fuel_limit = 100;
        nonce = 1 ∷ [];
        network = "net";
        contract = none;
        method = "fail";
        caller = "a";
        args = [];
      }))
      []

abbrev unpaid_receipt : Receipt
unpaid_receipt = record {
  height = 5;
  index = 0;
  burned_fuel = 0;
  success = false;
  returns = [];
  events = none;
}

unpaid_done : execute_transaction "net" "" fails 5 0 9 start ≡ Reply.done unpaid_receipt start
unfolding execute_transaction handle_transaction handle_unit_transaction known_unit call_contract
    judge error_text to_string burn charge unpaid State.◌>>=◌ reads flush rollback call
    app_hash_check calculate_wm_fuel_limit get_contract get_account get_network get_caller
    get_method get_args get_fuel_limit load_account format_error_string take_bytes
unpaid_done = refl

execute_transaction-restores_example :
    IsRestored empty_database start ⊎ IsPaid empty_database "" 9 start
execute_transaction-restores_example =
    execute_transaction-restores "net" "" fails 5 0 9 start start unpaid_receipt unpaid_done refl

abbrev empty_root : TransactionData
empty_root =
    TransactionData.bulk_empty_root
      (record { fuel_limit = 100; nonce = 1 ∷ []; network = "net"; caller = "a" })

abbrev one_node : SignedTransactions
one_node =
    SignedTransactions.cons
      (TransactionData.bulk_node_v1 (record {
        account = "b";
        fuel_limit = 0;
        nonce = 2 ∷ [];
        network = "net";
        contract = none;
        method = "transfer";
        caller = "a";
        args = [];
        depends_on = Hash.default;
      }))
      [] SignedTransactions.nil

abbrev noted : World small
noted = record {
  machine = 0;
  fork = (store_account_data lists "b" "note" [] empty_database, empty_database);
}

abbrev bulk_returns : HandleTransactionReturns
bulk_returns = record {
  burn_fuel_args = record { account = "a"; fuel_to_burn = 1000; fuel_limit = 100 };
  receipt = record {
    height = 5;
    index = 0;
    burned_fuel = 1000;
    success = true;
    returns = [];
    events = none;
  };
}

bulk_done :
    handle_bulk_transaction "net"
      (TransactionData.bulk_v1 empty_root (BulkNodes.nodes one_node))
      5
      0
      9
      start
    ≡ Reply.done bulk_returns noted
unfolding handle_bulk_transaction execute_bulk handle_bulk_v1 execute_root proceed after_root
    conclude_bulk conclude unless handle_bulk_nodes_execution handle_nodes handle_node known_node
    call_node settle charged State.◌>>=◌ reads call app_hash_check calculate_wm_fuel_limit
    get_contract get_account get_network get_caller get_method get_args get_fuel_limit load_account
    expect wrapping_add wrapping_sub
bulk_done = refl

handle_bulk_transaction-IsComplete_example :
    (results : List (String × BulkResult)) × (bulk_returns.receipt.returns ≡ [])
    × IsComplete empty_root (BulkNodes.nodes one_node) results
handle_bulk_transaction-IsComplete_example =
    handle_bulk_transaction-IsComplete "net" empty_root (BulkNodes.nodes one_node) 5 0 9 start noted
      bulk_returns bulk_done refl

-- Above the height 20,000, where the node runs without fuel.
abbrev high_results : List (String × BulkResult)
high_results =
    ("", record { success = true; result = 192 ∷ []; burnt_wm_fuel = 0 })
    ∷ ("", record { success = true; result = 7 ∷ []; burnt_wm_fuel = 0 })
    ∷ []

high_done :
    handle_bulk_v1 "net" empty_root (BulkNodes.nodes one_node) "a" 50 30000 0 9 start
    ≡ Reply.done (ok (none, high_results)) noted
unfolding handle_bulk_v1 execute_root proceed after_root handle_bulk_nodes_execution handle_nodes
    handle_node known_node call_node settle charged State.◌>>=◌ reads call app_hash_check
    calculate_wm_fuel_limit get_contract get_account get_network get_caller get_method get_args
    get_fuel_limit load_account expect wrapping_sub
high_done = refl

handle_bulk_v1-le_example : total_burnt high_results ≤ 50 + 1000
handle_bulk_v1-le_example =
    handle_bulk_v1-le 30000 (omega arith) "net" empty_root (BulkNodes.nodes one_node) "a" 50 0 9
      start noted (none, high_results) tt high_done

abbrev fifth : Block
fifth = record {
  content = record {
    validator = some "a";
    height = 5;
    size = 0;
    prev_hash = Hash.default;
    txs_hash = Hash.default;
    rxs_hash = Hash.default;
    state_hash = Hash.default;
    timestamp = 9;
  };
  signature = [];
}

abbrev builder : WasmService small
builder = record {
  burning_fuel_method = "";
  db = empty_database;
  forks_collector = [];
  node_id = "a";
  network_name = "net";
  machine = 0;
  outbox = [];
}

abbrev stored_fork : Database lists × Database lists
stored_fork = store_hashes 5 [] [] (empty_database, empty_database)

abbrev proposed_state : WasmService small
proposed_state =
    insert_fork Hash.default stored_fork (send (Sent.proposal_after_build fifth 0 []) builder)

proposal_done : execute_block none fifth 0 [] builder ≡ returns (ok tt, proposed_state)
unfolding execute_block load_block note_leader execute_block_transactions executed update_db_fork
    store_hashes roots_of settle_block get_builder_id get_block_hash
proposal_done = refl

builder_id : get_builder_id fifth ≡ some builder.node_id
unfolding get_builder_id
builder_id = refl

execute_block-agrees_example :
    (v : WasmService small) × (execute_block none
        (record fifth { signature = 3 ∷ [] })
        1
        []
        (record builder { node_id = "b"; forks_collector = []; outbox = [] })
      ≡ returns (ok tt, v))
    × (v.outbox ≡ Sent.block_execution_ended (record fifth { signature = 3 ∷ [] }) [] ∷ [])
execute_block-agrees_example =
    execute_block-agrees none fifth fifth (3 ∷ []) 0 1 [] [] builder proposed_state "b" [] []
      builder_id refl (omega arith) proposal_done refl

-- Whatever a database holds, its players can be read: there are none, or the ids under their keys.
readable :
    (db : Database lists)
    → (players : Players) × (collect_players lists no_validators db ≡ returns players)
unfolding collect_players load_ids load_players ◌>>=◌ expect
readable db = elim (Option-cases (load_account_data lists db "TRINCI" validators_key)) [
  | inl missing ↦
      (let ids = validators_of (load_account_keys lists db "TRINCI") in
        (record { players_ids = ids; weights = map (λ id. 1) ids }, rw (load_ids, missing) refl))
  | inr (bytes, there) ↦ (record { players_ids = []; weights = [] }, rw (load_ids, there) refl)
]

consolidate_block-IsConsolidated_example :
    (fork : Database lists × Database lists) × (players : Players) × IsExecuted none fifth []
      builder fork
    × IsConsolidated fifth [] [] players fork (consolidate_block fifth [] [] proposed_state)
consolidate_block-IsConsolidated_example =
    consolidate_block-IsConsolidated none fifth fifth 0 [] [] [] [] builder proposed_state
      (omega arith) proposal_done (inl (0, refl))
      (λ fork ran.
        let (players, known) = readable (store_block lists fifth [] fork.0) in
        (store_block lists fifth [] fork.0, players, refl, known))
