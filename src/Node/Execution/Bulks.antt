-- ===== src/Node/Execution/Bulks.antt =====
-- wasm_service.rs: `handle_bulk_transaction`, `handle_bulk_v1` and `handle_bulk_nodes_execution`. A difference of
-- fuel wraps around as in a release build.
use trinci.Base.{
  ℕ, min, Bool, true, false, not, ◌&&◌, ◌==◌, ltb, List, [], ◌∷◌, ◌++◌, String, String_eq, ℕ_eq,
  if◌then◌else◌,
}
use trinci.Base.Words.{wrapping_sub}
use trinci.Base.Outcome.{expect}
use trinci.Base.Result.{Result, ok, err}
use trinci.Crypto.Hash.{Hash}
use trinci.Node.Identity.{Identity}
use trinci.Node.Database.{SmartContractEvent}
use trinci.Node.Errors.{WasmError, to_string}
use trinci.Node.Fuel.{activate_fuel_consumption, calculate_wm_fuel_limit}
use trinci.Node.Transactions.{
  BulkNodes, SignedTransactions, TransactionData, get_account, get_args, get_contract,
  get_fuel_limit, get_method, get_network,
}
use trinci.Node.Execution.State.{
  BulkResult, Run, Setting, ◌>>=◌, app_hash_check, call, give, lift, reads,
}
use trinci.Node.Execution.Units.{caller_id, fuel_burnt_for_error, is_foreign, under}

module _ ⦃i : Identity⦄ where
  abbrev pub is_fault : Result WasmError (List ℕ) → Bool
  is_fault (ok value) = true
  is_fault (err (WasmError.smart_contract_fault m)) = true
  is_fault (err error) = false

  -- Below the height that activates the consumption of fuel a call that burns fuel costs 1,000, or nothing
  -- where the contract is not at fault.
  unfoldable pub charged : ℕ → ℕ → Result WasmError (List ℕ) → ℕ
  charged height burnt_wm_fuel result =
      if ltb height activate_fuel_consumption && not (burnt_wm_fuel == 0)
      then (if is_fault result then 1000 else 0)
      else burnt_wm_fuel

module _ ⦃i : Identity⦄ ⦃e : Setting⦄ where
  abbrev pub entry : Hash → Bool → List ℕ → ℕ → String × BulkResult
  entry hash success result burnt_wm_fuel =
      (e.hex hash, record { success = success; result = result; burnt_wm_fuel = burnt_wm_fuel })

  -- What the loop over the nodes gives: the results, and the events of the nodes that succeeded.
  abbrev pub NodesReturns : Type 0
  NodesReturns = List (String × BulkResult) × List SmartContractEvent

  abbrev pub stop : String × BulkResult → Run e NodesReturns
  stop result = give (result ∷ [], [])

  abbrev pub text_of : WasmError → Run e (List ℕ)
  text_of error = do text ← lift (to_string e.hex error); give (e.utf8 text)

  -- The node after the check of its contract: the results with this one, and where it succeeds those
  -- of the rest, which runs with the fuel that is left.
  unfoldable pub settle :
      TransactionData
      → ℕ
      → Result WasmError (List ℕ)
      → List SmartContractEvent
      → Run e NodesReturns
      → Run e NodesReturns
  settle node burnt (ok rcpt) events rest = do
    later ← rest
    let hash = e.codec.primary_hash node
    give (entry hash true rcpt burnt ∷ later.0, under hash events ++ later.1)
  settle node burnt (err error) events rest = do
    text ← text_of error
    stop (entry (e.codec.primary_hash node) false text burnt)

  -- The limit of a node is at most the fuel that is left for the bulk transaction.
  abbrev pub node_limit : TransactionData → ℕ → ℕ
  node_limit node remaining_wm_fuel = min remaining_wm_fuel (get_fuel_limit node)

  -- `rest` takes the fuel that is left.
  unfoldable pub call_node :
      TransactionData
      → String
      → Hash
      → ℕ
      → ℕ
      → ℕ
      → ℕ
      → (ℕ → Run e NodesReturns)
      → Run e NodesReturns
  call_node node caller app_hash wm_fuel_limit height remaining_wm_fuel block_timestamp rest = do
    method ← lift (get_method node)
    args ← lift (get_args node)
    called ← call (record {
      depth = 0;
      network = get_network node;
      origin = caller;
      owner = get_account node;
      caller = caller;
      contract = app_hash;
      method = method;
      args = args;
      initial_fuel = wm_fuel_limit;
      block_timestamp = block_timestamp;
    })
    let burnt = charged height (min called.burnt_wm_fuel wm_fuel_limit) called.result
    settle node burnt called.result called.events (rest (wrapping_sub remaining_wm_fuel burnt))

  unfoldable pub refused_node : TransactionData → WasmError → Run e NodesReturns
  refused_node node error = do
    text ← text_of error
    stop (entry (e.codec.primary_hash node) false text fuel_burnt_for_error)

  unfoldable pub known_node :
      TransactionData → ℕ → ℕ → ℕ → (ℕ → Run e NodesReturns) → Run e NodesReturns
  known_node node height remaining_wm_fuel block_timestamp rest = do
    caller ← lift (expect (caller_id node))
    node_wm_fuel_limit ← reads (λ db.
        calculate_wm_fuel_limit e.indexes e.units_of caller db height
          (node_limit node remaining_wm_fuel))
    contract ← lift (get_contract node)
    checked ←
        app_hash_check contract
          (record { origin = caller; owner = get_account node; caller = caller }) block_timestamp
    elim checked [
      | ok app_hash ↦
          call_node node caller app_hash node_wm_fuel_limit height remaining_wm_fuel block_timestamp
            rest
      | err error ↦ refused_node node error
    ]

  unfoldable pub handle_node :
      String → TransactionData → ℕ → ℕ → ℕ → (ℕ → Run e NodesReturns) → Run e NodesReturns
  handle_node network_name node height remaining_wm_fuel block_timestamp rest =
      if is_foreign (get_network node) network_name height
      then stop
          (entry (e.codec.primary_hash node) false (e.utf8 "Unexpected transaction network") 0)
      else known_node node height remaining_wm_fuel block_timestamp rest

  unfoldable pub handle_nodes : String → SignedTransactions → ℕ → ℕ → ℕ → Run e NodesReturns
  handle_nodes network_name SignedTransactions.nil height remaining_wm_fuel block_timestamp =
      give ([], [])
  handle_nodes network_name (SignedTransactions.cons node signature rest) height remaining_wm_fuel
        block_timestamp =
      handle_node network_name node height remaining_wm_fuel block_timestamp
        (λ remaining. handle_nodes network_name rest height remaining block_timestamp)

  unfoldable pub handle_bulk_nodes_execution : String → BulkNodes → ℕ → ℕ → ℕ → Run e NodesReturns
  handle_bulk_nodes_execution network_name BulkNodes.no_nodes height remaining block_timestamp =
      give ([], [])
  handle_bulk_nodes_execution network_name (BulkNodes.nodes l) height remaining block_timestamp =
      handle_nodes network_name l height remaining block_timestamp
