-- ===== src/Node/Execution/Roots.antt =====
-- wasm_service.rs: `handle_bulk_v1`, and `handle_bulk_transaction` around it.
use trinci.Base.{
  ℕ, min, Bool, true, false, ltb, Option, none, List, [], ◌∷◌, ◌++◌, String, String_eq, ℕ_eq, all,
  if◌then◌else◌,
}
use trinci.Base.Words.{wrapping_add, wrapping_sub}
use trinci.Base.Result.{Result, ok, err}
use trinci.Crypto.Hash.{Hash}
use trinci.Node.Identity.{Identity}
use trinci.Node.Database.{SmartContractEvent}
use trinci.Node.Errors.{NodeError, WasmError}
use trinci.Node.Fuel.{activate_fuel_consumption, calculate_wm_fuel_limit, wm_fuel_to_bitbell}
use trinci.Node.Transactions.{BulkNodes, TransactionData, TransactionDataV1, get_fuel_limit}
use trinci.Node.Execution.State.{
  BulkResult, HandleTransactionReturns, Run, Setting, ◌>>=◌, ◌>>◌, app_hash_check, call, found,
  give, reads, rollback, unreachable,
}
use trinci.Node.Execution.Units.{
  caller_id, fuel_burnt_for_error, is_foreign, returning, under, unless_empty,
}
use trinci.Node.Execution.Bulks.{charged, entry, handle_bulk_nodes_execution, text_of}

module _ ⦃i : Identity⦄ ⦃e : Setting⦄ where
  -- What the call of the root gives: the fuel that it burnt, its result, its events.
  abbrev pub RootReturns : Type 0
  RootReturns = ℕ × Result WasmError (List ℕ) × List SmartContractEvent

  abbrev pub fault : ℕ → ℕ → ℕ → List ℕ → WasmError
  fault height index burned_fuel returned = WasmError.bulk_execution_fault (record {
    height = height;
    index = index;
    burned_fuel = burned_fuel;
    success = false;
    returns = returned;
    events = none;
  })

  unfoldable pub call_root :
      TransactionDataV1 → String → Hash → ℕ → ℕ → Run e (Result WasmError RootReturns)
  call_root d caller app_hash limit block_timestamp = do
    called ← call (record {
      depth = 0;
      network = d.network;
      origin = caller;
      owner = d.account;
      caller = caller;
      contract = app_hash;
      method = d.method;
      args = d.args;
      initial_fuel = limit;
      block_timestamp = block_timestamp;
    })
    give (ok (called.burnt_wm_fuel, called.result, called.events))

  unfoldable pub refused_root : ℕ → ℕ → WasmError → Run e (Result WasmError RootReturns)
  refused_root height index error = do
    text ← text_of error
    give (err (fault height index fuel_burnt_for_error text))

  unfoldable pub known_root :
      TransactionDataV1 → String → ℕ → ℕ → ℕ → ℕ → Run e (Result WasmError RootReturns)
  known_root d caller limit height index block_timestamp = do
    checked ←
        app_hash_check d.contract (record { origin = caller; owner = d.account; caller = caller })
          block_timestamp
    elim checked [
      | ok app_hash ↦ call_root d caller app_hash limit block_timestamp
      | err error ↦ refused_root height index error
    ]

  unfoldable pub execute_root :
      String → TransactionData → String → ℕ → ℕ → ℕ → ℕ → Run e (Result WasmError RootReturns)
  execute_root network_name (TransactionData.bulk_root_v1 d) caller limit height index
        block_timestamp =
      if is_foreign d.network network_name height
      then give (err (fault height index 0 (e.utf8 "Unexpected transaction network")))
      else known_root d caller limit height index block_timestamp
  execute_root network_name (TransactionData.bulk_empty_root d) caller limit height index
        block_timestamp =
      give (ok (0, ok (192 ∷ []), []))
  execute_root network_name _ caller limit height index block_timestamp =
      give (err (fault height index fuel_burnt_for_error (e.utf8 "wrong transaction schema")))

  -- The events and the results of a bulk transaction.
  abbrev pub BulkReturns : Type 0
  BulkReturns = Option (List SmartContractEvent) × List (String × BulkResult)

  -- The results after the root, which burnt `burnt`.
  unfoldable pub after_root :
      String
      → TransactionData
      → BulkNodes
      → ℕ
      → ℕ
      → ℕ
      → Result WasmError (List ℕ)
      → List SmartContractEvent
      → ℕ
      → Run e BulkReturns
  after_root network_name root ns limit height block_timestamp (ok rcpt) events burnt = do
    let hash = e.codec.primary_hash root
    later ←
        handle_bulk_nodes_execution network_name ns height (wrapping_sub limit burnt)
          block_timestamp
    give (unless_empty (under hash events ++ later.1), entry hash true rcpt burnt ∷ later.0)
  after_root network_name root ns limit height block_timestamp (err error) events burnt = do
    text ← text_of error
    give (none, entry (e.codec.primary_hash root) false text burnt ∷ [])

  unfoldable pub proceed :
      String
      → TransactionData
      → BulkNodes
      → ℕ
      → ℕ
      → ℕ
      → Result WasmError RootReturns
      → Run e (Result WasmError BulkReturns)
  proceed network_name root ns limit height block_timestamp (err error) = give (err error)
  proceed network_name root ns limit height block_timestamp (ok (fuel, result, events)) = do
    returned ←
        after_root network_name root ns limit height block_timestamp result events
          (charged height (min fuel limit) result)
    give (ok returned)

  unfoldable pub handle_bulk_v1 :
      String
      → TransactionData
      → BulkNodes
      → String
      → ℕ
      → ℕ
      → ℕ
      → ℕ
      → Run e (Result WasmError BulkReturns)
  handle_bulk_v1 network_name root ns caller limit height index block_timestamp = do
    executed ← execute_root network_name root caller limit height index block_timestamp
    proceed network_name root ns limit height block_timestamp executed

  abbrev pub total_burnt : List (String × BulkResult) → ℕ
  total_burnt [] = 0
  total_burnt (r ∷ results) = wrapping_add r.1.burnt_wm_fuel (total_burnt results)

  abbrev pub all_succeeded : List (String × BulkResult) → Bool
  all_succeeded [] = false
  all_succeeded (r ∷ results) = all (λ entry. entry.1.success) (r ∷ results)

  unfoldable pub unless : Bool → Run e Unit
  unless true = give tt
  unless false = rollback

  -- The end of `handle_bulk_transaction`, with the events and the results.
  unfoldable pub conclude :
      TransactionData → String → ℕ → ℕ → BulkReturns → Run e HandleTransactionReturns
  conclude d caller height index (events, results) = do
    let total = total_burnt results
    let burnt = if ltb activate_fuel_consumption height then wm_fuel_to_bitbell total else total
    let success = all_succeeded results
    unless success
    give (returning caller d height index burnt success (e.rmp_results results) events)

  unfoldable pub conclude_bulk :
      TransactionData
      → String
      → ℕ
      → ℕ
      → Result WasmError BulkReturns
      → Run e HandleTransactionReturns
  conclude_bulk d caller height index (ok returned) = conclude d caller height index returned
  conclude_bulk d caller height index (err (WasmError.bulk_execution_fault receipt)) =
      give (record {
        burn_fuel_args = record {
          account = caller;
          fuel_to_burn = fuel_burnt_for_error;
          fuel_limit = get_fuel_limit d;
        };
        receipt = receipt;
      })
  conclude_bulk d caller height index (err error) = unreachable

  unfoldable pub execute_bulk :
      String → TransactionData → String → ℕ → ℕ → ℕ → ℕ → Run e (Result WasmError BulkReturns)
  execute_bulk network_name (TransactionData.bulk_v1 root ns) caller limit height index
        block_timestamp =
      handle_bulk_v1 network_name root ns caller limit height index block_timestamp
  execute_bulk network_name d caller limit height index block_timestamp = give (ok (none, []))

  unfoldable pub handle_bulk_transaction :
      String → TransactionData → ℕ → ℕ → ℕ → Run e HandleTransactionReturns
  handle_bulk_transaction network_name d height index block_timestamp = do
    caller ← found (caller_id d) NodeError.crypto_error
    limit ←
        reads
          (λ db. calculate_wm_fuel_limit e.indexes e.units_of caller db height (get_fuel_limit d))
    returned ← execute_bulk network_name d caller limit height index block_timestamp
    conclude_bulk d caller height index returned
