-- ===== src/Node/Execution/Units.antt =====
-- wasm_service.rs: `handle_unit_transaction`.
use trinci.Base.{
  ℕ, min, Bool, true, false, not, ◌&&◌, ◌||◌, ◌==◌, ltb, Option, none, some, List, [], ◌∷◌, map,
  String, String_eq, if◌then◌else◌,
}
use trinci.Base.Outcome
use trinci.Base.Outcome.{Outcome, returns, panics}
use trinci.Base.Result.{Result, ok, err}
use trinci.Crypto.Hash.{Hash}
use trinci.Node.Identity.{Identity}
use trinci.Node.Database.{SmartContractEvent}
use trinci.Node.Errors.{NodeError, WasmError, to_string, to_string_kind}
use trinci.Node.Fuel.{activate_fuel_consumption, calculate_wm_fuel_limit, wm_fuel_to_bitbell}
use trinci.Node.Transactions.{
  TransactionData, get_account, get_args, get_caller, get_contract, get_fuel_limit, get_method,
  get_network,
}
use trinci.Node.Execution.State.{
  HandleTransactionReturns, Run, Setting, ◌>>=◌, ◌>>◌, app_hash_check, call, found, give, lift,
  reads, rollback,
}

abbrev pub fuel_burnt_for_error : ℕ
fuel_burnt_for_error = 1000

-- The events of a transaction, under its hash.
abbrev pub under : Hash → List SmartContractEvent → List SmartContractEvent
under hash events = map {A = SmartContractEvent} (λ event. record event { event_tx = hash }) events

abbrev pub unless_empty : List SmartContractEvent → Option (List SmartContractEvent)
unless_empty [] = none
unless_empty (event ∷ events) = some (event ∷ events)

-- A transaction of another network; the genesis block may hold any.
abbrev pub is_foreign : String → String → ℕ → Bool
is_foreign network network_name height = not (network == network_name) && ltb 0 height

module _ ⦃i : Identity⦄ where
  -- `get_caller().to_account_id()?`
  abbrev pub caller_id : TransactionData → Option String
  caller_id d = i.to_account_id (get_caller d)

module _ ⦃i : Identity⦄ ⦃e : Setting⦄ where
  -- The text of an error in a receipt, and whether it is a fault of the contract.
  unfoldable pub error_text : WasmError → Outcome (String × Bool)
  error_text (WasmError.smart_contract_fault m) =
      Outcome.◌>>=◌ (to_string e.hex (WasmError.smart_contract_fault m)) (λ t. returns (t, true))
  error_text (WasmError.resource_not_found m) =
      Outcome.◌>>=◌ (to_string e.hex (WasmError.resource_not_found m)) (λ t. returns (t, true))
  error_text error = Outcome.◌>>=◌ (to_string_kind e.hex error) (λ t. returns (t, false))

  -- The success, the bytes that are returned, whether the contract is at fault.
  unfoldable pub judge : Result WasmError (List ℕ) → Run e (Bool × List ℕ × Bool)
  judge (ok value) = give (true, value, false)
  judge (err error) = do
    rollback
    text ← lift (error_text error)
    give (false, e.utf8 text.0, text.1)

  -- The bitbells of a unit transaction.
  abbrev pub burnt_bitbell : ℕ → ℕ → Bool → Bool → ℕ
  burnt_bitbell height burnt_wm_fuel success is_smartcontract_fault =
      if ltb activate_fuel_consumption height
      then wm_fuel_to_bitbell burnt_wm_fuel
      else if success || is_smartcontract_fault
      then 1000
      else 0

  -- What is returned for a transaction that burns `fuel`.
  abbrev pub returning :
      String
      → TransactionData
      → ℕ
      → ℕ
      → ℕ
      → Bool
      → List ℕ
      → Option (List SmartContractEvent)
      → HandleTransactionReturns
  returning account d height index fuel success returned events = record {
    burn_fuel_args = record {
      account = account;
      fuel_to_burn = fuel;
      fuel_limit = get_fuel_limit d;
    };
    receipt = record {
      height = height;
      index = index;
      burned_fuel = fuel;
      success = success;
      returns = returned;
      events = events;
    };
  }

  -- The transaction after the check of its contract.
  unfoldable pub call_contract :
      TransactionData → String → Hash → ℕ → ℕ → ℕ → ℕ → Run e HandleTransactionReturns
  call_contract d caller app_hash wm_fuel_limit height index block_timestamp = do
    method ← lift (get_method d)
    args ← lift (get_args d)
    called ← call (record {
      depth = 0;
      network = get_network d;
      origin = caller;
      owner = get_account d;
      caller = caller;
      contract = app_hash;
      method = method;
      args = args;
      initial_fuel = wm_fuel_limit;
      block_timestamp = block_timestamp;
    })
    verdict ← judge called.result
    let burnt = burnt_bitbell height (min called.burnt_wm_fuel wm_fuel_limit) verdict.0 verdict.2
    give (
        returning caller d height index burnt verdict.0 verdict.1
          (unless_empty (under (e.codec.primary_hash d) called.events)))

  unfoldable pub refused :
      TransactionData → String → ℕ → ℕ → WasmError → Run e HandleTransactionReturns
  refused d caller height index error = do
    text ← lift (to_string e.hex error)
    give (returning caller d height index fuel_burnt_for_error false (e.utf8 text) none)

  unfoldable pub foreign_unit : TransactionData → ℕ → ℕ → Run e HandleTransactionReturns
  foreign_unit d height index = do
    caller ← found (caller_id d) NodeError.crypto_error
    give (returning caller d height index 0 false (e.utf8 "Unexpected transaction network") none)

  unfoldable pub known_unit : TransactionData → ℕ → ℕ → ℕ → Run e HandleTransactionReturns
  known_unit d height index block_timestamp = do
    caller ← found (caller_id d) NodeError.crypto_error
    wm_fuel_limit ←
        reads
          (λ db. calculate_wm_fuel_limit e.indexes e.units_of caller db height (get_fuel_limit d))
    contract ← lift (get_contract d)
    checked ←
        app_hash_check contract (record { origin = caller; owner = get_account d; caller = caller })
          block_timestamp
    elim checked [
      | ok app_hash ↦ call_contract d caller app_hash wm_fuel_limit height index block_timestamp
      | err error ↦ refused d caller height index error
    ]

  unfoldable pub handle_unit_transaction :
      String → TransactionData → ℕ → ℕ → ℕ → Run e HandleTransactionReturns
  handle_unit_transaction network_name d height index block_timestamp =
      if is_foreign (get_network d) network_name height
      then foreign_unit d height index
      else known_unit d height index block_timestamp
