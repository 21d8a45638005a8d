-- ===== src/Node/Execution/Transactions.antt =====
-- wasm_service.rs: `call_burn_fuel`, `execute_transaction` and `execute_block_transactions`.
use trinci.Base.{
  ℕ, ◌+◌, ◌%◌, ◌^◌, Bool, true, false, not, ◌&&◌, ◌||◌, ◌==◌, ltb, Option, none, some, List, [],
  ◌∷◌, String, String_eq, if◌then◌else◌,
}
use trinci.Base.Result.{Result, ok, err}
use trinci.Crypto.Hash.{Hash}
use trinci.Node.Identity.{Identity}
use trinci.Node.Account.{Account}
use trinci.Node.Database.{Receipt, load_account, store_receipt}
use trinci.Node.Storage.{store_transaction}
use trinci.Node.Errors.{WasmError}
use trinci.Node.Fuel.{max_wm_fuel}
use trinci.Node.Integrity.{get_hash}
use trinci.Node.Transactions.{Transaction}
use trinci.Node.Execution.State.{
  BurnFuelArgs, HandleTransactionReturns, Run, Setting, ◌>>=◌, ◌>>◌, call, flush, give, reads,
  rollback, write,
}
use trinci.Node.Execution.Units.{handle_unit_transaction}
use trinci.Node.Execution.Roots.{handle_bulk_transaction}

abbrev pub service_account_id : String
service_account_id = "TRINCI"

module _ ⦃i : Identity⦄ ⦃e : Setting⦄ where
  unfoldable pub call_service : String → String → ℕ → ℕ → Hash → Run e (Result WasmError (List ℕ))
  call_service burn_fuel_method origin fuel block_timestamp service_app_hash = do
    called ← call (record {
      depth = 0;
      network = service_account_id;
      origin = service_account_id;
      owner = service_account_id;
      caller = service_account_id;
      contract = service_app_hash;
      method = burn_fuel_method;
      args = e.burn_args origin fuel;
      initial_fuel = max_wm_fuel;
      block_timestamp = block_timestamp;
    })
    give called.result

  abbrev pub by_contract : String → String → ℕ → ℕ → Option Hash → Run e (Result WasmError (List ℕ))
  by_contract burn_fuel_method origin fuel block_timestamp none =
      give (err (WasmError.account_fault "Service account has no contract"))
  by_contract burn_fuel_method origin fuel block_timestamp (some contract) =
      call_service burn_fuel_method origin fuel block_timestamp contract

  unfoldable pub burn_by :
      String → String → ℕ → ℕ → Option Account → Run e (Result WasmError (List ℕ))
  burn_by burn_fuel_method origin fuel block_timestamp none =
      give (err (WasmError.account_fault "Service account not found"))
  burn_by burn_fuel_method origin fuel block_timestamp (some account) =
      by_contract burn_fuel_method origin fuel block_timestamp account.contract

  unfoldable pub call_burn_fuel : String → String → ℕ → ℕ → Run e (Result WasmError (List ℕ))
  call_burn_fuel burn_fuel_method origin fuel block_timestamp = do
    account ← reads (λ db. load_account e.indexes db service_account_id)
    burn_by burn_fuel_method origin fuel block_timestamp account

  -- Nothing is called where no method is set.
  unfoldable pub burn : String → BurnFuelArgs → ℕ → Run e (Result WasmError (List ℕ))
  burn burn_fuel_method args block_timestamp =
      if burn_fuel_method == ""
      then give (ok [])
      else call_burn_fuel burn_fuel_method args.account args.fuel_to_burn block_timestamp

  -- The success of the burning, and the units that were burnt.
  abbrev pub read_returns : List ℕ → Option (Bool × ℕ) → Bool × ℕ
  read_returns bytes (some burnt) = burnt
  read_returns [] none = (true, 0)
  read_returns (byte ∷ bytes) none = (false, 0)

  abbrev pub burn_outcome : Result WasmError (List ℕ) → Bool × ℕ
  burn_outcome (ok bytes) = read_returns bytes (e.burn_returns bytes)
  burn_outcome (err error) = (false, 0)

  unfoldable pub handle_transaction :
      String → Transaction → ℕ → ℕ → ℕ → Run e HandleTransactionReturns
  handle_transaction network_name (Transaction.unit_transaction d s) height index block_timestamp =
      handle_unit_transaction network_name d height index block_timestamp
  handle_transaction network_name (Transaction.bulk_transaction d s) height index block_timestamp =
      handle_bulk_transaction network_name d height index block_timestamp

  unfoldable pub unpaid : ℕ → ℕ → HandleTransactionReturns → Run e Receipt
  unpaid height index res = do
    rollback
    give (record res.receipt {
      height = height;
      index = index;
      burned_fuel = 0;
      success = false;
      returns = e.utf8 "error burning fuel";
    })

  -- After the burning: a transaction whose fuel is not paid for fails.
  unfoldable pub charge : ℕ → ℕ → HandleTransactionReturns → Bool × ℕ → Run e Receipt
  charge height index res (burn_ok, burnt_units) =
      if ltb 0 height
        && (not burn_ok || ltb res.burn_fuel_args.fuel_limit res.burn_fuel_args.fuel_to_burn)
      then unpaid height index res
      else give (record res.receipt { burned_fuel = burnt_units })

  unfoldable pub execute_transaction : String → String → Transaction → ℕ → ℕ → ℕ → Run e Receipt
  execute_transaction network_name burn_fuel_method tx height index block_timestamp = do
    flush
    res ← handle_transaction network_name tx height index block_timestamp
    burnt ← burn burn_fuel_method res.burn_fuel_args block_timestamp
    charge height index res (burn_outcome burnt)

  -- The hashes of the receipts; `index` counts in 32 bits.
  unfoldable pub execute_block_transactions :
      String → String → List Transaction → ℕ → ℕ → ℕ → Run e (List Hash)
  execute_block_transactions network_name burn_fuel_method [] height index block_timestamp = give []
  execute_block_transactions network_name burn_fuel_method (tx ∷ txs) height index block_timestamp =
      do
        receipt ←
            execute_transaction network_name burn_fuel_method tx height (index % 2 ^ 32)
              block_timestamp
        let hash = get_hash e.codec tx
        write (store_transaction e.indexes e.codec hash tx)
        write (store_receipt e.indexes hash receipt)
        later ←
            execute_block_transactions network_name burn_fuel_method txs height (index + 1)
              block_timestamp
        give (e.receipt_hash receipt ∷ later)
