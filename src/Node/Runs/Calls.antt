-- ===== src/Node/Runs/Calls.antt =====
-- trinci-node/src/services/wm/local.rs: `WmLocal::call` and `WmLocal::callable_call`, from the module in the cache to
-- the fuel and the result.
use trinci.Base.{ℕ, false, Option, none, some, List, []}
use trinci.Base.Outcome.{Outcome, returns, panics}
use trinci.Base.Result.{Result, err, ok}
use trinci.Base.Words.{wrapping_sub}
use trinci.Node.Identity.{Identity}
use trinci.Node.Database.{SmartContractEvent}
use trinci.Node.Errors.{WasmError}
use trinci.Node.Machine.{CallArgs, Called}
use trinci.Node.Local.{WmLocal, get_module}
use trinci.Node.Execution.State.{Setting}
use trinci.Node.Host.{HostContext}
use trinci.Node.Host.Guest.{Caller}
use trinci.Node.Runs.{AppInput, Runtime}
use trinci.Node.Runs.Instances.{run_contract, ask_contract}

module _ ⦃i : Identity⦄ ⦃e : Setting⦄ where
  abbrev pub context_of : CallArgs e.indexes → HostContext
  context_of a = record {
    owner = a.owner;
    depth = a.depth;
    network = a.network;
    origin = a.origin;
    initial_fuel = a.initial_fuel;
    block_timestamp = a.block_timestamp;
    method = a.method;
  }

  abbrev pub input_of : CallArgs e.indexes → AppInput
  input_of a = record {
    depth = a.depth;
    network = a.network;
    owner = a.owner;
    caller = a.caller;
    method = a.method;
    origin = a.origin;
  }

  abbrev pub asking_of : CallArgs e.indexes → AppInput
  asking_of a = record (input_of a) { method = "is_callable" }

  -- The store before the instance is made: nested calls are not possible yet.
  abbrev pub new_store : CallArgs e.indexes → e.forks.Fork → Caller e
  new_store a f = record {
    memory = none;
    fuel = a.initial_fuel;
    host = record { wm = none; db = f; data_updated = false; events = [] };
  }

  abbrev pub machine_after : e.wm.State → Option e.wm.State → e.wm.State
  machine_after m none = m
  machine_after m (some m') = m'

  -- Whatever the result is, the fuel is what the store has less.
  abbrev pub closed :
      CallArgs e.indexes
      → e.wm.State
      → Outcome (Result WasmError (List ℕ) × Caller e)
      → Outcome (Called e.indexes × e.wm.State × e.forks.Fork)
  closed a m (returns (result, s)) = returns (
    record {
      burnt_wm_fuel = wrapping_sub a.initial_fuel s.fuel;
      result = result;
      events = s.host.events;
    },
    machine_after m s.host.wm,
    s.host.db,
  )
  closed a m panics = panics

  -- The fuel of an error is not told.
  abbrev pub told : CallArgs e.indexes → Result WasmError ℕ → Caller e → ℕ
  told a (ok answer) s = wrapping_sub a.initial_fuel s.fuel
  told a (err error) s = 0

  abbrev pub closed_callable :
      CallArgs e.indexes
      → e.wm.State
      → Outcome (Result WasmError ℕ × Caller e)
      → Outcome ((ℕ × Result WasmError ℕ × List SmartContractEvent) × e.wm.State × e.forks.Fork)
  closed_callable a m (returns (result, s)) =
      returns ((told a result s, result, s.host.events), machine_after m s.host.wm, s.host.db)
  closed_callable a m panics = panics

module _ ⦃i : Identity⦄ ⦃e : Setting⦄ (t : Runtime e) where
  abbrev pub after_module :
      CallArgs e.indexes
      → e.wm.State
      → e.forks.Fork
      → Outcome (Result WasmError t.compiler.Module × WmLocal t.compiler)
      → Outcome (Called e.indexes × e.wm.State × e.forks.Fork)
  after_module a m f panics = panics
  after_module a m f (returns (err error, cache)) =
      returns
        (record { burnt_wm_fuel = 0; result = err error; events = [] }, t.with_cache cache m, f)
  after_module a m f (returns (ok code, cache)) =
      let m' = t.with_cache cache m in
      closed a m' (run_contract t (context_of a) (input_of a) a.args code m' (new_store a f))

  unfoldable pub call :
      CallArgs e.indexes
      → e.wm.State
      → e.forks.Fork
      → Outcome (Called e.indexes × e.wm.State × e.forks.Fork)
  unfolding get_module run_contract
  call a m f =
      after_module a m f
        (get_module t.compiler e.indexes e.hex (t.now m) (e.forks.view f) a.contract (t.cached m))

  abbrev pub callable_after :
      CallArgs e.indexes
      → e.wm.State
      → e.forks.Fork
      → Outcome (Result WasmError t.compiler.Module × WmLocal t.compiler)
      → Outcome ((ℕ × Result WasmError ℕ × List SmartContractEvent) × e.wm.State × e.forks.Fork)
  callable_after a m f panics = panics
  callable_after a m f (returns (err error, cache)) =
      returns ((0, err error, []), t.with_cache cache m, f)
  callable_after a m f (returns (ok code, cache)) =
      let m' = t.with_cache cache m in
      closed_callable a m'
        (ask_contract t (context_of a) (asking_of a) a.args code m' (new_store a f))

  unfoldable pub callable_call :
      CallArgs e.indexes
      → e.wm.State
      → e.forks.Fork
      → Outcome ((ℕ × Result WasmError ℕ × List SmartContractEvent) × e.wm.State × e.forks.Fork)
  unfolding get_module ask_contract
  callable_call a m f =
      callable_after a m f
        (get_module t.compiler e.indexes e.hex (t.now m) (e.forks.view f) a.contract (t.cached m))
