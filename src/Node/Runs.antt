-- ===== src/Node/Runs.antt =====
-- trinci-node/src/services/wm/local.rs: `call` and `callable_call` of `WmLocal`, which run a contract in an instance
-- of wasmtime. The instance is that of the parameter `Runtime`, with the texts of its errors.
pub mod Instances
pub mod Calls
pub mod Yields
pub mod Steps
pub mod Contained
pub mod Kept
pub mod Hashed
use trinci.Base.{
  ℕ, ◌%◌, ◌^◌, ◌==◌, Bool, true, false, String_eq, Option, none, some, List, [], ◌∷◌, String,
  if◌then◌else◌, length,
}
use trinci.Base.Outcome.{Outcome, returns, panics}
use trinci.Base.Result.{Result, err, ok}
use trinci.Base.Words.{wrapping_sub}
use trinci.Crypto.Hash.{Hash}
use trinci.Node.Identity.{Identity}
use trinci.Node.Account.{Account}
use trinci.Node.Database.{load_account, store_account, SmartContractEvent}
use trinci.Node.Errors.{WasmError}
use trinci.Node.Machine.{CallArgs, Called}
use trinci.Node.Local.{sign_extended, wslice_split, Compiler, WmLocal, get_module}
use trinci.Node.Execution.State.{Setting}
use trinci.Node.Host.{Host, HostContext}
use trinci.Node.Host.Guest.{Caller, Guest, ◌>>=◌, ◌>>◌, give, fail, or_fault, reads, bytes_at}

pub record AppInput : Type 0 where
  pub depth : ℕ
  pub network : String
  pub owner : String
  pub caller : String
  pub method : String
  pub origin : String

pub record AppOutput : Type 0 where
  pub success : Bool
  pub data_ : List ℕ

-- The functions that a contract can import.
pub data HostFunction : Type 0 where
  log emit load_data store_data remove_data is_callable load_asset store_asset remove_asset :
      HostFunction
  get_account_contract get_keys call s_call verify sha256 drand get_block_time : HostFunction

abbrev functions : List (String × HostFunction)
functions =
    ("hf_log", HostFunction.log)
    ∷ ("hf_emit", HostFunction.emit)
    ∷ ("hf_load_data", HostFunction.load_data)
    ∷ ("hf_store_data", HostFunction.store_data)
    ∷ ("hf_remove_data", HostFunction.remove_data)
    ∷ ("hf_is_callable", HostFunction.is_callable)
    ∷ ("hf_load_asset", HostFunction.load_asset)
    ∷ ("hf_store_asset", HostFunction.store_asset)
    ∷ ("hf_remove_asset", HostFunction.remove_asset)
    ∷ ("hf_get_account_contract", HostFunction.get_account_contract)
    ∷ ("hf_get_keys", HostFunction.get_keys)
    ∷ ("hf_call", HostFunction.call)
    ∷ ("hf_s_call", HostFunction.s_call)
    ∷ ("hf_verify", HostFunction.verify)
    ∷ ("hf_sha256", HostFunction.sha256)
    ∷ ("hf_drand", HostFunction.drand)
    ∷ ("hf_get_block_time", HostFunction.get_block_time)
    ∷ []

unfoldable pub function_named : String → List (String × HostFunction) → Option HostFunction
function_named name [] = none
function_named name ((other, func) ∷ rest) =
    if name == other then some func else function_named name rest

-- The functions of the imports, in their order.
unfoldable pub host_functions_register :
    ⦃i : Identity⦄ → List String → Result WasmError (List HostFunction)
unfolding function_named
host_functions_register [] = ok []
host_functions_register (name ∷ names) = elim (function_named name functions) [
  | none ↦ err (WasmError.not_implemented "host function import not found")
  | some func ↦ elim (host_functions_register names) [
    | ok funcs ↦ ok (func ∷ funcs)
    | err error ↦ err error
  ]
]

-- The text of an error of the instance, and that of the trap, where it is one.
pub record Failure : Type 0 where
  pub text : String
  pub trap : Option String

module _ ⦃i : Identity⦄ (e : Setting) where
  -- A call into the instance.
  abbrev pub Export : Type 0 → Type 0
  Export A = Caller e → Outcome (Result Failure A × Caller e)

  -- The functions that the instance exports, or why one has not got the type that is asked for.
  pub record Instance : Type 0 where
    pub alloc : Result String (ℕ → Export ℕ)
    pub run : Result String (ℕ → ℕ → ℕ → ℕ → Export ℕ)
    pub is_callable : Result String (ℕ → ℕ → ℕ → ℕ → Export ℕ)

  pub record Runtime : Type 1 where
    pub compiler : Compiler
    -- The cache within the state of the machine, and the clock.
    pub cached : e.wm.State → WmLocal compiler
    pub with_cache : WmLocal compiler → e.wm.State → e.wm.State
    pub now : e.wm.State → ℕ
    pub imports : compiler.Module → List String
    pub instantiate : HostContext → compiler.Module → List HostFunction → Export Instance
    -- `Memory::write` of bytes at an address.
    pub write : List ℕ → ℕ → List ℕ → Result String (List ℕ)
    pub rmp_input : AppInput → Result String (List ℕ)
    pub rmp_output : List ℕ → Result String AppOutput
    pub from_utf8_lossy : List ℕ → String
    -- `str::replace` of a text by another one.
    pub replace : String → String → String → String

module _ ⦃i : Identity⦄ ⦃e : Setting⦄ where
  abbrev pub tagged :
      {A : Type 0}
      → (Failure → WasmError)
      → Outcome (Result Failure A × Caller e)
      → Outcome (Result WasmError A × Caller e)
  tagged tag (returns (ok a, s)) = returns (ok a, s)
  tagged tag (returns (err failure, s)) = returns (err (tag failure), s)
  tagged tag panics = panics

  abbrev pub traps_as : {A : Type 0} → (Failure → WasmError) → Export e A → Guest e A
  traps_as tag m s = tagged tag (m s)

  abbrev pub machine_fault : Failure → WasmError
  machine_fault failure = WasmError.wasm_machine_fault failure.text

  abbrev pub contract_fault : Failure → WasmError
  contract_fault failure = WasmError.smart_contract_fault failure.text

  abbrev pub or_error : {A : Type 0} → Result WasmError A → Guest e A
  or_error (ok a) = give a
  or_error (err error) = fail error

  abbrev pub or_not_found : {A : Type 0} → Result String A → Guest e A
  or_not_found (ok a) = give a
  or_not_found (err text) = fail (WasmError.resource_not_found text)

  abbrev pub exported_memory : String → Option (List ℕ) → Guest e Unit
  exported_memory text none = fail (WasmError.resource_not_found text)
  exported_memory text (some mem) = give tt

  -- The memory that was found stays.
  abbrev pub memory_data : Option (List ℕ) → List ℕ
  memory_data none = []
  memory_data (some mem) = mem

  abbrev pub stored_in :
      Caller e → Result String (List ℕ) → Outcome (Result WasmError Unit × Caller e)
  stored_in s (ok mem) = returns (ok tt, record s { memory = some mem })
  stored_in s (err text) = returns (err (WasmError.wasm_machine_fault text), s)

  -- The account gets the hash of its data.
  abbrev pub rehashed : Account → Host e → Host e
  rehashed account h = record h {
    db =
        e.forks.write
          (store_account e.indexes (record account {
            data_hash = some (e.forks.state_hash (e.forks.view h.db) account.id);
          }))
          h.db;
  }

  abbrev pub rehash : Option Account → Guest e Unit
  rehash none s = fail (WasmError.wasm_machine_fault "inconsistent state") s
  rehash (some account) s = returns (ok tt, record s { host = rehashed account s.host })

  -- The machine, for the calls of other contracts.
  abbrev pub lend : e.wm.State → Guest e Unit
  lend m s = returns (ok tt, record s { host = record s.host { wm = some m } })

  abbrev pub slice_of : Option (List ℕ) → Guest e (List ℕ)
  slice_of none = fail (WasmError.wasm_machine_fault "out of bounds memory access")
  slice_of (some buf) = give buf
