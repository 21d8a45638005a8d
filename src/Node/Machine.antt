-- ===== src/Node/Machine.antt =====
-- trinci-node/src/artifacts/db.rs (`DbFork`), and trinci-node/src/services/wm/wasm_machine.rs (`Wm`). A fork is
-- that of the crate merkledb, which is the parameter `Forks`: it reads as a database, and it has a
-- checkpoint, the database that it reads as after a rollback. The machine is the parameter `Wm`.
use trinci.Base.{ℕ, ◌≡◌, Option, some, List, String}
use trinci.Base.Result.{Result}
use trinci.Crypto.Hash.{Hash}
use trinci.Node.Identity.{Identity}
use trinci.Node.Database.{Database, Indexes, SmartContractEvent}
use trinci.Node.Errors.{WasmError}

module _ ⦃i : Identity⦄ (x : Indexes) where
  pub record Forks : Type 1 where
    pub Fork : Type 0
    pub create : Database x → Fork
    pub view : Fork → Database x
    pub saved : Fork → Database x
    -- A write through the indexes.
    pub write : (Database x → Database x) → Fork → Fork
    pub flush : Fork → Fork
    pub rollback : Fork → Fork
    -- `none` stands for the error of the crate.
    pub merge : Fork → Database x → Option (Database x)
    -- `object_hash` of the accounts or of the data of an account, and of a list.
    pub state_hash : Database x → String → Hash
    pub root : x.Vec Hash → Hash
    pub view-create : (db : Database x) → view (create db) ≡ db
    pub view-write : (f : Database x → Database x) (k : Fork) → view (write f k) ≡ f (view k)
    pub saved-write : (f : Database x → Database x) (k : Fork) → saved (write f k) ≡ saved k
    pub view-flush : (k : Fork) → view (flush k) ≡ view k
    pub saved-flush : (k : Fork) → saved (flush k) ≡ view k
    pub view-rollback : (k : Fork) → view (rollback k) ≡ saved k
    pub saved-rollback : (k : Fork) → saved (rollback k) ≡ saved k
    -- Where a fork that was made from a database is merged into it, it reads as the fork.
    pub merge-view : (k : Fork) (db db' : Database x) → merge k db ≡ some db' → db' ≡ view k

  -- The arguments of `call` but the fork, the events and the channel of the DRand service.
  pub record CallArgs : Type 0 where
    pub depth : ℕ
    pub network : String
    pub origin : String
    pub owner : String
    pub caller : String
    pub contract : Hash
    pub method : String
    pub args : List ℕ
    pub initial_fuel : ℕ
    pub block_timestamp : ℕ

  pub record CtxArgs : Type 0 where
    pub origin : String
    pub owner : String
    pub caller : String

  -- What a call gives: the fuel that it burnt, its result, the events that it emitted.
  pub record Called : Type 0 where
    pub burnt_wm_fuel : ℕ
    pub result : Result WasmError (List ℕ)
    pub events : List SmartContractEvent

  -- The state holds the modules in the cache, and what the machine is told from outside. A machine has
  -- the reads and writes of a fork only: it makes no checkpoint and rolls nothing back.
  pub record Wm (k : Forks) : Type 1 where
    pub State : Type 0
    pub call : CallArgs → State → k.Fork → Called × State × k.Fork
    pub app_hash_check :
        Option Hash → CtxArgs → ℕ → State → k.Fork → Result WasmError Hash × State × k.Fork
    -- The `is_callable` of a contract; its answer is a 32-bit number.
    pub callable_call :
        CallArgs
        → State
        → k.Fork
        → (ℕ × Result WasmError ℕ × List SmartContractEvent) × State × k.Fork
    pub saved-call : (a : CallArgs) (m : State) (f : k.Fork) → k.saved (call a m f).2 ≡ k.saved f
    pub saved-check :
        (h : Option Hash) (a : CtxArgs) (time : ℕ) (m : State) (f : k.Fork)
        → k.saved (app_hash_check h a time m f).2 ≡ k.saved f
