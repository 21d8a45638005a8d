-- ===== src/Node/Execution/State.antt =====
-- wasm_service.rs: what an execution runs with, and its calls. A call takes the machine and the fork to a
-- result with both, or to an error, which the operator `?` passes on, or it panics. What other crates
-- serialize is in the parameter `Setting`.
use trinci.Base.{ℕ, Bool, Option, none, some, List, String}
use trinci.Base.Outcome.{Outcome, returns, panics}
use trinci.Base.Result.{Result}
use trinci.Crypto.Hash.{Hash}
use trinci.Node.Identity.{Identity}
use trinci.Node.Database.{Database, Indexes, Receipt}
use trinci.Node.Errors.{NodeError, WasmError}
use trinci.Node.Machine.{CallArgs, Called, CtxArgs, Forks, Wm}
use trinci.Node.Models.{Codec}
use trinci.Node.Validators.{ValidatorsCodec}
use trinci.Node.Transactions.{DataCodec, Transaction}

pub record BulkResult : Type 0 where
  pub success : Bool
  pub result : List ℕ
  pub burnt_wm_fuel : ℕ

pub record BurnFuelArgs : Type 0 where
  pub account : String
  pub fuel_to_burn : ℕ
  pub fuel_limit : ℕ

pub record HandleTransactionReturns : Type 0 where
  pub burn_fuel_args : BurnFuelArgs
  pub receipt : Receipt

module _ ⦃i : Identity⦄ where
  pub record Setting : Type 1 where
    pub indexes : Indexes
    pub forks : Forks indexes
    pub wm : Wm indexes forks
    pub codec : DataCodec
    pub hex : Hash → String
    pub utf8 : String → List ℕ
    -- Units of an asset, 0 for bytes that are not a number.
    pub units_of : List ℕ → ℕ
    -- The arguments of the burning of fuel, and what it returns: its success and the units.
    pub burn_args : String → ℕ → List ℕ
    pub burn_returns : List ℕ → Option (Bool × ℕ)
    pub rmp_results : List (String × BulkResult) → List ℕ
    pub rmp_slashed : String × Bool → List ℕ
    pub receipt_hash : Receipt → Hash
    pub block_codec : Codec
    -- `primary_hash` of a transaction with its signature.
    pub tx_primary_hash : Transaction → Hash
    pub validators : ValidatorsCodec

module _ ⦃i : Identity⦄ (e : Setting) where
  pub record World : Type 0 where
    pub machine : e.wm.State
    pub fork : e.forks.Fork

  pub data Reply (A : Type 0) : Type 0 where
    done : A → World → Reply A
    failed : NodeError → World → Reply A
    crashed : Reply A

  abbrev pub Run : Type 0 → Type 0
  Run A = World → Reply A

module _ ⦃i : Identity⦄ ⦃e : Setting⦄ where
  abbrev pub continue : {A B : Type 0} → Reply e A → (A → Run e B) → Reply e B
  continue (done a s) next = next a s
  continue (failed error s) next = failed error s
  continue crashed next = crashed

  infixl 5 ◌>>=◌
  unfoldable pub ◌>>=◌ : {A B : Type 0} → Run e A → (A → Run e B) → Run e B
  (m >>= next) s = continue (m s) next

  infixl 5 ◌>>◌
  abbrev pub ◌>>◌ : {A B : Type 0} → Run e A → Run e B → Run e B
  m >> next = m >>= λ _. next

  abbrev pub give : {A : Type 0} → A → Run e A
  give a s = done a s

  abbrev pub unreachable : {A : Type 0} → Run e A
  unreachable s = crashed

  -- A call that may panic, and one that may end in an error.
  abbrev pub lift : {A : Type 0} → Outcome A → Run e A
  lift (returns a) s = done a s
  lift panics s = crashed

  abbrev pub found : {A : Type 0} → Option A → NodeError → Run e A
  found none error s = failed error s
  found (some a) error s = done a s

  unfoldable pub reads : {A : Type 0} → (Database e.indexes → A) → Run e A
  reads f s = done (f (e.forks.view s.fork)) s

  unfoldable pub write : (Database e.indexes → Database e.indexes) → Run e Unit
  write f s = done tt (record s { fork = e.forks.write f s.fork })

  unfoldable pub flush : Run e Unit
  flush s = done tt (record s { fork = e.forks.flush s.fork })

  unfoldable pub rollback : Run e Unit
  rollback s = done tt (record s { fork = e.forks.rollback s.fork })

  abbrev after : {A : Type 0} → A × e.wm.State × e.forks.Fork → Reply e A
  after (a, m, f) = done a (record { machine = m; fork = f })

  unfoldable pub call : CallArgs e.indexes → Run e (Called e.indexes)
  call args s = after (e.wm.call args s.machine s.fork)

  unfoldable pub app_hash_check :
      Option Hash → CtxArgs e.indexes → ℕ → Run e (Result WasmError Hash)
  app_hash_check hash args time s = after (e.wm.app_hash_check hash args time s.machine s.fork)
