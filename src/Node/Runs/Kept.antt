-- ===== src/Node/Runs/Kept.antt =====
-- What a call of a contract leaves as it is: the law of the machine on which the execution of transactions builds.
use trinci.Base.{◌≡◌, String}
use trinci.Base.Outcome.{Outcome, returns, panics}
use trinci.Base.Result.{Result}
use trinci.Node.Identity.{Identity}
use trinci.Node.Errors.{WasmError}
use trinci.Node.Machine.{CallArgs}
use trinci.Node.Local.{WmLocal, get_module}
use trinci.Node.Execution.State.{Setting}
use trinci.Node.Host.{HostCodec}
use trinci.Node.Host.Isolated.{IsIsolated, IsKeyed}
use trinci.Node.Host.Guest.{GuestCodec}
use trinci.Node.Runs.{Runtime}

module _ ⦃i : Identity⦄ ⦃e : Setting⦄ where
  -- The fork after a call of the contract of `owner`; a panic ends the service.
  abbrev pub Keeps :
      {A : Type 0} → String → e.forks.Fork → Outcome (A × e.wm.State × e.forks.Fork) → Type 0
  Keeps owner f panics = Unit
  Keeps owner f (returns (result, m, f')) =
      IsIsolated owner (e.forks.view f) (e.forks.view f')
      × IsKeyed (e.forks.view f')
      × (e.forks.saved f' ≡ e.forks.saved f)

module _ ⦃i : Identity⦄ ⦃e : Setting⦄ (t : Runtime e) (g : GuestCodec e) (k : HostCodec)
    (a : CallArgs e.indexes) where
  -- What the cache gives for the contract of the call.
  abbrev pub fetched :
      e.wm.State → e.forks.Fork → Outcome (Result WasmError t.compiler.Module × WmLocal t.compiler)
  fetched m f =
      get_module t.compiler e.indexes e.hex (t.now m) (e.forks.view f) a.contract (t.cached m)
