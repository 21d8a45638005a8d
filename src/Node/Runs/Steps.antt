-- ===== src/Node/Runs/Steps.antt =====
-- The steps of an instance of wasmtime, which changes its own memory and fuel, and the host through the linked
-- functions only.
use trinci.Base.{ℕ, ◌≡◌, ap, subst, List, String}
use trinci.Base.Outcome.{Outcome, returns, panics}
use trinci.Base.Result.{Result, err, ok}
use trinci.Node.Identity.{Identity}
use trinci.Node.Errors.{WasmError}
use trinci.Node.Execution.State.{Setting}
use trinci.Node.Host.{HostCodec, HostContext}
use trinci.Node.Host.Isolated.{IsKeyed}
use trinci.Node.Host.Confined.{IsConfined, nothing}
use trinci.Node.Host.Guest.{Caller, GuestCodec}
use trinci.Node.Host.Guest.Sandboxed.{AllocIsConfined, Confines, IsConfined-trans, Sandboxed}
use trinci.Node.Host.Guest.Contained.{GuestCall, invoke, invoke-Sandboxed}
use trinci.Node.Runs.{Export, Failure, HostFunction, Instance, Runtime, tagged, traps_as}
use trinci.Node.Runs.Yields.{Gives}

module _ ⦃i : Identity⦄ ⦃e : Setting⦄ (g : GuestCodec e) (c : HostContext) (k : HostCodec) where
  -- The steps of an instance: it computes, or calls a linked function.
  pub data Runs : Caller e → Caller e → Type 0 where
    computes : (s s' : Caller e) → s'.host ≡ s.host → Runs s s'
    invokes :
        (x : GuestCall) (s s' : Caller e) (r : Result WasmError Unit)
        → invoke g c k x s ≡ returns (r, s')
        → Runs s s'
    followed : (s s' s'' : Caller e) → Runs s s' → Runs s' s'' → Runs s s''

  abbrev pub RunsTo : {A : Type 0} → Caller e → Outcome (Result Failure A × Caller e) → Type 0
  RunsTo s (returns (r, s')) = Runs s s'
  RunsTo s panics = Unit

  abbrev pub EachRuns : {A : Type 0} → Result String (ℕ → ℕ → ℕ → ℕ → Export e A) → Type 0
  EachRuns (err text) = Unit
  EachRuns (ok f) = (p q x y : ℕ) (s : Caller e) → RunsTo s (f p q x y s)

  abbrev pub AllocRuns : Result String (ℕ → Export e ℕ) → Type 0
  AllocRuns (err text) = Unit
  AllocRuns (ok f) = (n : ℕ) (s : Caller e) → RunsTo s (f n s)

  pub record IsGuest (x : Instance e) : Type 0 where
    pub alloc_runs : AllocRuns x.alloc
    pub run_runs : EachRuns x.run
    pub is_callable_runs : EachRuns x.is_callable

  abbrev pub Starts : Caller e → Outcome (Result Failure (Instance e) × Caller e) → Type 0
  Starts s (returns (ok x, s')) = Runs s s' × IsGuest x
  Starts s (returns (err failure, s')) = Runs s s'
  Starts s panics = Unit

  -- What an instance of the module does.
  pub record RunsGuest (t : Runtime e) (code : t.compiler.Module) : Type 0 where
    pub starts :
        (funcs : List HostFunction) (s : Caller e) → Starts s (t.instantiate c code funcs s)

  module _ (confined : AllocIsConfined c k g.alloc) where
    invoked :
        (s : Caller e) (o : Outcome (Result WasmError Unit × Caller e)) (s' : Caller e)
        (r : Result WasmError Unit)
        → o ≡ returns (r, s')
        → Confines c k s o
        → IsConfined c k s.host s'.host
    invoked s o s' r done h = subst (Confines c k s) done h

    Runs-IsConfined :
        (s s' : Caller e)
        → Runs s s'
        → IsKeyed (e.forks.view s.host.db)
        → IsConfined c k s.host s'.host
    Runs-IsConfined s s' (computes _ _ same) keyed =
        nothing c k s.host s'.host (ap (λ h. h.db) same) keyed
    Runs-IsConfined s s' (invokes x _ _ r done) keyed =
        invoked s (invoke g c k x s) s' r done ((invoke-Sandboxed g c k confined x).at s keyed)
    Runs-IsConfined s s'' (followed _ s' _ first rest) keyed =
        let h = Runs-IsConfined s s' first keyed in
        IsConfined-trans c k s.host s'.host s''.host h (Runs-IsConfined s' s'' rest h.1)

    -- An error of the instance is one of the machine.
    tagged-Confines :
        {A : Type 0} (tag : Failure → WasmError) (s : Caller e)
        (r : Outcome (Result Failure A × Caller e))
        → IsKeyed (e.forks.view s.host.db)
        → RunsTo s r
        → Confines c k s (tagged tag r)
    tagged-Confines tag s (returns (ok a, s')) keyed h = Runs-IsConfined s s' h keyed
    tagged-Confines tag s (returns (err failure, s')) keyed h = Runs-IsConfined s s' h keyed
    tagged-Confines tag s panics keyed h = tt

    pub traps_as-Sandboxed :
        {A : Type 0} (tag : Failure → WasmError) (m : Export e A)
        → ((s : Caller e) → RunsTo s (m s))
        → Sandboxed c k (traps_as tag m)
    traps_as-Sandboxed tag m h = record { at = λ s keyed. tagged-Confines tag s (m s) keyed (h s) }

    pub started :
        (tag : Failure → WasmError) (s : Caller e)
        (r : Outcome (Result Failure (Instance e) × Caller e))
        → IsKeyed (e.forks.view s.host.db)
        → Starts s r
        → Gives c k IsGuest s (tagged tag r)
    started tag s (returns (ok x, s')) keyed (h, guest) = (Runs-IsConfined s s' h keyed, guest)
    started tag s (returns (err failure, s')) keyed h = Runs-IsConfined s s' h keyed
    started tag s panics keyed h = tt
