-- ===== src/Node/Runs/Yields.antt =====
-- Calls that leave the host confined, with what holds of what they give.
use trinci.Base.{refl}
use trinci.Base.Outcome.{Outcome, returns, panics}
use trinci.Base.Result.{Result, err, ok}
use trinci.Node.Identity.{Identity}
use trinci.Node.Errors.{WasmError}
use trinci.Node.Execution.State.{Setting}
use trinci.Node.Host.{HostCodec, HostContext}
use trinci.Node.Host.Isolated.{IsKeyed}
use trinci.Node.Host.Confined.{IsConfined, nothing}
use trinci.Node.Host.Guest.{Caller, Guest, ◌>>=◌, continue, fail, give}
use trinci.Node.Host.Guest.Sandboxed.{Confines, IsConfined-trans, Sandboxed}

module _ ⦃i : Identity⦄ ⦃e : Setting⦄ (c : HostContext) (k : HostCodec) where
  abbrev pub Gives :
      {E A : Type 0} → (A → Type 0) → Caller e → Outcome (Result E A × Caller e) → Type 0
  Gives P s (returns (ok a, s')) = IsConfined c k s.host s'.host × P a
  Gives P s (returns (err error, s')) = IsConfined c k s.host s'.host
  Gives P s panics = Unit

  pub record Yields {A : Type 0} (P : A → Type 0) (m : Guest e A) : Type 0 where
    pub at : (s : Caller e) → IsKeyed (e.forks.view s.host.db) → Gives P s (m s)

  Gives-after :
      {A : Type 0} (P : A → Type 0) (s s' : Caller e) (r : Outcome (Result WasmError A × Caller e))
      → IsConfined c k s.host s'.host
      → Gives P s' r
      → Gives P s r
  Gives-after P s s' (returns (ok a, s'')) h (h', p) =
      (IsConfined-trans c k s.host s'.host s''.host h h', p)
  Gives-after P s s' (returns (err error, s'')) h h' =
      IsConfined-trans c k s.host s'.host s''.host h h'
  Gives-after P s s' panics h h' = tt

  continued :
      {A B : Type 0} (P : A → Type 0) (Q : B → Type 0) (s : Caller e)
      (r : Outcome (Result WasmError A × Caller e)) (next : A → Guest e B)
      → Gives P s r
      → ((a : A) → P a → Yields Q (next a))
      → Gives Q s (continue r next)
  continued P Q s (returns (ok a, s')) next (h, p) rest =
      Gives-after Q s s' (next a s') h ((rest a p).at s' h.1)
  continued P Q s (returns (err error, s')) next h rest = h
  continued P Q s panics next h rest = tt

  pub bind-Yields :
      {A B : Type 0} (P : A → Type 0) (Q : B → Type 0) (m : Guest e A) (next : A → Guest e B)
      → Yields P m
      → ((a : A) → P a → Yields Q (next a))
      → Yields Q (m >>= next)
  unfolding ◌>>=◌
  bind-Yields P Q m next h rest = record {
    at = λ s keyed. continued P Q s (m s) next (h.at s keyed) rest;
  }

  pub give-Yields : {A : Type 0} (P : A → Type 0) (a : A) → P a → Yields P (give a)
  give-Yields P a p = record { at = λ s keyed. (nothing c k s.host s.host refl keyed, p) }

  pub fail-Yields :
      {A : Type 0} (P : A → Type 0) (error : WasmError) → Yields P (fail {A = A} error)
  fail-Yields P error = record { at = λ s keyed. nothing c k s.host s.host refl keyed }

  Confines-Gives :
      {A : Type 0} (s : Caller e) (r : Outcome (Result WasmError A × Caller e))
      → Confines c k s r
      → Gives (λ a. Unit) s r
  Confines-Gives s (returns (ok a, s')) h = (h, tt)
  Confines-Gives s (returns (err error, s')) h = h
  Confines-Gives s panics h = tt

  pub Sandboxed-Yields : {A : Type 0} (m : Guest e A) → Sandboxed c k m → Yields (λ a. Unit) m
  Sandboxed-Yields m h = record { at = λ s keyed. Confines-Gives s (m s) (h.at s keyed) }

  Gives-Confines :
      {E A : Type 0} (P : A → Type 0) (s : Caller e) (r : Outcome (Result E A × Caller e))
      → Gives P s r
      → Confines c k s r
  Gives-Confines P s (returns (ok a, s')) h = h.0
  Gives-Confines P s (returns (err error, s')) h = h
  Gives-Confines P s panics h = tt

  pub Yields-Sandboxed :
      {A : Type 0} (P : A → Type 0) (m : Guest e A) → Yields P m → Sandboxed c k m
  Yields-Sandboxed P m h = record { at = λ s keyed. Gives-Confines P s (m s) (h.at s keyed) }
