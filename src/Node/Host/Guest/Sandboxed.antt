-- ===== src/Node/Host/Guest/Sandboxed.antt =====
-- The rules for calls of a contract that leave the host confined.
use trinci.Base.{
  sym, ◌≡◌, subst, ◌%◌, ◌^◌, length, length, ℕ, refl, ◌∙◌, Option, none, some, List, String,
}
use trinci.Base.Outcome.{Outcome, returns, panics}
use trinci.Base.Result.{Result, err, ok}
use trinci.Node.Identity.{Identity}
use trinci.Node.Errors.{WasmError}
use trinci.Node.Execution.State.{Setting}
use trinci.Node.Host.{Host, HostCodec, HostContext}
use trinci.Node.Host.Isolated.{IsKeyed, IsIsolated-trans}
use trinci.Node.Host.Confined.{
  perform_all-IsConfined, perform_all, HostOp, IsConfined, nothing, perform, perform-IsConfined,
}
use trinci.Node.Host.Guest.{
  lift, Alloc, Caller, Guest, GuestCodec, ◌>>=◌, continue, give, fail, or_fault, reads, memory_of,
  mem_from, slice_or_fault, slice_from, bytes_at, changes, written, written_in, allocated,
  return_by, return_buf,
}
use trinci.Node.Local.{wslice_create}
use trinci.Node.Host.Guest.Trampolines.{text_from, lossy_from, keys_output, drawn}

module _ ⦃i : Identity⦄ ⦃e : Setting⦄ (c : HostContext) (k : HostCodec) where
  pub IsConfined-trans :
      (a b d : Host e) → IsConfined c k a b → IsConfined c k b d → IsConfined c k a d
  IsConfined-trans a b d (isolated, keyed, saved) (isolated', keyed', saved') =
      (IsIsolated-trans c.owner _ _ _ isolated isolated', keyed', saved' ∙ saved)

  -- The host after the call is confined; a panic ends the service.
  abbrev pub Confines : {E A : Type 0} → Caller e → Outcome (Result E A × Caller e) → Type 0
  Confines s (returns (r, s')) = IsConfined c k s.host s'.host
  Confines s panics = Unit

  pub record Sandboxed {A : Type 0} (m : Guest e A) : Type 0 where
    pub at : (s : Caller e) → IsKeyed (e.forks.view s.host.db) → Confines s (m s)

  Confines-after :
      {A : Type 0} (s s' : Caller e) (r : Outcome (Result WasmError A × Caller e))
      → IsConfined c k s.host s'.host
      → Confines s' r
      → Confines s r
  Confines-after s s' (returns (q, s'')) h h' = IsConfined-trans s.host s'.host s''.host h h'
  Confines-after s s' panics h h' = tt

  continued :
      {A B : Type 0} (s : Caller e) (r : Outcome (Result WasmError A × Caller e))
      (next : A → Guest e B)
      → Confines s r
      → ((a : A) → Sandboxed (next a))
      → Confines s (continue r next)
  continued s (returns (ok a, s')) next h rest =
      Confines-after s s' (next a s') h ((rest a).at s' h.1)
  continued s (returns (err error, s')) next h rest = h
  continued s panics next h rest = tt

  pub bind-Sandboxed :
      {A B : Type 0} (m : Guest e A) (next : A → Guest e B)
      → Sandboxed m
      → ((a : A) → Sandboxed (next a))
      → Sandboxed (m >>= next)
  unfolding ◌>>=◌
  bind-Sandboxed m next h rest = record {
    at = λ s keyed. continued s (m s) next (h.at s keyed) rest;
  }

  pub give-Sandboxed : {A : Type 0} (a : A) → Sandboxed (give a)
  give-Sandboxed a = record { at = λ s keyed. nothing c k s.host s.host refl keyed }

  pub fail-Sandboxed : {A : Type 0} (error : WasmError) → Sandboxed (fail {A = A} error)
  fail-Sandboxed error = record { at = λ s keyed. nothing c k s.host s.host refl keyed }

  pub fault-Sandboxed : {A : Type 0} (r : Result String A) → Sandboxed (or_fault r)
  fault-Sandboxed (ok a) = give-Sandboxed a
  fault-Sandboxed (err text) = fail-Sandboxed (WasmError.wasm_machine_fault text)

  pub reads-Sandboxed : {A : Type 0} (f : Host e → A) → Sandboxed (reads f)
  reads-Sandboxed f = record { at = λ s keyed. nothing c k s.host s.host refl keyed }

  memory-Sandboxed : (o : Option (List ℕ)) → Sandboxed (memory_of o)
  memory-Sandboxed none = fail-Sandboxed _
  memory-Sandboxed (some mem) = give-Sandboxed mem

  pub mem_from-Sandboxed : Sandboxed mem_from
  unfolding mem_from
  mem_from-Sandboxed = record { at = λ s keyed. (memory-Sandboxed s.memory).at s keyed }

  bytes-Sandboxed : (o : Option (List ℕ)) → Sandboxed (slice_or_fault o)
  bytes-Sandboxed none = fail-Sandboxed _
  bytes-Sandboxed (some bytes) = give-Sandboxed bytes

  pub slice_from-Sandboxed :
      (mem : List ℕ) (offset size : ℕ) → Sandboxed (slice_from mem offset size)
  unfolding slice_from
  slice_from-Sandboxed mem offset size = bytes-Sandboxed (bytes_at mem offset size)

  pub changes-Sandboxed : (op : HostOp) → Sandboxed (changes (perform c k op))
  changes-Sandboxed op = record { at = λ s keyed. perform-IsConfined c k op s.host keyed }

  pub lift-Sandboxed : {A : Type 0} (o : Outcome A) → Sandboxed (lift o)
  lift-Sandboxed (returns a) = give-Sandboxed a
  lift-Sandboxed panics = record { at = λ s keyed. tt }

  abbrev pub AllocIsConfined : Alloc e → Type 0
  AllocIsConfined Alloc.missing = Unit
  AllocIsConfined Alloc.mistyped = Unit
  AllocIsConfined (Alloc.function alloc) =
      (size : ℕ) (s : Caller e)
      → IsKeyed (e.forks.view s.host.db)
      → IsConfined c k s.host (alloc size s).1.host

  -- The `alloc` of the contract changes the host by functions of the host that change something, as often as it
  -- calls them.
  abbrev pub AllocPerforms : Alloc e → Type 0
  AllocPerforms Alloc.missing = Unit
  AllocPerforms Alloc.mistyped = Unit
  AllocPerforms (Alloc.function alloc) =
      (size : ℕ) (s : Caller e)
      → (ops : List HostOp) × ((alloc size s).1.host ≡ perform_all c k ops s.host)

  pub AllocPerforms-IsConfined : (a : Alloc e) → AllocPerforms a → AllocIsConfined a
  AllocPerforms-IsConfined Alloc.missing h = tt
  AllocPerforms-IsConfined Alloc.mistyped h = tt
  AllocPerforms-IsConfined (Alloc.function alloc) h = λ size s keyed.
      let (ops, done) = h size s in
      subst (IsConfined c k s.host) (sym done) (perform_all-IsConfined c k ops s.host keyed)

  module _ (g : GuestCodec e) (confined : AllocIsConfined g.alloc) where
    written-Confines :
        (s s' : Caller e) (offset : ℕ) (buf : List ℕ) (o : Option (List ℕ))
        → IsConfined c k s.host s'.host
        → Confines s (written offset buf s' o)
    unfolding wslice_create
    written-Confines s s' offset buf none h = h
    written-Confines s s' offset buf (some mem) h = h

    written_in-Confines :
        (s s' : Caller e) (offset : ℕ) (buf : List ℕ) (o : Option (List ℕ))
        → IsConfined c k s.host s'.host
        → Confines s (written_in g offset buf s' o)
    written_in-Confines s s' offset buf none h = h
    written_in-Confines s s' offset buf (some mem) h = written-Confines s s' offset buf _ h

    allocated-Confines :
        (s : Caller e) (buf : List ℕ) (r : Option ℕ × Caller e)
        → IsConfined c k s.host r.1.host
        → Confines s (allocated g buf r)
    allocated-Confines s buf (none, s') h = h
    allocated-Confines s buf (some offset, s') h = written_in-Confines s s' offset buf s'.memory h

    return_by-Sandboxed :
        (buf : List ℕ) (alloc : Alloc e) → AllocIsConfined alloc → Sandboxed (return_by g buf alloc)
    return_by-Sandboxed buf Alloc.missing h = fail-Sandboxed _
    return_by-Sandboxed buf Alloc.mistyped h = fail-Sandboxed _
    return_by-Sandboxed buf (Alloc.function alloc) h = record {
      at = λ s keyed. allocated-Confines s buf (alloc (length buf % 2 ^ 32) s) (h _ s keyed);
    }

    pub return_buf-Sandboxed : (buf : List ℕ) → Sandboxed (return_buf g buf)
    unfolding return_buf
    return_buf-Sandboxed buf = return_by-Sandboxed buf g.alloc confined

    pub text_from-Sandboxed :
        (mem : List ℕ) (offset size : ℕ) → Sandboxed (text_from g c k mem offset size)
    text_from-Sandboxed mem offset size =
        bind-Sandboxed _ _ (slice_from-Sandboxed mem offset size)
          (λ buf. fault-Sandboxed (g.from_utf8 buf))

    pub lossy_from-Sandboxed :
        (mem : List ℕ) (offset size : ℕ) → Sandboxed (lossy_from g c k mem offset size)
    lossy_from-Sandboxed mem offset size =
        bind-Sandboxed _ _ (slice_from-Sandboxed mem offset size)
          (λ buf. give-Sandboxed (g.from_utf8_lossy buf))

    pub keys_output-Sandboxed : (o : Option String) → Sandboxed (keys_output g c k o)
    keys_output-Sandboxed none = give-Sandboxed _
    keys_output-Sandboxed (some prefix) = reads-Sandboxed _

    pub drawn-Sandboxed : (o : Option ℕ) → Sandboxed (drawn g c k o)
    drawn-Sandboxed none = fail-Sandboxed _
    drawn-Sandboxed (some number) = give-Sandboxed number
