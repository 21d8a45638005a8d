-- ===== src/Node/Host/Guest.antt =====
-- trinci-node/src/services/wm/local.rs: the functions that are linked into a contract. Each reads its arguments from the
-- memory of the contract, does what the function of the host does, and writes its answer into the memory.
-- The contract's own `alloc` is a parameter, and so are the write into a memory of wasmtime and the conversions of the
-- standard library and serde.
pub mod Slice
pub mod Trampolines
pub mod Sandboxed
pub mod Contained
use trinci.Base.{
  ℕ, suc, ◌+◌, ◌-◌, ◌%◌, ◌^◌, Bool, true, false, ◌&&◌, leb, Option, none, some, List, [], ◌∷◌, ◌++◌,
  String, if◌then◌else◌, drop, length, take,
}
use trinci.Base.Outcome.{Outcome, returns, panics}
use trinci.Base.Result.{Result, err, ok}
use trinci.Crypto.Hash.{CryptoError}
use trinci.Node.Identity.{Identity}
use trinci.Node.Errors.{WasmError}
use trinci.Node.Execution.State.{Setting}
use trinci.Node.Host.{Host}
use trinci.Node.Local.{sign_extended, wslice_create}

-- The bytes from `offset` on, where they are in the memory; `as usize` extends the signs, and the sum wraps.
unfoldable pub bytes_at : List ℕ → ℕ → ℕ → Option (List ℕ)
unfolding sign_extended
bytes_at mem offset size =
    let start = sign_extended offset in
    let stop = (start + sign_extended size) % 2 ^ 64 in
    if leb start stop && leb stop (length mem)
    then some (take (stop - start) (drop start mem))
    else none

module _ ⦃i : Identity⦄ (e : Setting) where
  -- What a function sees of the contract that calls it.
  pub record Caller : Type 0 where
    pub memory : Option (List ℕ)
    pub fuel : ℕ
    pub host : Host e

  -- The export `alloc`: it is not a function, has another type, or is a function, which can trap.
  pub data Alloc : Type 0 where
    missing mistyped : Alloc
    function : (ℕ → Caller → Option ℕ × Caller) → Alloc

  pub record GuestCodec : Type 0 where
    pub alloc : Alloc
    -- `Memory::write` of bytes at an address.
    pub write : List ℕ → ℕ → List ℕ → Option (List ℕ)
    pub from_utf8 : List ℕ → Result String String
    pub from_utf8_lossy : List ℕ → String
    pub rmp_output : Bool → List ℕ → List ℕ
    pub rmp_keys : List String → List ℕ
    pub hash_error : CryptoError → String
    pub read_public_key : List ℕ → Result String i.PublicKey

  abbrev pub Guest : Type 0 → Type 0
  Guest A = Caller → Outcome (Result WasmError A × Caller)

module _ ⦃i : Identity⦄ {e : Setting} where
  abbrev pub continue :
      {A B : Type 0}
      → Outcome (Result WasmError A × Caller e)
      → (A → Guest e B)
      → Outcome (Result WasmError B × Caller e)
  continue (returns (ok a, c)) k = k a c
  continue (returns (err error, c)) k = returns (err error, c)
  continue panics k = panics

  infixl 5 ◌>>=◌
  unfoldable pub ◌>>=◌ : {A B : Type 0} → Guest e A → (A → Guest e B) → Guest e B
  (m >>= k) c = continue (m c) k

  infixl 5 ◌>>◌
  abbrev pub ◌>>◌ : {A B : Type 0} → Guest e A → Guest e B → Guest e B
  (m >> k) = m >>= (λ a. k)

  abbrev pub give : {A : Type 0} → A → Guest e A
  give a c = returns (ok a, c)

  abbrev pub fail : {A : Type 0} → WasmError → Guest e A
  fail error c = returns (err error, c)

  -- What may panic.
  abbrev pub lift : {A : Type 0} → Outcome A → Guest e A
  lift (returns a) s = returns (ok a, s)
  lift panics s = panics

  -- `map_err` into a fault of the machine.
  abbrev pub or_fault : {A : Type 0} → Result String A → Guest e A
  or_fault (ok a) = give a
  or_fault (err text) = fail (WasmError.wasm_machine_fault text)

  abbrev pub memory_of : Option (List ℕ) → Guest e (List ℕ)
  memory_of none =
      fail (WasmError.wasm_machine_fault "Problems to get memory export from the caller")
  memory_of (some mem) = give mem

  unfoldable pub mem_from : Guest e (List ℕ)
  mem_from c = memory_of c.memory c

  abbrev pub slice_or_fault : Option (List ℕ) → Guest e (List ℕ)
  slice_or_fault none =
      fail (WasmError.wasm_machine_fault "Problems to get a slice from wasm memory")
  slice_or_fault (some bytes) = give bytes

  unfoldable pub slice_from : List ℕ → ℕ → ℕ → Guest e (List ℕ)
  unfolding bytes_at
  slice_from mem offset size = slice_or_fault (bytes_at mem offset size)

  -- What the host does to its side.
  abbrev pub on_host : {A : Type 0} → (Host e → A × Host e) → Guest e A
  on_host f c = let (a, h) = f c.host in returns (ok a, record c { host = h })

  abbrev pub changes : (Host e → Host e) → Guest e Unit
  changes f c = returns (ok tt, record c { host = f c.host })

  abbrev pub reads : {A : Type 0} → (Host e → A) → Guest e A
  reads f c = returns (ok (f c.host), c)

  abbrev pub unwritten : Caller e → Outcome (Result WasmError ℕ × Caller e)
  unwritten c =
      returns (err (WasmError.wasm_machine_fault "Problems writing buf into wasm memory"), c)

  abbrev pub written :
      ℕ → List ℕ → Caller e → Option (List ℕ) → Outcome (Result WasmError ℕ × Caller e)
  written offset buf c none = unwritten c
  written offset buf c (some mem) =
      returns (ok (wslice_create offset (length buf % 2 ^ 32)), record c { memory = some mem })

  abbrev pub written_in :
      GuestCodec e
      → ℕ
      → List ℕ
      → Caller e
      → Option (List ℕ)
      → Outcome (Result WasmError ℕ × Caller e)
  written_in g offset buf c none = unwritten c
  written_in g offset buf c (some mem) =
      written offset buf c (g.write mem (sign_extended offset) buf)

  abbrev pub allocated :
      GuestCodec e → List ℕ → Option ℕ × Caller e → Outcome (Result WasmError ℕ × Caller e)
  allocated g buf (none, c) = unwritten c
  allocated g buf (some offset, c) = written_in g offset buf c c.memory

  abbrev pub return_by : GuestCodec e → List ℕ → Alloc e → Guest e ℕ
  return_by g buf Alloc.missing =
      fail (WasmError.wasm_machine_fault "Problems getting alloc function export")
  return_by g buf Alloc.mistyped =
      fail (WasmError.wasm_machine_fault "Problems with alloc native types matching")
  return_by g buf (Alloc.function alloc) = λ c. allocated g buf (alloc (length buf % 2 ^ 32) c)

  -- The answer is written into memory that the contract allocates.
  unfoldable pub return_buf : GuestCodec e → List ℕ → Guest e ℕ
  unfolding wslice_create sign_extended
  return_buf g buf = return_by g buf g.alloc
