-- ===== src/Services/Blocks/State.antt =====
-- block_service.rs: the state of `BlockService`, the errors of errors.rs, and its calls. A call takes the
-- state to a result and the state that follows. `asked` numbers the requests that were sent so far; the
-- response to each is given from outside. `aligning` says whether `alignment_sender` is there.
use trinci.Base.{if◌then◌else◌, ℕ, ◌+◌, Bool, Option, none, some, ◌∷◌, List, String}
use trinci.Base.Result.{Result, ok, err}
use trinci.Crypto.Hash.{Hash}
use trinci.Artifacts.Models.{Chain}
use trinci.Artifacts.Messages.{Effect, Msg, Req, Res, Service, send}

pub data ChainError : Type 0 where
  alignment_error : String → ChainError
  block_verification_fault : ChainError
  confirmation_error : ChainError
  invalid_block_height : ℕ → ℕ → ChainError
  invalid_block_player : String → ChainError
  invalid_block_previous_hash : Hash → Hash → ChainError
  missing_block_builder missing_block_error missing_txs_error : ChainError

pub data CommError : Type 0 where
  invalid_comm recv_timeout_error send_error : CommError

pub data CoreError : Type 0 where
  chain_error : ChainError → CoreError
  comm_error : CommError → CoreError

module _ (c : Chain) where
  open c use {KeyPair, Transaction}

  pub record BlockService : Type 0 where
    pub actual_round : ℕ
    pub aligning : Bool
    pub build_in_progress : Bool
    pub height : ℕ
    pub keypair : KeyPair
    pub last_block_hash : Hash
    pub node_id : String
    pub asked : ℕ
    pub outbox : List (Effect c)

  -- The response to each request, by its number, and the length of a transaction that
  -- `rmp_serialize` writes.
  pub record Outside : Type 0 where
    pub response : ℕ → Service → Req → Result CommError (Res c)
    pub rmp_len : Transaction → ℕ

  abbrev pub Call : Type 0 → Type 0
  Call A = BlockService → Result CoreError A × BlockService

module _ ⦃c : Chain⦄ where
  -- The `?` operator.
  abbrev pub continue :
      {A B : Type 0}
      → Result CoreError A × BlockService c
      → (A → Call c B)
      → Result CoreError B × BlockService c
  continue (ok a, s) next = next a s
  continue (err e, s) next = (err e, s)

  infixl 5 ◌>>=◌
  unfoldable pub ◌>>=◌ : {A B : Type 0} → Call c A → (A → Call c B) → Call c B
  (m >>= next) s = continue (m s) next

  infixl 5 ◌>>◌
  abbrev pub ◌>>◌ : {A B : Type 0} → Call c A → Call c B → Call c B
  m >> next = m >>= λ _. next

  abbrev pub give : {A : Type 0} → A → Call c A
  give a s = (ok a, s)

  abbrev pub fail : {A : Type 0} → CoreError → Call c A
  fail e s = (err e, s)

  unfoldable pub gets : {A : Type 0} → (BlockService c → A) → Call c A
  gets f s = (ok (f s), s)

  abbrev pub modify : (BlockService c → BlockService c) → Call c Unit
  modify f s = (ok tt, f s)

  -- `if !test { return Err(e) }`, and the same of a `let` with an `else`.
  unfoldable pub require : Bool → CoreError → Call c Unit
  require test e s = if test then (ok tt, s) else (err e, s)

  unfoldable pub found : {A : Type 0} → Option A → CoreError → Call c A
  found none e s = (err e, s)
  found (some a) e s = (ok a, s)

  -- `send_msg`
  unfoldable pub emit : Effect c → BlockService c → BlockService c
  emit e s = record s { outbox = e ∷ s.outbox }

  abbrev pub send_msg : Service → Msg c → Call c Unit
  send_msg service msg = modify (emit (send service msg))

  -- `send_req`, without and with the `?`.
  unfoldable pub reply : Outside c → Service → Req → Call c (Result CommError (Res c))
  reply o service request s =
      (ok (o.response s.asked service request), record s { asked = s.asked + 1 })

  abbrev pub received : Result CommError (Res c) → Result CoreError (Res c)
  received (ok answer) = ok answer
  received (err e) = err (comm_error e)

  unfoldable pub ask : Outside c → Service → Req → Call c (Res c)
  ask o service request s =
      (received (o.response s.asked service request), record s { asked = s.asked + 1 })
