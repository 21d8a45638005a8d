-- ===== src/Services/Blocks/Kept.antt =====
-- What the calls of `BlockService` keep, step by step: the rules for a predicate on its states.
use trinci.Base.{ℕ, Bool, true, false, ◌≡◌, refl, Option, none, some, if◌then◌else◌}
use trinci.Base.Result.{Result, ok, err}
use trinci.Artifacts.Models.{Chain}
use trinci.Artifacts.Messages.{Req, Res, Service}
use trinci.Services.Blocks.State.{
  BlockService, Call, CommError, CoreError, Outside, ◌>>=◌, ◌>>◌, ask, continue, found, gets, give,
  modify, fail, reply, received, require,
}

module _ ⦃c : Chain⦄ where
  -- The call keeps `P`, whether it ends in an error or not.
  pub record Kept (P : BlockService c → Type 0) {A : Type 0} (m : Call c A) : Type 0 where
    pub at : (s : BlockService c) → P s → P (m s).1

  -- It also ends with a value that satisfies `Q`, or with an error.
  pub record Yields (P : BlockService c → Type 0) {A : Type 0} (Q : A → Type 0) (m : Call c A)
      : Type 0 where
    pub keeps : Kept P m
    pub value : (s : BlockService c) (a : A) → (m s).0 ≡ ok a → Q a

module _ ⦃c : Chain⦄ {P : BlockService c → Type 0} where
  pub Kept-give : {A : Type 0} (a : A) → Kept P (give a)
  Kept-give a = record { at = λ s v. v }

  pub Kept-fail : {A : Type 0} (e : CoreError) → Kept P (fail {A = A} e)
  Kept-fail e = record { at = λ s v. v }

  pub Kept-modify :
      (f : BlockService c → BlockService c)
      → ((s : BlockService c) → P s → P (f s))
      → Kept P (modify f)
  Kept-modify f h = record { at = h }

  kept-continue :
      {A B : Type 0} (r : Result CoreError A × BlockService c) (k : A → Call c B)
      → P r.1
      → ((a : A) → Kept P (k a))
      → P (continue r k).1
  kept-continue (ok a, s) k v h = (h a).at s v
  kept-continue (err e, s) k v h = v

  pub Kept-bind :
      {A B : Type 0} (m : Call c A) (k : A → Call c B)
      → Kept P m
      → ((a : A) → Kept P (k a))
      → Kept P (m >>= k)
  unfolding ◌>>=◌
  Kept-bind m k h g = record { at = λ s v. kept-continue (m s) k (h.at s v) g }

  pub Kept-then :
      {A B : Type 0} (m : Call c A) (k : Call c B) → Kept P m → Kept P k → Kept P (m >> k)
  Kept-then m k h g = Kept-bind m (λ _. k) h (λ _. g)

  pub Kept-if :
      {A : Type 0} (b : Bool) (m n : Call c A)
      → (b ≡ true → Kept P m)
      → (b ≡ false → Kept P n)
      → Kept P (if b then m else n)
  Kept-if true m n h g = h refl
  Kept-if false m n h g = g refl

  -- After a test, the rest is only reached where the test holds.
  pub Kept-require :
      {B : Type 0} (test : Bool) (e : CoreError) (k : Call c B)
      → (test ≡ true → Kept P k)
      → Kept P (require test e >> k)
  unfolding ◌>>=◌ require
  Kept-require true e k h = h refl
  Kept-require false e k h = Kept-fail e

  pub Kept-found :
      {A B : Type 0} (o : Option A) (e : CoreError) (k : A → Call c B)
      → ((a : A) → o ≡ some a → Kept P (k a))
      → Kept P (found o e >>= k)
  unfolding ◌>>=◌ found
  Kept-found none e k h = Kept-fail e
  Kept-found (some a) e k h = h a refl

  -- A value that `P` determines is read as that value.
  pub Kept-gets :
      {A B : Type 0} (f : BlockService c → A) (a : A) (k : A → Call c B)
      → ((s : BlockService c) → P s → f s ≡ a)
      → ((x : A) → x ≡ a → Kept P (k x))
      → Kept P (gets f >>= k)
  unfolding ◌>>=◌ gets
  Kept-gets f a k same h = record { at = λ s v. (h (f s) (same s v)).at s v }

  continued :
      {A B : Type 0} {Q : A → Type 0} (r : Result CoreError A × BlockService c) (k : A → Call c B)
      → P r.1
      → ((a : A) → r.0 ≡ ok a → Q a)
      → ((a : A) → Q a → Kept P (k a))
      → P (continue r k).1
  continued (ok a, s) k v q h = (h a (q a refl)).at s v
  continued (err e, s) k v q h = v

  pub Kept-Yields :
      {A B : Type 0} (Q : A → Type 0) (m : Call c A) (k : A → Call c B)
      → Yields P Q m
      → ((a : A) → Q a → Kept P (k a))
      → Kept P (m >>= k)
  unfolding ◌>>=◌
  Kept-Yields Q m k y h = record { at = λ s v. continued (m s) k (y.keeps.at s v) (y.value s) h }

  -- What is read of the state may be used together with `P` of it.
  pub Kept-state :
      {A B : Type 0} (f : BlockService c → A) (k : A → Call c B)
      → ((s : BlockService c) → P s → Kept P (k (f s)))
      → Kept P (gets f >>= k)
  unfolding ◌>>=◌ gets
  Kept-state f k h = record { at = λ s v. (h s v).at s v }

  -- The rest after a request, which knows the response.
  kept-received :
      {B : Type 0} (r : Result CommError (Res c)) (s : BlockService c) (k : Res c → Call c B)
      → P s
      → ((a : Res c) → r ≡ ok a → Kept P (k a))
      → P (continue (received r, s) k).1
  kept-received (ok a) s k v h = (h a refl).at s v
  kept-received (err e) s k v h = v

  pub Kept-ask :
      {B : Type 0} (o : Outside c) (service : Service) (q : Req) (k : Res c → Call c B)
      → ((n : ℕ) (s : BlockService c) → P s → P (record s { asked = n }))
      → ((n : ℕ) (a : Res c) → o.response n service q ≡ ok a → Kept P (k a))
      → Kept P (ask o service q >>= k)
  unfolding ◌>>=◌ ask
  Kept-ask o service q k counts h = record {
    at = λ s v. kept-received (o.response s.asked service q) _ k (counts _ s v) (h s.asked);
  }

  pub Kept-reply :
      {B : Type 0} (o : Outside c) (service : Service) (q : Req)
      (k : Result CommError (Res c) → Call c B)
      → ((n : ℕ) (s : BlockService c) → P s → P (record s { asked = n }))
      → ((r : Result CommError (Res c)) → Kept P (k r))
      → Kept P (reply o service q >>= k)
  unfolding ◌>>=◌ reply
  Kept-reply o service q k counts h = record {
    at = λ s v. (h (o.response s.asked service q)).at _ (counts _ s v);
  }
