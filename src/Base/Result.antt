-- ===== src/Base/Result.antt =====
-- Rust's `Result`, and the `?` operator as the bind of a `do` block.
use mathlib.Core.Path.{◌≡◌, ap}

pub data Result {ℓ} (E A : Type ℓ) : Type ℓ where
  ok : A → Result E A
  err : E → Result E A

infixl 5 ◌>>=◌
abbrev pub ◌>>=◌ {ℓ} :
    {Failure Value Next : Type ℓ}
    → Result Failure Value
    → (Value → Result Failure Next)
    → Result Failure Next
err failure >>= next = err failure
ok value >>= next = next value

value_or {ℓ} : {E A : Type ℓ} → A → Result E A → A
value_or d (ok a) = a
value_or d (err e) = d

pub ok-injective {ℓ} : {E A : Type ℓ} {a b : A} → Path (Result E A) (ok a) (ok b) → a ≡ b
unfolding value_or
ok-injective {a = a} e = ap (value_or a) e
