-- ===== src/Base/Outcome.antt =====
-- A call that returns, or panics and so ends its thread: `expect`, `unwrap`, an index out of range.
use mathlib.Core.Bool.{Bool, true, false}
use trinci.Base.Tests.{if◌then◌else◌}
use mathlib.Core.Path.{ap, subst, ap, subst, ◌≡◌, refl}
use mathlib.Core.Option.{Option, none, some}

pub data Outcome {ℓ} (A : Type ℓ) : Type ℓ where
  returns : A → Outcome A
  panics : Outcome A

-- `Option::expect` and `Option::unwrap`.
unfoldable pub expect {ℓ} : {A : Type ℓ} → Option A → Outcome A
expect none = panics
expect (some a) = returns a

-- Opening the bind opens `expect` too.
infixl 5 ◌>>=◌
unfoldable pub ◌>>=◌ {ℓ κ} : {A : Type ℓ} {B : Type κ} → Outcome A → (A → Outcome B) → Outcome B
unfolding expect
returns a >>= f = f a
panics >>= f = panics

-- The call returns, with a value that satisfies `P`.
abbrev pub Returns {ℓ κ} : {A : Type ℓ} → Outcome A → (A → Type κ) → Type (ℓ ⊔ κ)
Returns {A} m P = (a : A) × (m ≡ returns a) × P a

value_or {ℓ} : {A : Type ℓ} → A → Outcome A → A
value_or d (returns a) = a
value_or d panics = d

pub returns-injective {ℓ} : {A : Type ℓ} {a b : A} → returns a ≡ returns b → a ≡ b
unfolding value_or
returns-injective {a = a} e = ap (value_or a) e

-- Whatever the call returns satisfies `P`; it may panic.
pub record Ensures {ℓ} {A : Type ℓ} (P : A → Type ℓ) (m : Outcome A) : Type ℓ where
  pub at : (a : A) → m ≡ returns a → P a

pub Ensures-returns {ℓ} : {A : Type ℓ} {P : A → Type ℓ} (a : A) → P a → Ensures P (returns a)
Ensures-returns {P} a h = record { at = λ b e. subst P (returns-injective e) h }

pub Ensures-panics {ℓ} : {A : Type ℓ} {P : A → Type ℓ} → Ensures P panics
Ensures-panics = record { at = λ a e. cc }

pub Ensures-weaken {ℓ} :
    {A : Type ℓ} {P Q : A → Type ℓ} (m : Outcome A)
    → ((a : A) → P a → Q a)
    → Ensures P m
    → Ensures Q m
Ensures-weaken m w h = record { at = λ a e. w a (h.at a e) }

pub Ensures-expect {ℓ} :
    {A : Type ℓ} {P : A → Type ℓ} (o : Option A)
    → ((a : A) → o ≡ some a → P a)
    → Ensures P (expect o)
unfolding expect
Ensures-expect none h = Ensures-panics
Ensures-expect (some a) h = Ensures-returns a (h a refl)

pub Ensures-if {ℓ} :
    {A : Type ℓ} {P : A → Type ℓ} (b : Bool) (m n : Outcome A)
    → (b ≡ true → Ensures P m)
    → (b ≡ false → Ensures P n)
    → Ensures P (if b then m else n)
Ensures-if true m n h k = h refl
Ensures-if false m n h k = k refl

pub Ensures-bind {ℓ} :
    {A B : Type ℓ} {P : A → Type ℓ} {Q : B → Type ℓ} (m : Outcome A) (f : A → Outcome B)
    → Ensures P m
    → ((a : A) → P a → Ensures Q (f a))
    → Ensures Q (m >>= f)
unfolding ◌>>=◌
Ensures-bind (returns a) f h k = k a (h.at a refl)
Ensures-bind panics f h k = Ensures-panics

pub Ensures-expect-bind {ℓ} :
    {A B : Type ℓ} {Q : B → Type ℓ} (o : Option A) (f : A → Outcome B)
    → ((a : A) → o ≡ some a → Ensures Q (f a))
    → Ensures Q (expect o >>= f)
unfolding ◌>>=◌
Ensures-expect-bind none f k = Ensures-panics
Ensures-expect-bind (some a) f k = k a refl
