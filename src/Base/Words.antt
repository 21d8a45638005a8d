-- ===== src/Base/Words.antt =====
-- `+` and `-` on `u64` and on the 64-bit `usize`, with the wrap-around of a release build.
use Prim.Native.Nat.{ℕ, ◌+◌, ◌-◌, ◌^◌, ◌%◌, ◌≤◌, ◌<◌}
use mathlib.Core.Path.{◌≡◌}
use native.Mathlib.Omega.{arith}

abbrev pub u64_mod : ℕ
u64_mod = 2 ^ 64

unfoldable pub wrapping_add : ℕ → ℕ → ℕ
wrapping_add a b = (a + b) % u64_mod

unfoldable pub wrapping_sub : ℕ → ℕ → ℕ
wrapping_sub a b = (a + u64_mod - b) % u64_mod

pub wrapping_add-lt : (a b : ℕ) → wrapping_add a b < u64_mod
unfolding wrapping_add
wrapping_add-lt a b = omega arith

-- Without overflow these are the plain operations.
pub wrapping_add_lem : (a b : ℕ) → a + b < u64_mod → wrapping_add a b ≡ a + b
unfolding wrapping_add
wrapping_add_lem a b h = omega arith

pub wrapping_sub_lem : (a b : ℕ) → b ≤ a → a < u64_mod → wrapping_sub a b ≡ a - b
unfolding wrapping_sub
wrapping_sub_lem a b h k = omega arith
