-- ===== src/Node/Local/Slices.antt =====
-- The slices between a contract and the host.
use trinci.Base.{ℕ, ◌+◌, ◌*◌, ◌/◌, ◌%◌, ◌^◌, ◌≡◌, ◌<◌, refl, inl, inr, arith, ltb, Bool-cases}
use trinci.Node.Local.{sign_extended, wslice_create, wslice_split}

high_bits : (a : ℕ) → a < 2 ^ 32 → (sign_extended a * 2 ^ 32) % 2 ^ 64 ≡ a * 2 ^ 32
unfolding sign_extended
high_bits a h = elim (Bool-cases (ltb a (2 ^ 31))) [
  | inl low ↦ rw low (omega arith)
  | inr high ↦ rw high (omega arith)
]

low_bits : (a : ℕ) → a < 2 ^ 32 → sign_extended a % 2 ^ 32 ≡ a
unfolding sign_extended
low_bits a h = elim (Bool-cases (ltb a (2 ^ 31))) [
  | inl low ↦ rw low (omega arith)
  | inr high ↦ rw high (omega arith)
]

upper : (a b : ℕ) → a < 2 ^ 32 → b < 2 ^ 32 → ((a * 2 ^ 32 + b) / 2 ^ 32) % 2 ^ 32 ≡ a
upper a b ha hb = omega arith

lower : (a b : ℕ) → b < 2 ^ 32 → (a * 2 ^ 32 + b) % 2 ^ 32 ≡ b
lower a b hb = omega arith

-- For an address and a length of 32 bits, whatever their signs, the slice that is made of them splits into
-- them again.
pub wslice_split-wslice_create :
    (offset length : ℕ)
    → offset < 2 ^ 32
    → length < 2 ^ 32
    → wslice_split (wslice_create offset length) ≡ (offset, length)
unfolding wslice_create wslice_split
wslice_split-wslice_create offset length ho hl =
    rw (high_bits offset ho, low_bits length hl, upper offset length ho hl, lower offset length hl)
      refl
