-- ===== src/Artifacts/Models/Seed/Total.antt =====
-- The lengths of what `get_seed` folds.
use trinci.Base.{
  inr, inl, ◌∙◌, ltb, ap, Bool-cases, ℕ, zero, suc, ◌-◌, ◌%◌, ◌≡◌, ◌≤◌, refl, min, List, [], ◌∷◌,
  ◌++◌, length, replicate, take, drop, length-append, length-replicate, length-take, length-drop,
  All, arith,
}
use trinci.Base.Outcome.{returns}
use trinci.Artifacts.Models.Seed.{
  SeedSource, xor_bytes, chunks, xor_chunks, to_be_bytes, from_be_bytes, mixed, filled_up, folded,
  get_seed,
}

length-xor_bytes : (xs ys : List ℕ) → length (xor_bytes xs ys) ≡ min (length xs) (length ys)
unfolding xor_bytes
length-xor_bytes [] ys = omega arith
length-xor_bytes (x ∷ xs) [] = omega arith
length-xor_bytes (x ∷ xs) (y ∷ ys) = omega (arith, length-xor_bytes xs ys)

length-to_be_bytes : (digits n : ℕ) → length (to_be_bytes digits n) ≡ digits
unfolding to_be_bytes
length-to_be_bytes zero n = refl
length-to_be_bytes (suc digits) n = omega (arith, length-to_be_bytes digits n)

length-filled_up : (xs : List ℕ) → length (filled_up xs) % 8 ≡ 0
unfolding filled_up
length-filled_up xs = elim (Bool-cases (ltb 0 (length xs % 8))) [
  | inl e ↦ rw e (
      omega (
        arith,
        length-append xs (replicate (8 - length xs % 8) 0),
        length-replicate {A = ℕ} (8 - length xs % 8) 0,
      ))
  | inr e ↦ rw e (ground arith)
]

-- Every chunk of a vector of whole words has eight bytes.
chunks-eight :
    (fuel : ℕ) (xs : List ℕ) → length xs % 8 ≡ 0 → All (λ chunk. length chunk ≡ 8) (chunks fuel xs)
unfolding chunks
chunks-eight zero xs h = tt
chunks-eight (suc fuel) [] h = tt
chunks-eight (suc fuel) (x ∷ xs) h = (
  omega (arith, length-take 8 (x ∷ xs)),
  chunks-eight fuel (drop 8 (x ∷ xs)) (omega (arith, length-drop 8 (x ∷ xs))),
)

length-xor_chunks :
    (vec : List ℕ) (rest : List (List ℕ))
    → length vec ≡ 8
    → All (λ chunk. length chunk ≡ 8) rest
    → length (xor_chunks vec rest) ≡ 8
unfolding xor_chunks
length-xor_chunks vec [] v h = v
length-xor_chunks vec (element ∷ rest) v h =
    length-xor_chunks (xor_bytes vec element) rest
      (omega (arith, length-xor_bytes vec element, h.0)) h.1

length-folded : (s : SeedSource) → length (folded s) ≡ 8
unfolding folded
length-folded s =
    let bytes = filled_up (mixed s) in
    omega (
      arith,
      length-xor_bytes (xor_chunks (replicate 8 0) (chunks (length bytes) bytes))
          (to_be_bytes 8 s.previous_seed),
      length-to_be_bytes 8 s.previous_seed,
      length-xor_chunks (replicate 8 0) (chunks (length bytes) bytes) refl
          (chunks-eight (length bytes) bytes (length-filled_up (mixed s))),
    )

abbrev pub flat : List (List ℕ) → List ℕ
flat [] = []
flat (xs ∷ rest) = xs ++ flat rest

take-append_drop : (n : ℕ) (xs : List ℕ) → take n xs ++ drop n xs ≡ xs
take-append_drop zero xs = refl
take-append_drop (suc n) [] = refl
take-append_drop (suc n) (x ∷ xs) = ap (λ l. x ∷ l) (take-append_drop n xs)

flat-chunks : (fuel : ℕ) (xs : List ℕ) → length xs ≤ fuel → flat (chunks fuel xs) ≡ xs
unfolding chunks
flat-chunks zero [] h = refl
flat-chunks zero (x ∷ xs) h = elim h [ ]
flat-chunks (suc fuel) [] h = refl
flat-chunks (suc fuel) (x ∷ xs) h =
    ap (λ l. take 8 (x ∷ xs) ++ l)
      (flat-chunks fuel (drop 8 (x ∷ xs)) (omega (arith, length-drop 8 (x ∷ xs), h)))
    ∙ take-append_drop 8 (x ∷ xs)

pub get_seed_lem :
    (s : SeedSource)
    → let bytes = filled_up (mixed s) in
      (flat (chunks (length bytes) bytes) ≡ bytes)
      × (length (folded s) ≡ 8)
      × (get_seed s ≡ returns (from_be_bytes (folded s)))
unfolding get_seed
get_seed_lem s =
    (flat-chunks _ (filled_up (mixed s)) (omega arith), length-folded s, rw (length-folded s) refl)
