-- ===== src/Services/Blocks/Selection.antt =====
-- The transactions that `build_block` puts into a block.
use trinci.Base.{
  ◌∙◌, ap, ◌⊎◌, zero, ℕ, suc, ◌+◌, ◌^◌, ◌≤◌, ◌<◌, ◌≡◌, refl, List, [], ◌∷◌, length, take, map, All,
  arith, Bool-cases, inl, inr, ltb,
}
use trinci.Base.Words.{wrapping_add, wrapping_add_lem}
use trinci.Crypto.Hash.{Hash}
use trinci.Services.Blocks.Execution.{
  max_txs_in_block, chosen_txs, pop_all, block_size_limit, fill_block,
}
use trinci.Artifacts.Models.{Chain}

abbrev pub total_size : List (Hash × ℕ) → ℕ
total_size [] = 0
total_size ((hash, size) ∷ rest) = size + total_size rest

abbrev pub hashes : List (Hash × ℕ) → List Hash
hashes l = map (λ entry. entry.0) l

-- Sizes that a sum with less than a block does not overflow.
abbrev pub IsSized : Hash × ℕ → Type 0
IsSized (hash, size) = size < 2 ^ 63

-- The first `n` are all, or one more would reach the limit.
abbrev pub IsFull : ℕ → ℕ → List (Hash × ℕ) → Type 0
IsFull size n l = (n ≡ length l) ⊎ (block_size_limit ≤ size + total_size (take (suc n) l))

-- The loop takes as long a prefix of what it pops as fits.
fill_block-prefix :
    (size : ℕ) (l : List (Hash × ℕ))
    → All IsSized l
    → size < block_size_limit
    → (n : ℕ) × (n ≤ length l)
      × (fill_block size l ≡ hashes (take n l))
      × (size + total_size (take n l) < block_size_limit)
      × IsFull size n l
unfolding fill_block
fill_block-prefix size [] a h = (0, omega arith, refl, omega arith, inl refl)
fill_block-prefix size ((hash, s) ∷ rest) a h =
    let plain : wrapping_add size s ≡ size + s = wrapping_add_lem size s (omega arith) in
    elim (Bool-cases (ltb (wrapping_add size s) block_size_limit)) [
      | inl small ↦
          let below : size + s < block_size_limit = ground arith in
          let (n, few, same, within, full) = fill_block-prefix (size + s) rest a.1 below in
          (suc n, omega arith, rw (small, plain, same) refl, omega arith, ground (arith, full))
      | inr large ↦ (0, omega arith, rw large refl, omega arith, inr (ground arith))
    ]

take-shorter :
    (m n : ℕ) (l : List (Hash × ℕ)) → m ≤ n → take m (hashes (take n l)) ≡ hashes (take m l)
take-shorter zero n l h = refl
take-shorter (suc m) zero l h = absurd (omega arith)
take-shorter (suc m) (suc n) [] h = refl
take-shorter (suc m) (suc n) (x ∷ l) h = ap (λ t. x.0 ∷ t) (take-shorter m n l (omega arith))

take-longer :
    (m n : ℕ) (l : List (Hash × ℕ)) → n ≤ m → take m (hashes (take n l)) ≡ hashes (take n l)
take-longer zero zero l h = refl
take-longer zero (suc n) l h = absurd (omega arith)
take-longer (suc m) zero l h = refl
take-longer (suc m) (suc n) [] h = refl
take-longer (suc m) (suc n) (x ∷ l) h = ap (λ t. x.0 ∷ t) (take-longer m n l (omega arith))

total_size-take :
    (m n : ℕ) (l : List (Hash × ℕ)) → m ≤ n → total_size (take m l) ≤ total_size (take n l)
total_size-take zero n l h = omega arith
total_size-take (suc m) zero l h = omega arith
total_size-take (suc m) (suc n) [] h = omega arith
total_size-take (suc m) (suc n) ((hash, s) ∷ l) h =
    omega (arith, total_size-take m n l (omega arith))

All-pop_all :
    (l popped : List (Hash × ℕ))
    → All IsSized l
    → All IsSized popped
    → All IsSized (pop_all l popped)
unfolding pop_all
All-pop_all [] popped a b = b
All-pop_all (x ∷ l) popped a b = All-pop_all l (x ∷ popped) a.1 (a.0, b)

module _ ⦃c : Chain⦄ where
  -- Where no size reaches 2^63, the transactions of a block are the first so many in the order in which
  -- the hashes are popped: at most 500, together below the size limit, and where they are fewer than
  -- 500, either all or as many as stay below the limit.
  pub chosen_txs_lem :
      (l : List (Hash × ℕ))
      → All IsSized l
      → let popped = pop_all l [] in
        (n : ℕ) × (chosen_txs l ≡ hashes (take n popped))
        × (n ≤ max_txs_in_block)
        × (total_size (take n popped) < block_size_limit)
        × ((n ≡ max_txs_in_block) ⊎ IsFull 0 n popped)
  chosen_txs_lem l a =
      let popped = pop_all l [] in
      let (n, few, same, within, full) =
        fill_block-prefix 0 popped (All-pop_all l [] a tt) (omega arith) in
      elim (Bool-cases (ltb n max_txs_in_block)) [
        | inl below ↦ (
          n,
          ap (take max_txs_in_block) same ∙ take-longer max_txs_in_block n popped (ground arith),
          ground arith,
          omega arith,
          inr full,
        )
        | inr above ↦
            let least : max_txs_in_block ≤ n = ground arith in
            let less = total_size-take max_txs_in_block n popped least in
            (
              max_txs_in_block,
              ap (take max_txs_in_block) same ∙ take-shorter max_txs_in_block n popped least,
              omega arith,
              omega arith,
              inl refl,
            )
      ]
