-- ===== src/Services/Consensus/Sorted.antt =====
-- `sort_by_count`, the stable sort of the proposals.
use trinci.Base.{
  ℕ_eq, leb→le, ◌==◌, leb, retain, if◌then◌else◌, Bool-cases, refl, [], ◌∷◌, List, ℕ, suc, Bool,
  ◌≡◌, ◌≤◌, arith, inl, inr, All,
}
use trinci.Artifacts.Models.{BlockProposal, Chain}
use trinci.Services.Consensus.Rounds.{sort_by_count, insert_by_count}
use trinci.Services.Consensus.WellFormed.{insert_by_count-All}

module _ ⦃c : Chain⦄ where
  -- No proposal stands before one with a greater count.
  abbrev pub IsDescending : List (BlockProposal c) → Type 0
  IsDescending [] = Unit
  IsDescending (p ∷ ps) = All (λ q. q.count ≤ p.count) ps × IsDescending ps

  -- How many proposals of a list pass a test.
  abbrev pub how_many : (BlockProposal c → Bool) → List (BlockProposal c) → ℕ
  how_many test [] = 0
  how_many test (p ∷ ps) = if test p then suc (how_many test ps) else how_many test ps

  -- The proposals with one count, in their order.
  abbrev pub with_count : ℕ → List (BlockProposal c) → List (BlockProposal c)
  with_count n ps = retain (λ p. p.count == n) ps

  All-weaken :
      (p q : BlockProposal c) (ps : List (BlockProposal c))
      → q.count ≤ p.count
      → All (λ r. r.count ≤ q.count) ps
      → All (λ r. r.count ≤ p.count) ps
  All-weaken p q [] h v = tt
  All-weaken p q (r ∷ ps) h v = (omega (arith, v.0), All-weaken p q ps h v.1)

  insert_by_count-IsDescending :
      (p : BlockProposal c) (ps : List (BlockProposal c))
      → IsDescending ps
      → IsDescending (insert_by_count p ps)
  unfolding insert_by_count
  insert_by_count-IsDescending p [] v = (tt, tt)
  insert_by_count-IsDescending p (q ∷ qs) v = elim (Bool-cases (leb q.count p.count)) [
    | inl e ↦ rw e ((leb→le q.count p.count e, All-weaken p q qs (leb→le q.count p.count e) v.0), v)
    | inr e ↦ rw e (
      insert_by_count-All (λ r. r.count ≤ q.count) p qs (ground arith) v.0,
      insert_by_count-IsDescending p qs v.1,
    )
  ]

  sort_by_count-IsDescending : (ps : List (BlockProposal c)) → IsDescending (sort_by_count ps)
  unfolding sort_by_count
  sort_by_count-IsDescending [] = tt
  sort_by_count-IsDescending (p ∷ ps) =
      insert_by_count-IsDescending p (sort_by_count ps) (sort_by_count-IsDescending ps)

  insert-how_many :
      (test : BlockProposal c → Bool) (p : BlockProposal c) (ps : List (BlockProposal c))
      → how_many test (insert_by_count p ps) ≡ how_many test (p ∷ ps)
  unfolding insert_by_count
  insert-how_many test p [] = refl
  insert-how_many test p (q ∷ qs) = ground (arith, insert-how_many test p qs)

  sort-how_many :
      (test : BlockProposal c → Bool) (ps : List (BlockProposal c))
      → how_many test (sort_by_count ps) ≡ how_many test ps
  unfolding sort_by_count
  sort-how_many test [] = refl
  sort-how_many test (p ∷ ps) =
      ground (arith, insert-how_many test p (sort_by_count ps), sort-how_many test ps)

  insert-with_count :
      (n : ℕ) (p : BlockProposal c) (ps : List (BlockProposal c))
      → with_count n (insert_by_count p ps) ≡ with_count n (p ∷ ps)
  unfolding insert_by_count
  insert-with_count n p [] = refl
  insert-with_count n p (q ∷ qs) = ground (arith, insert-with_count n p qs)

  sort-with_count :
      (n : ℕ) (ps : List (BlockProposal c)) → with_count n (sort_by_count ps) ≡ with_count n ps
  unfolding sort_by_count
  sort-with_count n [] = refl
  sort-with_count n (p ∷ ps) =
      ground (arith, insert-with_count n p (sort_by_count ps), sort-with_count n ps)

  -- The sort puts the proposals in the order of their counts, the greatest first; it keeps how many of
  -- them pass any test, and the order among those with the same count.
  pub sort_by_count_lem :
      (ps : List (BlockProposal c))
      → IsDescending (sort_by_count ps)
        × ((test : BlockProposal c → Bool) → how_many test (sort_by_count ps) ≡ how_many test ps)
        × ((n : ℕ) → with_count n (sort_by_count ps) ≡ with_count n ps)
  sort_by_count_lem ps =
      (sort_by_count-IsDescending ps, λ test. sort-how_many test ps, λ n. sort-with_count n ps)
