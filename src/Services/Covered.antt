-- ===== src/Services/Covered.antt =====
-- Whether transactions have all hashes that are asked for, and the collection of a block that lacks one.
use trinci.Base.{
  Option-cases, false, ◌⊎◌, eq_refl, ℕ_eq, All, true, false, ◌≡◌, refl, List, [], ◌∷◌, ◌==◌,
  contains, map, is_some, Bool-cases, inl, inr, arith,
}
use trinci.Base.Outcome.{panics, ◌>>=◌}
use trinci.Crypto.Hash.{Hash, Hash_eq}
use trinci.Artifacts.Models.{Chain}
use trinci.Artifacts.Messages.{PoolTx}
use trinci.Services.Blocks.Execution.{hash_of}
use trinci.Services.Transactions.Pool.{get}
use trinci.Services.Transactions.Handlers.{collect_txs}
use trinci.Services.Blocks.Begun.{missing_of}

module _ ⦃c : Chain⦄ where
  abbrev pub CoveredBy : List (PoolTx c) → Hash → Type 0
  CoveredBy txs k = contains (map hash_of txs) k ≡ true

  pub covered-or-lacking :
      (txs : List (PoolTx c)) (l : List Hash)
      → All (CoveredBy txs) l
        ⊎ ((k : Hash) × (contains l k ≡ true) × (contains (map hash_of txs) k ≡ false))
  covered-or-lacking txs [] = inl tt
  covered-or-lacking txs (k ∷ l) = elim (Bool-cases (contains (map hash_of txs) k)) [
    | inr lacking ↦ inr (k, rw (eq_refl ⦃e = Hash_eq⦄ k) refl, lacking)
    | inl there ↦ elim (covered-or-lacking txs l) [
      | inl rest ↦ inl (there, rest)
      | inr (j, listed, lacking) ↦ inr (j, ground (arith, listed), lacking)
    ]
  ]

  pub contains-retain :
      (unconfirmed ks : List Hash) (k : Hash)
      → contains (missing_of unconfirmed ks) k ≡ true
      → (contains ks k ≡ true) × (contains unconfirmed k ≡ false)
  contains-retain unconfirmed [] k h = absurd cc
  contains-retain unconfirmed (j ∷ ks) k h = elim (Bool-cases (contains unconfirmed j)) [
    | inl known ↦
        let (there, unknown) = contains-retain unconfirmed ks k (rw known at h) in
        (ground (arith, there), unknown)
    | inr unknown ↦ elim (Bool-cases (j == k)) [
      | inl same ↦
          let e : j ≡ k = (Hash_eq.eq_iff j k).0 same in (ground (arith, same), rw (← e) unknown)
      | inr other ↦
          let (there, not_known) = contains-retain unconfirmed ks k (rw (unknown, other) at h) in
          (ground (arith, there), not_known)
    ]
  ]

  -- An unknown hash ends in a panic.
  pub collect_txs-panics :
      (pool : List (Hash × PoolTx c)) (ks : List Hash) (k : Hash)
      → contains ks k ≡ true
      → is_some (get k pool) ≡ false
      → collect_txs pool ks ≡ panics
  unfolding collect_txs ◌>>=◌
  collect_txs-panics pool [] k h absent = absurd cc
  collect_txs-panics pool (j ∷ ks) k h absent = elim (Option-cases (get j pool)) [
    | inl unknown ↦ rw unknown refl
    | inr (tx, there) ↦ elim (Bool-cases (j == k)) [
      | inl same ↦
          let e : j ≡ k = (Hash_eq.eq_iff j k).0 same in
          let known : is_some (get k pool) ≡ true = rw (← e) (rw there refl) in absurd cc
      | inr other ↦ rw (there, collect_txs-panics pool ks k (rw other at h) absent) refl
    ]
  ]
