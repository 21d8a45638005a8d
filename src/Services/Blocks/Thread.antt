-- ===== src/Services/Blocks/Thread.antt =====
-- The thread that `spawn_alignment_thread` starts.
use trinci.Base.{
  ℕ, zero, suc, ◌+◌, ◌≤◌, ◌≡◌, refl, List, [], ◌∷◌, ◌++◌, Option, some, length, replicate, arith,
  ap, Bool-cases, inl, inr, ltb, String, lt→ltb, false, Option-cases,
}
use trinci.Artifacts.Models.{Chain}
use trinci.Artifacts.Messages.{Msg, Service, ThreadStep, deliver}
use trinci.Services.Blocks.Alignment.{alignment_thread, ending, new_height_in}

module _ ⦃c : Chain⦄ where
  abbrev pub retrieving : List String → ThreadStep c
  retrieving peers = deliver Service.block_service (Msg.retrieve_block peers)

  -- The heights after `h`, one by one, as the block service tells them.
  unfoldable pub climb : ℕ → ℕ → List (Option (Msg c))
  climb h zero = []
  climb h (suc n) = some (Msg.new_height (h + 1)) ∷ climb (h + 1) n

  -- Where the thread is told each next height, it asks for exactly the missing blocks, one after another,
  -- whatever it would receive later, and then reports the end to both services.
  pub alignment_thread-climb :
      (n h target : ℕ) (peers : List String) (rest : List (Option (Msg c)))
      → h + n ≡ target
      → alignment_thread h target peers (climb h n ++ rest)
        ≡ replicate n (retrieving peers) ++ ending
  unfolding alignment_thread climb
  alignment_thread-climb zero h target peers [] e =
      let go : ltb h target ≡ false = ground arith in rw go refl
  alignment_thread-climb zero h target peers (r ∷ rest) e =
      let go : ltb h target ≡ false = ground arith in rw go refl
  alignment_thread-climb (suc n) h target peers rest e = rw (lt→ltb h target (omega arith)) (
      ap (λ l. retrieving peers ∷ l)
        (alignment_thread-climb n (h + 1) target peers rest (omega arith)))

  -- Whatever the thread receives, it stops: it asks for a block at most once more than it receives
  -- something, and then reports the end to both services.
  pub alignment_thread-ends :
      (h target : ℕ) (peers : List String) (rs : List (Option (Msg c)))
      → (n : ℕ) × (n ≤ suc (length rs))
        × (alignment_thread h target peers rs ≡ replicate n (retrieving peers) ++ ending)
  unfolding alignment_thread
  alignment_thread-ends h target peers [] = elim (Bool-cases (ltb h target)) [
    | inl go ↦ (1, omega arith, rw go refl)
    | inr done ↦ (0, omega arith, rw done refl)
  ]
  alignment_thread-ends h target peers (r ∷ rs) = elim (Bool-cases (ltb h target)) [
    | inr done ↦ (0, omega arith, rw done refl)
    | inl go ↦ elim (Option-cases (new_height_in r)) [
      | inl lost ↦ (1, omega arith, rw (go, lost) refl)
      | inr (new, told) ↦
          let (n, few, same) = alignment_thread-ends new target peers rs in
          (suc n, omega arith, rw (go, told) (ap (λ l. retrieving peers ∷ l) same))
    ]
  ]
