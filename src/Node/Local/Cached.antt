-- ===== src/Node/Local/Cached.antt =====
-- The cache of compiled modules: it answers as the database does, and stays within its size.
use trinci.Base.{
  ℕ, suc, ◌≤◌, ◌<◌, Bool, true, false, not, ◌≡◌, refl, sym, ap, ◌∙◌, inl, inr, ◌==◌, ltb, some,
  List, [], ◌∷◌, map, String, if◌then◌else◌, arith, All, any, eq_refl, Bool-cases, eq→≡, find,
  is_some, length, length-map, length-retain, retain,
}
use trinci.Base.Outcome.{Outcome, expect, returns, ◌>>=◌}
use trinci.Base.Result.{Result, err, ok}
use trinci.Crypto.Hash.{Hash, Hash_eq}
use trinci.Node.Identity.{Identity}
use trinci.Node.Database.{Database, Indexes}
use trinci.Node.Errors.{WasmError}
use trinci.Node.Local.{
  CachedModule, Compiler, WmLocal, evict, fetch, get_module, insert_module, load_module, oldest,
  take_module, touch,
}

module _ {A : Type 0} (P : A → Type 0) where
  All-retain : (q : A → Bool) (xs : List A) → All P xs → All P (retain q xs)
  All-retain q [] h = tt
  All-retain q (a ∷ xs) h = elim (Bool-cases (q a)) [
    | inl kept ↦ rw kept (h.0, All-retain q xs h.1)
    | inr gone ↦ rw gone (All-retain q xs h.1)
  ]

  find_there :
      (q : A → Bool) (xs : List A)
      → All P xs
      → is_some (find q xs) ≡ true
      → (a : A) × (find q xs ≡ some a) × (q a ≡ true) × P a
  find_there q [] h s = absurd cc
  find_there q (a ∷ xs) h s = elim (Bool-cases (q a)) [
    | inl here ↦ (a, rw here refl, here, h.0)
    | inr later ↦
        let (b, found, good, p) = find_there q xs h.1 (rw later at s) in
        (b, rw later found, good, p)
  ]

module _ {A : Type 0} where
  retain-lt :
      (q : A → Bool) (xs : List A)
      → any q xs ≡ true
      → length (retain (λ a. not (q a)) xs) < length xs
  retain-lt q [] h = absurd cc
  retain-lt q (a ∷ xs) h = elim (Bool-cases (q a)) [
    | inl here ↦ let shorter = length-retain (λ b. not (q b)) xs in rw here (omega (arith, shorter))
    | inr later ↦ let shorter = retain-lt q xs (rw later at h) in rw later (omega (arith, shorter))
  ]

module _ (w : Compiler) where
  oldest-any :
      (q : Hash × CachedModule w → Bool) (older : Hash × CachedModule w)
      (iter : List (Hash × CachedModule w))
      → q (oldest w older iter) ≡ true
      → any q (older ∷ iter) ≡ true
  unfolding oldest
  oldest-any q older [] h = rw h refl
  oldest-any q older (curr ∷ iter) h = elim (Bool-cases (ltb curr.1.last_used older.1.last_used)) [
    | inl less ↦ let there = oldest-any q curr iter (rw less at h) in ground (arith, there)
    | inr not_less ↦ let there = oldest-any q older iter (rw not_less at h) in ground (arith, there)
  ]

  abbrev pub IsBounded : WmLocal w → Type 0
  IsBounded m = length m.cache ≤ suc m.cache_max

  module _ ⦃i : Identity⦄ (x : Indexes) (hex : Hash → String) (db : Database x) where
    -- Every module in the cache is what the database gives for its hash.
    abbrev pub IsEntry : Hash × CachedModule w → Type 0
    IsEntry p = fetch w x hex db p.0 ≡ ok p.1.module_

    abbrev pub IsCoherent : WmLocal w → Type 0
    IsCoherent m = All IsEntry m.cache

    -- There is room for one more module.
    abbrev pub HasRoom : ℕ → WmLocal w → Type 0
    HasRoom cache_max m = (length m.cache ≤ cache_max) × IsCoherent m × (m.cache_max ≡ cache_max)

    evict_over :
        (first : Hash × CachedModule w) (iter : List (Hash × CachedModule w)) (cache_max : ℕ)
        → length iter ≤ cache_max
        → All IsEntry (first ∷ iter)
        → HasRoom cache_max (record {
          cache = retain (λ p. not (p.0 == (oldest w first iter).0)) (first ∷ iter);
          cache_max = cache_max;
        })
    evict_over first iter cache_max bounded coherent =
        let q = λ (p : Hash × CachedModule w). p.0 == (oldest w first iter).0 in
        let there = oldest-any q first iter (eq_refl ⦃e = Hash_eq⦄ (oldest w first iter).0) in
        let shorter = retain-lt q (first ∷ iter) there in
        (omega (arith, shorter), All-retain IsEntry (λ p. not (q p)) (first ∷ iter) coherent, refl)

    evict_lem :
        (cache : List (Hash × CachedModule w)) (cache_max : ℕ)
        → length cache ≤ suc cache_max
        → All IsEntry cache
        → (m' : WmLocal w) × (evict w (record { cache = cache; cache_max = cache_max })
            ≡ returns m')
          × HasRoom cache_max m'
    unfolding evict
    evict_lem [] cache_max bounded coherent =
        (record { cache = []; cache_max = cache_max }, ground arith, (omega arith, tt, refl))
    evict_lem (first ∷ iter) cache_max bounded coherent =
        elim (Bool-cases (ltb cache_max (suc (length iter)))) [
          | inl over ↦ (_, rw over refl, evict_over first iter cache_max (omega arith) coherent)
          | inr room ↦ (
            record { cache = first ∷ iter; cache_max = cache_max },
            rw room refl,
            (ground arith, coherent, refl),
          )
        ]

    touch-IsCoherent :
        (now : ℕ) (target : Hash) (l : List (Hash × CachedModule w))
        → All IsEntry l
        → All IsEntry
            (map (λ p. if p.0 == target then (p.0, record p.1 { last_used = now }) else p) l)
    touch-IsCoherent now target [] h = tt
    touch-IsCoherent now target (p ∷ l) h = elim (Bool-cases (p.0 == target)) [
      | inl same ↦ rw same (h.0, touch-IsCoherent now target l h.1)
      | inr other ↦ rw other (h.0, touch-IsCoherent now target l h.1)
    ]

    take_module_lem :
        (now : ℕ) (target : Hash) (m : WmLocal w)
        → IsCoherent m
        → is_some (find (λ p. p.0 == target) m.cache) ≡ true
        → take_module w x hex now target m ≡ returns (fetch w x hex db target, touch w now target m)
    unfolding take_module expect ◌>>=◌
    take_module_lem now target m coherent there =
        let (p, found, same, entry) =
          find_there IsEntry (λ p. p.0 == target) m.cache coherent there in
        let is_target : p.0 ≡ target = eq→≡ ⦃e = Hash_eq⦄ p.0 target same in
        let answer : ok p.1.module_ ≡ fetch w x hex db target =
          sym entry ∙ ap (fetch w x hex db) is_target in
        rw (found, answer) refl

    -- What is answered, and what is left: the cache is within its size and coherent.
    abbrev pub Serves : Hash → WmLocal w → Outcome (Result WasmError w.Module × WmLocal w) → Type 0
    Serves target m answer =
        (m' : WmLocal w) × (answer ≡ returns (fetch w x hex db target, m'))
        × IsBounded m'
        × IsCoherent m'
        × (m'.cache_max ≡ m.cache_max)

    take_module-Serves :
        (now : ℕ) (target : Hash) (m : WmLocal w)
        → IsBounded m
        → IsCoherent m
        → is_some (find (λ p. p.0 == target) m.cache) ≡ true
        → Serves target m (take_module w x hex now target m)
    unfolding touch
    take_module-Serves now target m bounded coherent there =
        let same_length =
          length-map m.cache
            (λ p. if p.0 == target then (p.0, record p.1 { last_used = now }) else p) in
        (
          touch w now target m,
          take_module_lem now target m coherent there,
          omega (arith, same_length, bounded),
          touch-IsCoherent now target m.cache coherent,
          refl,
        )

    -- After the eviction: the code is compiled and taken, or the error is told.
    abbrev pub finish_load :
        ℕ
        → Hash
        → WmLocal w
        → Result WasmError w.Module
        → Outcome (Result WasmError w.Module × WmLocal w)
    finish_load now target room (ok code) =
        take_module w x hex now target
          (insert_module w target (record { module_ = code; last_used = 0 }) room)
    finish_load now target room (err error) = returns (err error, room)

    finish_load-Serves :
        (now : ℕ) (target : Hash) (cache_max : ℕ) (room : WmLocal w) (r : Result WasmError w.Module)
        → fetch w x hex db target ≡ r
        → HasRoom cache_max room
        → Serves target room (finish_load now target room r)
    unfolding insert_module
    finish_load-Serves now target cache_max room (ok code) known (small, coherent, same) =
        let shorter = length-retain (λ p. not (p.0 == target)) room.cache in
        take_module-Serves now target
          (insert_module w target (record { module_ = code; last_used = 0 }) room)
          (omega (arith, shorter, small, same))
          (known, All-retain IsEntry (λ p. not (p.0 == target)) room.cache coherent)
          (rw (eq_refl ⦃e = Hash_eq⦄ target) refl)
    finish_load-Serves now target cache_max room (err error) known (small, coherent, same) =
        (room, rw known refl, omega (arith, small, same), coherent, refl)

    get_module-missing :
        (now : ℕ) (target : Hash) (m room : WmLocal w) (r : Result WasmError w.Module)
        → is_some (find (λ p. p.0 == target) m.cache) ≡ false
        → evict w m ≡ returns room
        → fetch w x hex db target ≡ r
        → get_module w x hex now db target m ≡ finish_load now target room r
    unfolding get_module load_module ◌>>=◌
    get_module-missing now target m room (ok code) missing evicted known =
        rw (missing, evicted, known) refl
    get_module-missing now target m room (err error) missing evicted known =
        rw (missing, evicted, known) refl

    pub get_module-Serves :
        (now : ℕ) (target : Hash) (m : WmLocal w)
        → IsBounded m
        → IsCoherent m
        → Serves target m (get_module w x hex now db target m)
    unfolding get_module
    get_module-Serves now target m bounded coherent =
        elim (Bool-cases (is_some (find (λ p. p.0 == target) m.cache))) [
          | inl there ↦ rw there (take_module-Serves now target m bounded coherent there)
          | inr missing ↦
              let (room, evicted, has_room) = evict_lem m.cache m.cache_max bounded coherent in
              let (m', served, bounded', coherent', same) =
                finish_load-Serves now target m.cache_max room _ refl has_room in
              (
                m',
                get_module-missing now target m room _ missing evicted refl ∙ served,
                bounded',
                coherent',
                same ∙ has_room.2,
              )
        ]
