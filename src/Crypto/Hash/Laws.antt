-- ===== src/Crypto/Hash/Laws.antt =====
-- The byte form of a multihash: `Hash::new`, `Hash::from_bytes` and `Hash::as_bytes`.
use trinci.Base.{
  ℕ, zero, suc, ◌+◌, ◌-◌, ◌≤◌, ◌≡◌, refl, List, [], ◌∷◌, ◌++◌, arith, nat_eq, length, take,
  replicate, take-append_length, length-append, length-replicate, ap, inl, inr, sym, ◌∙◌,
  Bool-cases, ◌↔◌,
}
use trinci.Base.Result.{ok}
use trinci.Crypto.Hash.{
  Hash, HashAlgorithm, identity, sha256, new, from_bytes, as_bytes, size, hash_algorithm,
  hash_value, overwrite, multihash_type_identity, multihash_type_sha256,
}

overwrite-replicate :
    (bytes : List ℕ) (n : ℕ)
    → length bytes ≤ n
    → overwrite bytes (replicate n 0) ≡ bytes ++ replicate (n - length bytes) 0
unfolding overwrite
overwrite-replicate [] n h = let e : n ≡ n - 0 = omega arith in ap (λ k. replicate k 0) e
overwrite-replicate (b ∷ bs) zero h = elim h [ ]
overwrite-replicate (b ∷ bs) (suc n) h =
    let e : n - length bs ≡ suc n - suc (length bs) = omega arith in
    ap (λ l. b ∷ l) (overwrite-replicate bs n (omega arith) ∙ ap (λ k. bs ++ replicate k 0) e)

abbrev pub tag : HashAlgorithm → ℕ
tag identity = multihash_type_identity
tag sha256 = multihash_type_sha256

abbrev pub limit : HashAlgorithm → ℕ
limit identity = 36
limit sha256 = 32

-- The array that `new` fills: tag, length, bytes and zeros.
abbrev pub filled : HashAlgorithm → List ℕ → Hash
filled alg bytes = record {
  array = tag alg ∷ length bytes ∷ bytes ++ replicate (36 - length bytes) 0;
}

new-eq :
    (alg : HashAlgorithm) (bytes : List ℕ)
    → length bytes ≤ limit alg
    → new alg bytes ≡ ok (filled alg bytes)
unfolding new
new-eq identity bytes h = ground (arith, overwrite-replicate bytes 36)
new-eq sha256 bytes h = ground (arith, overwrite-replicate bytes 36)

limit_of_new :
    (alg : HashAlgorithm) (bytes : List ℕ) (h : Hash)
    → new alg bytes ≡ ok h
    → length bytes ≤ limit alg
unfolding new
limit_of_new identity bytes h e = ground arith
limit_of_new sha256 bytes h e = ground arith

-- `new` succeeds exactly within the limit of its algorithm, 36 bytes or 32 for SHA-256, and then the
-- array holds the tag, the length, the bytes and zeros up to 38 places.
pub new_iff :
    (alg : HashAlgorithm) (bytes : List ℕ) (h : Hash)
    → (new alg bytes ≡ ok h) ↔ ((length bytes ≤ limit alg) × (h ≡ filled alg bytes))
new_iff alg bytes h = (
  λ e.
      let le : length bytes ≤ limit alg = limit_of_new alg bytes h e in
      (le, cc (new-eq alg bytes le)),
  λ p. new-eq alg bytes p.0 ∙ ap ok (sym p.1),
)

length-filled :
    (alg : HashAlgorithm) (bytes : List ℕ)
    → length bytes ≤ 36
    → length (filled alg bytes).array ≡ 38
length-filled alg bytes h = omega (
  arith,
  length-append bytes (replicate (36 - length bytes) 0),
  length-replicate {A = ℕ} (36 - length bytes) 0,
)

limit-le : (alg : HashAlgorithm) → limit alg ≤ 36
limit-le identity = omega arith
limit-le sha256 = omega arith

as_bytes-filled :
    (alg : HashAlgorithm) (bytes : List ℕ)
    → as_bytes (filled alg bytes) ≡ tag alg ∷ length bytes ∷ bytes
unfolding as_bytes
as_bytes-filled alg bytes =
    let e : 2 + length bytes ≡ suc (suc (length bytes)) = omega arith in
    rw e (
      ap (λ l. tag alg ∷ length bytes ∷ l)
        (take-append_length bytes (replicate (36 - length bytes) 0)))

from_bytes-tagged :
    (alg : HashAlgorithm) (bytes : List ℕ)
    → from_bytes (tag alg ∷ length bytes ∷ bytes) ≡ new alg bytes
unfolding from_bytes
from_bytes-tagged identity bytes = ground arith
from_bytes-tagged sha256 bytes = ground arith

-- Reading back the bytes of any hash that `new` has made gives the same hash.
pub from_bytes-as_bytes :
    (alg : HashAlgorithm) (bytes : List ℕ) (h : Hash)
    → new alg bytes ≡ ok h
    → from_bytes (as_bytes h) ≡ ok h
from_bytes-as_bytes alg bytes h e =
    let p = (new_iff alg bytes h).0 e in
    cc (ap as_bytes p.1, as_bytes-filled alg bytes, from_bytes-tagged alg bytes)

-- What `from_bytes` accepts is a tag, the length of the value, and the value.
from_bytes-eq-ok :
    (bs : List ℕ) (h : Hash)
    → from_bytes bs ≡ ok h
    → (alg : HashAlgorithm) × (bytes : List ℕ) × (bs ≡ tag alg ∷ length bytes ∷ bytes)
      × (new alg bytes ≡ ok h)
unfolding from_bytes
from_bytes-eq-ok [] h e = cc
from_bytes-eq-ok (t ∷ []) h e = ground arith
from_bytes-eq-ok (t ∷ l ∷ rest) h e = elim (Bool-cases (nat_eq t 0)) [
  | inl is_identity ↦ (identity, rest, ground arith, ground arith)
  | inr other ↦ (sha256, rest, ground arith, ground arith)
]

-- The bytes that `from_bytes` accepts are the bytes of the hash that it returns.
pub as_bytes-from_bytes : (bs : List ℕ) (h : Hash) → from_bytes bs ≡ ok h → as_bytes h ≡ bs
as_bytes-from_bytes bs h e =
    let (alg, bytes, shape, made) = from_bytes-eq-ok bs h e in
    let p = (new_iff alg bytes h).0 made in cc (ap as_bytes p.1, as_bytes-filled alg bytes)

abbrev pub IsLaidOut : HashAlgorithm → List ℕ → Hash → Type 0
IsLaidOut alg bytes h =
    (length h.array ≡ 38)
    × (size h ≡ 2 + length bytes)
    × (size h ≤ 38)
    × (hash_algorithm h ≡ ok alg)
    × (take (length bytes) (hash_value h) ≡ bytes)

hash_algorithm-filled :
    (alg : HashAlgorithm) (bytes : List ℕ) → hash_algorithm (filled alg bytes) ≡ ok alg
unfolding hash_algorithm
hash_algorithm-filled identity bytes = refl
hash_algorithm-filled sha256 bytes = refl

filled-IsLaidOut :
    (alg : HashAlgorithm) (bytes : List ℕ)
    → length bytes ≤ 36
    → IsLaidOut alg bytes (filled alg bytes)
unfolding size hash_value
filled-IsLaidOut alg bytes le = (
  length-filled alg bytes le,
  refl,
  omega arith,
  hash_algorithm-filled alg bytes,
  take-append_length bytes (replicate (36 - length bytes) 0),
)

-- A hash that `new` has made fills the array of 38 bytes, its size is two more than the number of
-- bytes and lies within the array, and its algorithm and, in front of the value, the bytes can be
-- read from it.
pub new-IsLaidOut :
    (alg : HashAlgorithm) (bytes : List ℕ) (h : Hash) → new alg bytes ≡ ok h → IsLaidOut alg bytes h
new-IsLaidOut alg bytes h e =
    let (short, shape) = (new_iff alg bytes h).0 e in
    rw shape (filled-IsLaidOut alg bytes (omega (arith, limit-le alg)))
