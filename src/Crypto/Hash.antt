-- ===== src/Crypto/Hash.antt =====
-- trinci-core-new/src/crypto/hash.rs: the multihash, its constructors and its byte form, with the
-- length constants of consts.rs. A byte is a number below 256, and the 38-byte array is a list of
-- that length. SHA-256 itself is the parameter `digest` of `from_data`.
pub mod Laws
use trinci.Base.{
  ℕ, zero, suc, ◌+◌, ◌-◌, ◌≡◌, refl, List, [], ◌∷◌, String, Bool, true, arith, ltb, nat_eq,
  if◌then◌else◌, length, get_or, set, take, drop, replicate, list_eq, list_eq_iff, PartialEq, ◌↔◌,
  ◌==◌, ℕ_eq, ap,
}
use trinci.Base.Result.{Result, ok, err, ◌>>=◌}

abbrev pub multihash_value_len_max : ℕ
multihash_value_len_max = 36

abbrev pub multihash_bytes_len_max : ℕ
multihash_bytes_len_max = 2 + multihash_value_len_max

abbrev pub multihash_type_identity : ℕ
multihash_type_identity = 0x00

abbrev pub multihash_type_sha256 : ℕ
multihash_type_sha256 = 0x12

-- The payloads of the first three come from other crates and are left out.
pub data CryptoError : Type 0 where
  crypto_alg_key_rejected crypto_alg_unspecified_error io_error : CryptoError
  malformed_data : String → CryptoError

pub data HashAlgorithm : Type 0 where
  identity sha256 : HashAlgorithm

pub record Hash : Type 0 where
  pub array : List ℕ

unfoldable pub hash_eq : Hash → Hash → Bool
hash_eq a b = list_eq a.array b.array

pub hash_eq_iff : (a b : Hash) → (hash_eq a b ≡ true) ↔ (a ≡ b)
unfolding hash_eq
hash_eq_iff a b = (
  λ h. ap (λ l. record { array = l }) ((list_eq_iff a.array b.array).0 h),
  λ h. (list_eq_iff a.array b.array).1 (ap (λ (x : Hash). x.array) h),
)

instance abbrev pub Hash_eq : PartialEq Hash
Hash_eq = record { eq = hash_eq; eq_iff = hash_eq_iff }

abbrev pub default : Hash
default = record { array = replicate multihash_bytes_len_max 0 }

-- `dst[..src.len()].copy_from_slice(src)`
pub overwrite : List ℕ → List ℕ → List ℕ
overwrite [] dst = dst
overwrite (b ∷ bs) [] = []
overwrite (b ∷ bs) (d ∷ ds) = b ∷ overwrite bs ds

-- `dst[i..i + src.len()].copy_from_slice(src)`
pub copy_at : ℕ → List ℕ → List ℕ → List ℕ
unfolding overwrite
copy_at zero src dst = overwrite src dst
copy_at (suc i) src [] = []
copy_at (suc i) src (d ∷ ds) = d ∷ copy_at i src ds

-- `u8::try_from`
abbrev to_u8 : ℕ → Result CryptoError ℕ
to_u8 n =
    if ltb n 256
    then ok n
    else err (malformed_data "out of range integral type conversion attempted")

abbrev pub algorithm_tag : HashAlgorithm → ℕ → Result CryptoError ℕ
algorithm_tag identity hash_len = ok multihash_type_identity
algorithm_tag sha256 hash_len =
    if ltb 32 hash_len
    then err (malformed_data "Hash length greater than 32 for SHA256")
    else ok multihash_type_sha256

unfoldable pub new : HashAlgorithm → List ℕ → Result CryptoError Hash
unfolding copy_at
new alg bytes =
    let hash_len = length bytes in
    if ltb multihash_value_len_max hash_len
    then err (malformed_data "Multihash length exceeded maximum (36)")
    else do
      hash_alg ← algorithm_tag alg hash_len
      len_byte ← to_u8 hash_len
      ok (record { array = copy_at 2 bytes (set (set default.array 0 hash_alg) 1 len_byte) })

abbrev tag_algorithm : ℕ → String → Result CryptoError HashAlgorithm
tag_algorithm tag message =
    if nat_eq tag multihash_type_identity
    then ok identity
    else if nat_eq tag multihash_type_sha256
    then ok sha256
    else err (malformed_data message)

-- The test on the length comes first, so the reads at 0 and 1 are in range.
unfoldable pub from_bytes : List ℕ → Result CryptoError Hash
from_bytes bytes =
    let bytes_len = length bytes in
    if ltb bytes_len 2
    then err (malformed_data "Multihash length lower than 2")
    else let hash_len = get_or bytes 1 0 in
      if nat_eq hash_len (bytes_len - 2)
      then (do
        alg ←
            tag_algorithm (get_or bytes 0 0)
              "Couldn't find hash algorithm from algorithm identifier byte"
        new alg (drop 2 bytes))
      else err (malformed_data "Multihash length and hash value length error ")

pub hash_size : Hash → ℕ
hash_size h = get_or h.array 1 0

pub size : Hash → ℕ
unfolding hash_size
size h = 2 + hash_size h

-- A slice of the array.
pub as_bytes : Hash → List ℕ
unfolding size
as_bytes h = take (size h) h.array

pub hash_algorithm : Hash → Result CryptoError HashAlgorithm
hash_algorithm h = tag_algorithm (get_or h.array 0 0) "Unexpected hash algorithm"

pub hash_value : Hash → List ℕ
hash_value h = drop 2 h.array

pub from_data : (List ℕ → List ℕ) → HashAlgorithm → List ℕ → Result CryptoError Hash
from_data digest identity bytes = new identity bytes
from_data digest sha256 bytes = new sha256 (digest bytes)
