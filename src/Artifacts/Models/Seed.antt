-- ===== src/Artifacts/Models/Seed.antt =====
-- trinci-core-new/src/artifacts/models.rs: `SeedSource`, which folds what the nodes share into the seed
-- of the draw. A byte is a number below 256; the name of the network is its bytes.
pub mod Total
use Prim.Native.Nat.{bit_xor}
use trinci.Base.{
  ℕ, zero, suc, ◌+◌, ◌-◌, ◌*◌, ◌/◌, ◌%◌, ◌^◌, max, List, [], ◌∷◌, ◌++◌, length, replicate, take,
  drop, ltb, nat_eq, if◌then◌else◌,
}
use trinci.Base.Outcome.{Outcome, returns, panics}
use trinci.Crypto.Hash.{Hash, as_bytes}

pub record SeedSource : Type 0 where
  pub nonce : List ℕ
  pub nw_name : List ℕ
  pub previous_seed : ℕ
  pub previous_block_hash : Hash
  pub txs_hash : Hash
  pub rxs_hash : Hash

-- `SeedSource::new`
abbrev pub new_source : List ℕ → List ℕ → Hash → Hash → Hash → SeedSource
new_source nonce nw_name previous_block_hash txs_hash rxs_hash = record {
  nonce = nonce;
  nw_name = nw_name;
  previous_seed = 0;
  previous_block_hash = previous_block_hash;
  txs_hash = txs_hash;
  rxs_hash = rxs_hash;
}

-- `zip` and `map` by the exclusive or.
unfoldable pub xor_bytes : List ℕ → List ℕ → List ℕ
xor_bytes [] ys = []
xor_bytes (x ∷ xs) [] = []
xor_bytes (x ∷ xs) (y ∷ ys) = bit_xor x y ∷ xor_bytes xs ys

-- A vector of zeros of this size, with the bytes copied to its front.
unfoldable pub padded : ℕ → List ℕ → List ℕ
padded size bytes = bytes ++ replicate (size - length bytes) 0

-- `chunks(8)`, on fuel.
unfoldable pub chunks : ℕ → List ℕ → List (List ℕ)
chunks zero xs = []
chunks (suc fuel) [] = []
chunks (suc fuel) (x ∷ xs) = take 8 (x ∷ xs) ∷ chunks fuel (drop 8 (x ∷ xs))

unfoldable pub xor_chunks : List ℕ → List (List ℕ) → List ℕ
xor_chunks vec_u64 [] = vec_u64
xor_chunks vec_u64 (element ∷ rest) = xor_chunks (xor_bytes vec_u64 element) rest

-- `usize::to_be_bytes`: so many digits to the base 256, the last ones of the number.
unfoldable pub to_be_bytes : ℕ → ℕ → List ℕ
to_be_bytes zero n = []
to_be_bytes (suc digits) n = (n / 256 ^ digits) % 256 ∷ to_be_bytes digits n

unfoldable pub from_be_bytes : List ℕ → ℕ
from_be_bytes [] = 0
from_be_bytes (b ∷ bytes) = b * 256 ^ length bytes + from_be_bytes bytes

-- The greatest of the five lengths.
abbrev pub max_length : SeedSource → ℕ
max_length s = max (length s.nonce) (
    max (length s.nw_name) (
      max (length (as_bytes s.previous_block_hash))
        (max (length (as_bytes s.txs_hash)) (length (as_bytes s.rxs_hash)))))

-- The exclusive or of the five vectors.
unfoldable pub mixed : SeedSource → List ℕ
mixed s =
    let size = max_length s in
    xor_bytes
      (xor_bytes
        (xor_bytes (xor_bytes (padded size s.nw_name) (padded size s.nonce))
          (padded size (as_bytes s.previous_block_hash)))
        (padded size (as_bytes s.txs_hash)))
      (padded size (as_bytes s.rxs_hash))

-- Zeros up to the next multiple of eight.
unfoldable pub filled_up : List ℕ → List ℕ
filled_up xs = if ltb 0 (length xs % 8) then xs ++ replicate (8 - length xs % 8) 0 else xs

-- The eight bytes of the seed.
unfoldable pub folded : SeedSource → List ℕ
folded s =
    let bytes = filled_up (mixed s) in
    xor_bytes (xor_chunks (replicate 8 0) (chunks (length bytes) bytes))
      (to_be_bytes 8 s.previous_seed)

-- The conversion into an array of eight bytes panics on another length.
unfoldable pub get_seed : SeedSource → Outcome ℕ
get_seed s = if nat_eq (length (folded s)) 8 then returns (from_be_bytes (folded s)) else panics
