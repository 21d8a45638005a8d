-- ===== src/Node/Host/Guest/Slice.antt =====
-- The slices of the memory of a contract.
use trinci.Base.{
  ℕ, ◌+◌, ◌-◌, ◌%◌, ◌^◌, ◌≤◌, ◌<◌, ◌≡◌, refl, sym, ap, ◌∙◌, Bool, true, false, ◌&&◌, inl, inr, leb,
  ltb, Option, some, List, arith, Bool-cases, drop, length, take,
}
use trinci.Node.Local.{sign_extended}
use trinci.Node.Host.Guest.{bytes_at}

-- A range that is in a memory of 32 bits is that of the numbers without their signs.
in_memory :
    (offset size bound : ℕ)
    → offset < 2 ^ 32
    → size < 2 ^ 32
    → bound ≤ 2 ^ 32
    → sign_extended offset ≤ (sign_extended offset + sign_extended size) % 2 ^ 64
    → (sign_extended offset + sign_extended size) % 2 ^ 64 ≤ bound
    → (sign_extended offset ≡ offset)
      × ((sign_extended offset + sign_extended size) % 2 ^ 64 ≡ offset + size)
unfolding sign_extended
in_memory offset size bound ho hs hb low high = elim (Bool-cases (ltb offset (2 ^ 31))) [
  | inl o ↦ elim (Bool-cases (ltb size (2 ^ 31))) [
    | inl s ↦ (rw o refl, rw (o, s) (omega arith))
    | inr s ↦ absurd (ground arith)
  ]
  | inr o ↦ absurd (ground arith)
]

both_hold : (a b : Bool) → (a && b) ≡ true → (a ≡ true) × (b ≡ true)
both_hold true b h = (refl, h)
both_hold false b h = absurd cc

-- For an address and a size of 32 bits and a memory of at most 2 ^ 32 bytes: the bytes that are read are those from
-- the address on, as many as the size says, and all of them are in the memory.
pub bytes_at_lem :
    (mem buf : List ℕ) (offset size : ℕ)
    → offset < 2 ^ 32
    → size < 2 ^ 32
    → length mem ≤ 2 ^ 32
    → bytes_at mem offset size ≡ some buf
    → (offset + size ≤ length mem) × (buf ≡ take size (drop offset mem))
unfolding bytes_at
bytes_at_lem mem buf offset size ho hs hb h =
    let start = sign_extended offset in
    let stop = (start + sign_extended size) % 2 ^ 64 in
    elim (Bool-cases (leb start stop && leb stop (length mem))) [
      | inr out ↦ absurd (cc (rw out at h))
      | inl inside ↦
          let (low, high) = both_hold (leb start stop) (leb stop (length mem)) inside in
          let (same_start, same_stop) =
            in_memory offset size (length mem) ho hs hb (ground (arith, low))
              (ground (arith, high)) in
          let read : Path (Option (List ℕ)) (some (take (stop - start) (drop start mem)))
              (some buf) =
            rw inside at h in
          let got : take (stop - start) (drop start mem) ≡ buf = cc in
          let width : stop - start ≡ size = omega (arith, same_start, same_stop) in
          (
            ground (arith, high, same_stop),
            sym got
                ∙ ap (λ n. take n (drop start mem)) width
                ∙ ap (λ n. take size (drop n mem)) same_start,
          )
    ]
