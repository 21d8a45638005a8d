-- ===== src/Node/Errors/Cut.antt =====
-- The cut of the texts of errors.
use Prim.Native.Char.{Char, len_utf8}
use Prim.Native.String
use Prim.Native.String.{◌++◌}
use Prim.Native.String.append
use Prim.Native.String.len
use text.Mathlib.TextPositions.{len-append}
use trinci.Base.{
  false, ℕ, ◌+◌, ◌-◌, ◌≤◌, ◌<◌, ◌≡◌, refl, sym, ap, ◌∙◌, ◌⊎◌, inl, inr, min, ◌==◌, ℕ_eq, leb,
  String, arith, Bool-cases, eq→≡,
}
use trinci.Base.Outcome.{Outcome, returns, panics, ◌>>=◌}
use trinci.Node.Errors.{format_error_string, take_bytes}

-- The text is a prefix, of this number of bytes.
abbrev pub IsCut : ℕ → String → Outcome String → Type 0
IsCut n s r = (t q : String) × (r ≡ returns t) × (s ≡ t ++ q) × (String.len t ≡ n)

-- The cut is inside the bytes of a character.
abbrev pub IsInside : ℕ → String → Outcome String → Type 0
IsInside n s r =
    (p : String) × (c : Char) × (q : String) × (r ≡ panics)
    × (s ≡ p ++ String.◌∷◌ c q)
    × (String.len p < n)
    × (n < String.len p + len_utf8 c)

added : (a n b : ℕ) → a ≤ n → b ≡ n - a → a + b ≡ n
added a n b h k = omega (arith, h, k)

positive : (n : ℕ) → (n == 0) ≡ false → 0 < n
positive n h = ground arith

cut_at : (s p c q : ℕ) → s ≡ p + (c + q) → min s 126 < p + c → 126 < p + c
cut_at s p c q h k = omega (arith, h, k)

take_bytes_lem :
    (s : String) (n : ℕ)
    → n ≤ String.len s
    → IsCut n s (take_bytes n s) ⊎ IsInside n s (take_bytes n s)
unfolding take_bytes ◌>>=◌
take_bytes_lem String.[] n h =
    let none_left : 0 ≡ n = omega (arith, h) in
    inl ("", "", refl, sym (append.nil ""), len.nil ∙ none_left)
take_bytes_lem (String.◌∷◌ c s) n h =
    let whole : String.len (String.◌∷◌ c s) ≡ len_utf8 c + String.len s = len.cons c s in
    elim (Bool-cases (n == 0)) [
      | inl zero ↦ inl (
        "",
        String.◌∷◌ c s,
        rw zero refl,
        sym (append.nil (String.◌∷◌ c s)),
        len.nil ∙ sym (eq→≡ n 0 zero),
      )
      | inr more ↦ elim (Bool-cases (leb (len_utf8 c) n)) [
        | inl fits ↦ elim (take_bytes_lem s (n - len_utf8 c) (omega (arith, whole, h))) [
          | inl (t, q, done, split, size) ↦ inl (
            String.◌∷◌ c t,
            q,
            rw (more, fits, done) refl,
            ap (λ r. String.◌∷◌ c r) split ∙ sym (append.cons c t q),
            len.cons c t ∙ added (len_utf8 c) n (String.len t) (ground (arith, fits)) size,
          )
          | inr (p, d, q, lost, split, before, after) ↦
              let longer : String.len (String.◌∷◌ c p) ≡ len_utf8 c + String.len p = len.cons c p in
              inr (
                String.◌∷◌ c p,
                d,
                q,
                rw (more, fits, lost) refl,
                ap (λ r. String.◌∷◌ c r) split ∙ sym (append.cons c p (String.◌∷◌ d q)),
                omega (arith, longer, before),
                omega (arith, longer, after),
              )
        ]
        | inr over ↦
            let empty : String.len "" ≡ 0 = len.nil in
            inr (
              "",
              c,
              s,
              rw (more, over) refl,
              sym (append.nil (String.◌∷◌ c s)),
              positive n more,
              ground (arith, empty, over),
            )
      ]
    ]

-- Whatever the text of an error is, it is cut to its first 126 bytes, or to all of them where it has fewer;
-- or a character has bytes on both sides of the cut at 126, and the cut panics.
pub format_error_string_lem :
    (s : String)
    → IsCut (min (String.len s) 126) s (format_error_string s)
      ⊎ IsInside 126 s (format_error_string s)
unfolding format_error_string
format_error_string_lem s = elim (take_bytes_lem s (min (String.len s) 126) (omega arith)) [
  | inl cut ↦ inl cut
  | inr (p, c, q, lost, split, before, after) ↦
      let whole : String.len s ≡ String.len p + String.len (String.◌∷◌ c q) =
        ap (λ r. String.len r) split ∙ len-append p (String.◌∷◌ c q) in
      let rest : String.len (String.◌∷◌ c q) ≡ len_utf8 c + String.len q = len.cons c q in
      inr (
        p,
        c,
        q,
        lost,
        split,
        omega (arith, before),
        cut_at (String.len s) (String.len p) (len_utf8 c) (String.len q)
            (whole ∙ ap (λ r. String.len p + r) rest) after,
      )
]
