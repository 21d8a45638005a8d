-- ===== src/Services/Blocks/Tally.antt =====
-- The candidates of `best_last_block`, against the responses that they count.
use trinci.Base.{
  append_assoc, append_nil, subst, if_cases, Bool-cases, inl, inr, ◌⊎◌, true, false, ◌≡◌, refl, sym,
  ap, ◌∙◌, List, [], ◌∷◌, ◌++◌, ◌==◌, if◌then◌else◌, All, retain, map, some, String, eq_refl, arith,
  ℕ_eq,
}
use trinci.Artifacts.Messages.{BlockInfo}
use trinci.Services.Blocks.Alignment.{
  BlockInfo_eq, Candidate, add_candidate, key_leb, max_by_key, max_from,
}

-- A response: the last block of a neighbour.
abbrev pub Vote : Type 0
Vote = BlockInfo × String

-- The neighbours that gave this block, in the order of their responses.
abbrev pub supporters : BlockInfo → List Vote → List String
supporters i votes = map (λ v. v.1) (retain (λ v. v.0 == i) votes)

unfoldable pub tally : List Vote → List Candidate → List Candidate
unfolding add_candidate
tally [] candidates = candidates
tally ((i, n) ∷ votes) candidates = tally votes (add_candidate i n candidates)

abbrev peers_of : BlockInfo → List Candidate → List String
peers_of i [] = []
peers_of i ((j, peers) ∷ rest) = if j == i then peers else peers_of i rest

-- A map has one entry for a key.
abbrev IsKeyed : List Candidate → Type 0
IsKeyed [] = Unit
IsKeyed ((i, peers) ∷ rest) = All (λ e. (i == e.0) ≡ false) rest × IsKeyed rest

peers_of-add :
    (i j : BlockInfo) (n : String) (l : List Candidate)
    → peers_of j (add_candidate i n l) ≡ (if i == j then peers_of j l ++ n ∷ [] else peers_of j l)
unfolding add_candidate
peers_of-add i j n [] = refl
peers_of-add i j n ((k, peers) ∷ rest) = ground (
  arith,
  peers_of-add i j n rest,
  BlockInfo_eq.eq_iff k i,
  BlockInfo_eq.eq_iff k j,
  BlockInfo_eq.eq_iff i j,
)

absent-add :
    (i k : BlockInfo) (n : String) (l : List Candidate)
    → (k == i) ≡ false
    → All (λ e. (k == e.0) ≡ false) l
    → All (λ e. (k == e.0) ≡ false) (add_candidate i n l)
unfolding add_candidate
absent-add i k n [] h a = (h, tt)
absent-add i k n ((j, peers) ∷ rest) h a =
    if_cases (All (λ e. (k == e.0) ≡ false)) (j == i) _ _ (λ _. a)
      (λ _. (a.0, absent-add i k n rest h a.1))

add-IsKeyed :
    (i : BlockInfo) (n : String) (l : List Candidate) → IsKeyed l → IsKeyed (add_candidate i n l)
unfolding add_candidate
add-IsKeyed i n [] h = (tt, tt)
add-IsKeyed i n ((j, peers) ∷ rest) h =
    if_cases IsKeyed (j == i) _ _ (λ _. h)
      (λ other. (absent-add i j n rest other h.0, add-IsKeyed i n rest h.1))

tally-IsKeyed : (votes : List Vote) (l : List Candidate) → IsKeyed l → IsKeyed (tally votes l)
unfolding tally
tally-IsKeyed [] l h = h
tally-IsKeyed ((i, n) ∷ votes) l h = tally-IsKeyed votes _ (add-IsKeyed i n l h)

peers_of-tally :
    (j : BlockInfo) (votes : List Vote) (l : List Candidate)
    → peers_of j (tally votes l) ≡ peers_of j l ++ supporters j votes
unfolding tally
peers_of-tally j [] l = append_nil (peers_of j l)
peers_of-tally j ((i, n) ∷ votes) l = elim (Bool-cases (i == j)) [
  | inl same ↦
      peers_of-tally j votes (add_candidate i n l)
      ∙ ap (λ p. p ++ supporters j votes) (peers_of-add i j n l)
      ∙ rw same (append_assoc (peers_of j l) (n ∷ []) (supporters j votes))
  | inr other ↦
      peers_of-tally j votes (add_candidate i n l)
      ∙ ap (λ p. p ++ supporters j votes) (peers_of-add i j n l)
      ∙ rw other refl
]

keyed-cons :
    (i : BlockInfo) (peers : List String) (rest l : List Candidate)
    → All (λ e. (i == e.0) ≡ false) l
    → All (λ e. peers_of e.0 rest ≡ e.1) l
    → All (λ e. peers_of e.0 ((i, peers) ∷ rest) ≡ e.1) l
keyed-cons i peers rest [] a b = tt
keyed-cons i peers rest (e ∷ l) a b = (rw a.0 b.0, keyed-cons i peers rest l a.1 b.1)

keyed-All : (l : List Candidate) → IsKeyed l → All (λ e. peers_of e.0 l ≡ e.1) l
keyed-All [] h = tt
keyed-All ((i, peers) ∷ rest) h =
    (rw (eq_refl i) refl, keyed-cons i peers rest rest h.0 (keyed-All rest h.1))

max_from-All :
    (P : Candidate → Type 0) (best : Candidate) (l : List Candidate)
    → P best
    → All P l
    → P (max_from best l)
unfolding max_from
max_from-All P best [] h a = h
max_from-All P best (x ∷ l) h a =
    max_from-All P (if key_leb best x then x else best) l
      (if_cases P (key_leb best x) x best (λ _. a.0) (λ _. h)) a.1

key_leb_trans : (x y z : Candidate) → key_leb x y ≡ true → key_leb y z ≡ true → key_leb x z ≡ true
key_leb_trans x y z h k = ground arith

key_leb_total : (x y : Candidate) → key_leb x y ≡ false → key_leb y x ≡ true
key_leb_total x y h = ground arith

-- The maximum is above what it starts from and all that follow.
max_from-above :
    (best : Candidate) (l : List Candidate)
    → (key_leb best (max_from best l) ≡ true) × All (λ x. key_leb x (max_from best l) ≡ true) l
unfolding max_from
max_from-above best [] = (ground arith, tt)
max_from-above best (x ∷ l) =
    if_cases
      (λ b.
        (key_leb best (max_from b l) ≡ true)
        × ((key_leb x (max_from b l) ≡ true) × All (λ y. key_leb y (max_from b l) ≡ true) l))
      (key_leb best x) x best
      (λ up.
        let (above, rest) = max_from-above x l in
        (key_leb_trans best x (max_from x l) up above, (above, rest)))
      (λ down.
        let (above, rest) = max_from-above best l in
        (above, (key_leb_trans x best (max_from best l) (key_leb_total best x down) above, rest)))

best-peers_of :
    (best : Candidate) (j : BlockInfo) (l : List Candidate)
    → All (λ x. key_leb x best ≡ true) l
    → (peers_of j l ≡ []) ⊎ (key_leb (j, peers_of j l) best ≡ true)
best-peers_of best j [] a = inl refl
best-peers_of best j ((i, peers) ∷ rest) a = elim (Bool-cases (i == j)) [
  | inl same ↦ let e : i ≡ j = (BlockInfo_eq.eq_iff i j).0 same in rw same (inr (rw (← e) a.0))
  | inr other ↦ rw other (best-peers_of best j rest a.1)
]

max_by_key-best :
    (l : List Candidate) (x : Candidate)
    → IsKeyed l
    → max_by_key l ≡ some x
    → (peers_of x.0 l ≡ x.1) × All (λ y. key_leb y x ≡ true) l
unfolding max_by_key
max_by_key-best [] x h e = cc
max_by_key-best (y ∷ l) x h e =
    let same : max_from y l ≡ x = cc in
    let kept = keyed-All (y ∷ l) h in
    (
      subst (λ b. peers_of b.0 (y ∷ l) ≡ b.1) same
          (max_from-All (λ b. peers_of b.0 (y ∷ l) ≡ b.1) y l kept.0 kept.1),
      subst (λ b. All (λ z. key_leb z b ≡ true) (y ∷ l)) same (max_from-above y l),
    )

-- The greatest candidate is a block with all its supporters, and every block that anyone gave has
-- fewer, or as many and no greater height.
pub max_by_key-tally :
    (votes : List Vote) (x : Candidate)
    → max_by_key (tally votes []) ≡ some x
    → (x.1 ≡ supporters x.0 votes)
      × ((j : BlockInfo) → (supporters j votes ≡ []) ⊎ (key_leb (j, supporters j votes) x ≡ true))
max_by_key-tally votes x e =
    let (own, above) = max_by_key-best (tally votes []) x (tally-IsKeyed votes [] tt) e in
    (
      sym own ∙ peers_of-tally x.0 votes [],
      λ j.
          subst (λ p. (p ≡ []) ⊎ (key_leb (j, p) x ≡ true)) (peers_of-tally j votes [])
            (best-peers_of x j (tally votes []) above),
    )
