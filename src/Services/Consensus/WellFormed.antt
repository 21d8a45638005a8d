-- ===== src/Services/Consensus/WellFormed.antt =====
-- The cache of proposals: one entry for each height, and in each proposal a counter that is the number
-- of its confirmations.
use trinci.Base.{
  sym, subst, ℕ, ◌<◌, ◌≡◌, refl, Bool, false, Option, none, some, List, [], ◌∷◌, ◌==◌, ℕ_eq, length,
  length-append, All, retain, leb, arith, Bool-cases, inl, inr,
}
use trinci.Crypto.Hash.{Hash}
use trinci.Artifacts.Models.{Chain, BlockProposal}
use trinci.Services.Consensus.State.{ConsensusService, BlockProposals}
use trinci.Services.Consensus.Proposals.{
  Key, add_confirmation, add_confirmations, update_at_height, update_heights, proposals_at,
}
use trinci.Services.Consensus.Rounds.{
  refresh, check_old_proposal, is_old, insert_by_count, sort_by_count, find_round, put_at,
  check_old_proposals,
}

module _ ⦃c : Chain⦄ where
  open c use {Block, Confirmation}

  pub record IsCounted (height : ℕ) (p : BlockProposal c) : Type 0 where
    pub count : p.count ≡ length p.received_confirmations
    pub confirmed : 0 < p.count
    pub height_of : p.block_height ≡ height

  abbrev pub AreWellFormed : BlockProposals c → Type 0
  AreWellFormed [] = Unit
  AreWellFormed ((h, ps) ∷ rest) =
      All (IsCounted h) ps × (proposals_at h rest ≡ none) × AreWellFormed rest

  add_confirmation-IsCounted :
      (block : Option (Block × List Hash)) (x : Confirmation) (h : ℕ) (p : BlockProposal c)
      → IsCounted h p
      → IsCounted h (add_confirmation block x p)
  unfolding add_confirmation
  add_confirmation-IsCounted block x h p v =
      ground (arith, length-append p.received_confirmations (x ∷ []))

  add_confirmations-IsCounted :
      (block : Option (Block × List Hash)) (xs : List Confirmation) (h : ℕ) (p : BlockProposal c)
      → IsCounted h p
      → IsCounted h (add_confirmations block xs p)
  unfolding add_confirmations
  add_confirmations-IsCounted block [] h p v = v
  add_confirmations-IsCounted block (x ∷ xs) h p v =
      add_confirmations-IsCounted block xs h (add_confirmation block x p)
        (add_confirmation-IsCounted block x h p v)

  module _ (now : ℕ) (k : Key) (x : Confirmation) (xs : List Confirmation)
      (block : Option (Block × List Hash)) where
    update_at_height-IsCounted :
        (ps : List (BlockProposal c))
        → All (IsCounted k.block_height) ps
        → All (IsCounted k.block_height) (update_at_height now k (x ∷ xs) block ps)
    unfolding update_at_height
    update_at_height-IsCounted [] v = omega arith
    update_at_height-IsCounted (p ∷ ps) v = ground (
      arith,
      add_confirmations-IsCounted block (x ∷ xs) k.block_height p v.0,
      update_at_height-IsCounted ps v.1,
    )

    proposals_at-update_ne :
        (h : ℕ) (l : BlockProposals c)
        → (k.block_height == h) ≡ false
        → proposals_at h l ≡ none
        → proposals_at h (update_heights now k (x ∷ xs) block l) ≡ none
    unfolding update_heights
    proposals_at-update_ne h [] ne v = ground arith
    proposals_at-update_ne h ((j, ps) ∷ rest) ne v = ground (arith, proposals_at-update_ne h rest)

    pub update_heights-AreWellFormed :
        (l : BlockProposals c)
        → AreWellFormed l
        → AreWellFormed (update_heights now k (x ∷ xs) block l)
    unfolding update_heights
    update_heights-AreWellFormed [] v = ((omega arith, tt), refl, tt)
    update_heights-AreWellFormed ((h, ps) ∷ rest) v = elim (Bool-cases (h == k.block_height)) [
      | inl at ↦
          let same : h ≡ k.block_height = ground arith in
          rw at (
            rw same (update_at_height-IsCounted ps (subst (λ j. All (IsCounted j) ps) same v.0)),
            v.1,
            v.2,
          )
      | inr other ↦ rw other (
        v.0,
        ground (arith, proposals_at-update_ne h rest),
        update_heights-AreWellFormed rest v.2,
      )
    ]

  pub insert_by_count-All :
      (P : BlockProposal c → Type 0) (p : BlockProposal c) (ps : List (BlockProposal c))
      → P p
      → All P ps
      → All P (insert_by_count p ps)
  unfolding insert_by_count
  insert_by_count-All P p [] v vs = (v, tt)
  insert_by_count-All P p (q ∷ qs) v vs = elim (Bool-cases (leb q.count p.count)) [
    | inl e ↦ rw e (v, vs)
    | inr e ↦ rw e (vs.0, insert_by_count-All P p qs v vs.1)
  ]

  pub sort_by_count-All :
      (P : BlockProposal c → Type 0) (ps : List (BlockProposal c))
      → All P ps
      → All P (sort_by_count ps)
  unfolding sort_by_count
  sort_by_count-All P [] vs = tt
  sort_by_count-All P (p ∷ ps) vs =
      insert_by_count-All P p (sort_by_count ps) vs.0 (sort_by_count-All P ps vs.1)

  pub retain-All :
      (P : BlockProposal c → Type 0) (keep : BlockProposal c → Bool) (ps : List (BlockProposal c))
      → All P ps
      → All P (retain keep ps)
  retain-All P keep [] vs = tt
  retain-All P keep (p ∷ ps) vs = elim (Bool-cases (keep p)) [
    | inl e ↦ rw e (vs.0, retain-All P keep ps vs.1)
    | inr e ↦ rw e (retain-All P keep ps vs.1)
  ]

  pub proposals_at-All :
      (h : ℕ) (l : BlockProposals c) (ps : List (BlockProposal c))
      → AreWellFormed l
      → proposals_at h l ≡ some ps
      → All (IsCounted h) ps
  proposals_at-All h [] ps v e = cc
  proposals_at-All h ((j, qs) ∷ rest) ps v e = elim (Bool-cases (j == h)) [
    | inl at ↦
        let same : j ≡ h = ground arith in
        let found : qs ≡ ps = ground arith in
        subst (λ i. All (IsCounted i) ps) same (subst (λ l. All (IsCounted j) l) found v.0)
    | inr other ↦ proposals_at-All h rest ps v.2 (rw other at e)
  ]

  proposals_at-retain :
      (h : ℕ) (keep : ℕ × List (BlockProposal c) → Bool) (l : BlockProposals c)
      → proposals_at h l ≡ none
      → proposals_at h (retain keep l) ≡ none
  proposals_at-retain h keep [] v = v
  proposals_at-retain h keep ((j, qs) ∷ rest) v = ground (arith, proposals_at-retain h keep rest)

  pub retain-AreWellFormed :
      (keep : ℕ × List (BlockProposal c) → Bool) (l : BlockProposals c)
      → AreWellFormed l
      → AreWellFormed (retain keep l)
  retain-AreWellFormed keep [] v = tt
  retain-AreWellFormed keep ((j, qs) ∷ rest) v = elim (Bool-cases (keep (j, qs))) [
    | inl e ↦ rw e (v.0, proposals_at-retain j keep rest v.1, retain-AreWellFormed keep rest v.2)
    | inr e ↦ rw e (retain-AreWellFormed keep rest v.2)
  ]

  proposals_at-put_at :
      (h j : ℕ) (new : List (BlockProposal c)) (l : BlockProposals c)
      → proposals_at h l ≡ none
      → proposals_at h (put_at j new l) ≡ none
  unfolding put_at
  proposals_at-put_at h j new [] v = v
  proposals_at-put_at h j new ((i, qs) ∷ rest) v = ground (arith, proposals_at-put_at h j new rest)

  pub put_at-AreWellFormed :
      (j : ℕ) (new : List (BlockProposal c)) (l : BlockProposals c)
      → All (IsCounted j) new
      → AreWellFormed l
      → AreWellFormed (put_at j new l)
  unfolding put_at
  put_at-AreWellFormed j new [] n v = tt
  put_at-AreWellFormed j new ((i, qs) ∷ rest) n v = elim (Bool-cases (i == j)) [
    | inl at ↦
        let same : i ≡ j = ground arith in
        rw at (subst (λ k. All (IsCounted k) new) (sym same) n, v.1, v.2)
    | inr other ↦
        rw other (v.0, proposals_at-put_at i j new rest v.1, put_at-AreWellFormed j new rest n v.2)
  ]

  proposals_at-find_round :
      (h j r : ℕ) (l : BlockProposals c)
      → proposals_at h l ≡ none
      → proposals_at h (find_round j r l).0 ≡ none
  unfolding find_round
  proposals_at-find_round h j r [] v = v
  proposals_at-find_round h j r ((i, qs) ∷ rest) v =
      ground (arith, proposals_at-find_round h j r rest)

  pub find_round-AreWellFormed :
      (j r : ℕ) (l : BlockProposals c) → AreWellFormed l → AreWellFormed (find_round j r l).0
  unfolding find_round
  find_round-AreWellFormed j r [] v = tt
  find_round-AreWellFormed j r ((i, qs) ∷ rest) v =
      let sorted : All (IsCounted i) (sort_by_count qs) = sort_by_count-All (IsCounted i) qs v.0 in
      let later = find_round-AreWellFormed j r rest v.2 in
      let absent = proposals_at-find_round i j r rest v.1 in ground arith

  pub check_old_proposals-All :
      (now h : ℕ) (ps : List (BlockProposal c)) (s : ConsensusService c)
      → All (IsCounted h) ps
      → All (IsCounted h) (check_old_proposals now ps s).0
  unfolding check_old_proposals
  check_old_proposals-All now h [] s v = tt
  check_old_proposals-All now h (p ∷ ps) s v = elim (Bool-cases (is_old now p)) [
    | inl e ↦ rw e (
      record { count = v.0.count; confirmed = v.0.confirmed; height_of = v.0.height_of },
      check_old_proposals-All now h ps (check_old_proposal (refresh now p) s) v.1,
    )
    | inr e ↦ rw e (v.0, check_old_proposals-All now h ps s v.1)
  ]
