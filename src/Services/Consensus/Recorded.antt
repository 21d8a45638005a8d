-- ===== src/Services/Consensus/Recorded.antt =====
-- What `update_proposals` records, and the lookups after it.
use trinci.Crypto.Hash.{Hash_eq}
use trinci.Base.{
  sym, subst, if_cases, is_none, ◌&&◌, ℕ_eq, if◌then◌else◌, ltb, leb, ◌==◌, eq_refl, find,
  Bool-cases, contains, refl, [], ◌∷◌, List, ℕ, none, some, Option, Bool, true, false, ◌≡◌, ◌||◌,
  ◌++◌, arith, inl, inr,
}
use trinci.Base.Outcome.{Returns, ◌>>=◌}
use trinci.Artifacts.Models.{new_proposal, BlockProposal, Chain}
use trinci.Crypto.Hash.{Hash}
use trinci.Services.Consensus.Proposals.{
  decide_quorum, verify_block_proposal_quorum, update_proposals, update_heights, same_proposal,
  key_of, find_proposal, update_at_height, add_confirmations, add_confirmation, Key,
}
use trinci.Services.Consensus.State.{World, emit, ConsensusService, set_proposals, BlockProposals}
use trinci.Services.Consensus.Handlers.{
  quorum_unless_consolidating, on_block_confirmation_from_peer,
}
use trinci.Base.Words.{wrapping_add}

module _ ⦃c : Chain⦄ where
  open c use {Block, Confirmation, confirmable}

  abbrev known : List Confirmation → Confirmation → Bool
  known xs x = contains ⦃e = c.confirmation_eq⦄ xs x

  known-append :
      (xs ys : List Confirmation) (x : Confirmation)
      → known (xs ++ ys) x ≡ (known xs x || known ys x)
  known-append [] ys x = refl
  known-append (y ∷ xs) ys x = ground (arith, known-append xs ys x)

  -- The proposal of a hash and a round is in the list, with a confirmation.
  pub record HasConfirmation (hash : Hash) (r : ℕ) (x : Confirmation) (p : BlockProposal c)
      : Type 0 where
    pub same : same_proposal hash r p ≡ true
    pub confirmed : known p.received_confirmations x ≡ true

  module _ (b : Option (Block × List Hash)) (hash : Hash) (r : ℕ) (x : Confirmation) where
    add_confirmation-new :
        (p : BlockProposal c)
        → same_proposal hash r p ≡ true
        → HasConfirmation hash r x (add_confirmation b x p)
    unfolding add_confirmation
    add_confirmation-new p e = elim (Bool-cases (known p.received_confirmations x)) [
      | inl old ↦ record { same = e; confirmed = rw old old }
      | inr new ↦ record {
        same = e;
        confirmed = rw new (
            ground (
              arith,
              known-append p.received_confirmations (x ∷ []) x,
              eq_refl ⦃e = c.confirmation_eq⦄ x,
            ));
      }
    ]

    add_confirmation-kept :
        (y : Confirmation) (p : BlockProposal c)
        → HasConfirmation hash r x p
        → HasConfirmation hash r x (add_confirmation b y p)
    unfolding add_confirmation
    add_confirmation-kept y p v = elim (Bool-cases (known p.received_confirmations y)) [
      | inl old ↦ record { same = v.same; confirmed = rw old v.confirmed }
      | inr new ↦ record {
        same = v.same;
        confirmed =
            rw new (ground (arith, known-append p.received_confirmations (y ∷ []) x, v.confirmed));
      }
    ]

    add_confirmations-kept :
        (ys : List Confirmation) (p : BlockProposal c)
        → HasConfirmation hash r x p
        → HasConfirmation hash r x (add_confirmations b ys p)
    unfolding add_confirmations
    add_confirmations-kept [] p v = v
    add_confirmations-kept (y ∷ ys) p v =
        add_confirmations-kept ys (add_confirmation b y p) (add_confirmation-kept y p v)

  abbrev pub Recorded : Hash → ℕ → ℕ → Confirmation → BlockProposals c → Type 0
  Recorded hash h r x l =
      (p : BlockProposal c) × (find_proposal hash h r l ≡ some p) × HasConfirmation hash r x p

  module _ (now : ℕ) (x : Confirmation) (xs : List Confirmation)
      (b : Option (Block × List Hash)) where
    abbrev key : Key
    key = key_of c x

    added :
        (p : BlockProposal c)
        → same_proposal key.block_hash key.block_round p ≡ true
        → HasConfirmation key.block_hash key.block_round x (add_confirmations b (x ∷ xs) p)
    unfolding add_confirmations
    added p e =
        add_confirmations-kept b key.block_hash key.block_round x xs (add_confirmation b x p)
          (add_confirmation-new b key.block_hash key.block_round x p e)

    update_at_height-finds :
        (ps : List (BlockProposal c))
        → (p : BlockProposal c) × (find
              (same_proposal key.block_hash key.block_round)
              (update_at_height now key (x ∷ xs) b ps)
            ≡ some p)
          × HasConfirmation key.block_hash key.block_round x p
    unfolding update_at_height
    update_at_height-finds [] =
        let hash_same = eq_refl ⦃e = Hash_eq⦄ key.block_hash in
        let round_same = eq_refl ⦃e = ℕ_eq⦄ key.block_round in
        (
          new_proposal now b key.block_hash key.block_height (x ∷ xs) key.block_round,
          rw (hash_same, round_same) refl,
          record {
            same = rw (hash_same, round_same) refl;
            confirmed = rw (eq_refl ⦃e = c.confirmation_eq⦄ x) refl;
          },
        )
    update_at_height-finds (p ∷ ps) =
        elim (Bool-cases (same_proposal key.block_hash key.block_round p)) [
          | inl this ↦
              let v = added p this in (add_confirmations b (x ∷ xs) p, rw (this, v.same) refl, v)
          | inr other ↦
              let (q, at, v) = update_at_height-finds ps in (q, rw (other, other, at) refl, v)
        ]

    update_heights-Recorded :
        (l : BlockProposals c)
        → Recorded key.block_hash key.block_height key.block_round x
            (update_heights now key (x ∷ xs) b l)
    unfolding update_heights find_proposal update_at_height
    update_heights-Recorded [] =
        let (q, at, v) = update_at_height-finds [] in
        (q, rw (find_proposal, eq_refl ⦃e = ℕ_eq⦄ key.block_height) at, v)
    update_heights-Recorded ((h, ps) ∷ rest) = elim (Bool-cases (h == key.block_height)) [
      | inl here ↦
          let (q, at, v) = update_at_height-finds ps in (q, rw (here, find_proposal, here) at, v)
      | inr there ↦
          let (q, at, v) = update_heights-Recorded rest in
          (q, rw (there, find_proposal, there) at, v)
    ]

    -- Where there is a confirmation, `update_proposals` returns, and the lookup by the hash, the height
    -- and the round of the first one finds a proposal that lists it.
    pub update_proposals-Recorded :
        (s : ConsensusService c)
        → Returns
            (update_proposals now (x ∷ xs) b s)
            (λ t. Recorded key.block_hash key.block_height key.block_round x t.block_proposals)
    unfolding update_proposals ◌>>=◌ set_proposals
    update_proposals-Recorded s = (_, refl, update_heights-Recorded s.block_proposals)

  decide_quorum-proposals :
      (h : ℕ) (p : BlockProposal c) (found : Option (Block × List Hash)) (s : ConsensusService c)
      → let o : ConsensusService c × Bool = elim found [
        | none ↦ (s, false)
        | some b ↦ decide_quorum h p b s
      ] in
        o.0.block_proposals ≡ s.block_proposals
  unfolding decide_quorum emit
  decide_quorum-proposals h p none s = refl
  decide_quorum-proposals h p (some b) s = ground arith

  -- The quorum test leaves the proposals alone, and it returns where the proposal is there.
  verify_block_proposal_quorum-returns :
      (hash : Hash) (h r : ℕ) (x : Confirmation) (s : ConsensusService c)
      → Recorded hash h r x s.block_proposals
      → Returns
          (verify_block_proposal_quorum hash h r s)
          (λ o. Recorded hash h r x o.0.block_proposals)
  unfolding verify_block_proposal_quorum ◌>>=◌
  verify_block_proposal_quorum-returns hash h r x s (p, found, v) =
      let o : ConsensusService c × Bool =
        if h == wrapping_add s.height 1
        then elim p.block [ none ↦ (s, false) | some b ↦ decide_quorum h p b s ]
        else (s, false) in
      let alone : o.0.block_proposals ≡ s.block_proposals =
        if_cases (λ (q : ConsensusService c × Bool). q.0.block_proposals ≡ s.block_proposals)
          (h == wrapping_add s.height 1) _ _ (λ next. decide_quorum-proposals h p p.block s)
          (λ other. refl) in
      (o, rw found refl, subst (Recorded hash h r x) (sym alone) (p, found, v))

  quorum_unless_consolidating-returns :
      (hash : Hash) (h r : ℕ) (x : Confirmation) (s : ConsensusService c)
      → Recorded hash h r x s.block_proposals
      → Returns
          (quorum_unless_consolidating hash h r s)
          (λ t. Recorded hash h r x t.block_proposals)
  unfolding quorum_unless_consolidating ◌>>=◌
  quorum_unless_consolidating-returns hash h r x s v =
      elim (Bool-cases (is_none s.consolidation_in_progress)) [
        | inl idle ↦
            let (o, done, w) = verify_block_proposal_quorum-returns hash h r x s v in
            (o.0, rw (idle, done) refl, w)
        | inr busy ↦ (s, rw busy refl, v)
      ]

  -- The guard of `BlockConfirmationFromPeer`: the round or the height is not behind, and the signature
  -- holds.
  abbrev pub is_accepted : Confirmation → ConsensusService c → Bool
  is_accepted x s =
      (leb s.actual_round (confirmable.get_block_round x)
        || ltb s.height (confirmable.get_block_height x))
      && confirmable.verify x

  -- A confirmation from a peer that passes the guard never makes the service panic, and afterwards the
  -- lookup by its hash, height and round finds a proposal that lists it.
  pub on_block_confirmation_from_peer-Recorded :
      (w : World c) (x : Confirmation) (s : ConsensusService c)
      → is_accepted x s ≡ true
      → Returns (on_block_confirmation_from_peer w x s) (λ t.
        Recorded
          (confirmable.get_block_hash x)
          (confirmable.get_block_height x)
          (confirmable.get_block_round x)
          x
          t.block_proposals)
  unfolding on_block_confirmation_from_peer ◌>>=◌
  on_block_confirmation_from_peer-Recorded w x s good =
      let (t, updated, v) = update_proposals-Recorded w.now x [] none s in
      let (u, tested, v') = quorum_unless_consolidating-returns _ _ _ x t v in
      (u, rw (good, updated) tested, v')
