-- ===== src/Services/Consensus/Retrieval.antt =====
-- consensus_service.rs: the thread that `check_old_block_proposals` starts for an old proposal, and
-- `retrieve_confirmations`. The response to each attempt is given from outside; `none` stands for an
-- error or a timeout of `send_req`.
use trinci.Base.{
  Bool-cases, sym, ap, ◌∙◌, Option-cases, false, not, lt→ltb, ℕ, zero, suc, ◌+◌, ◌≡◌, ◌<◌, refl,
  Option, none, some, List, [], ◌∷◌, ◌==◌, if◌then◌else◌, ltb, is_none, arith, inl, inr,
}
use trinci.Crypto.Hash.{Hash, Hash_eq}
use trinci.Artifacts.Models.{Chain, BlockProposal}
use trinci.Artifacts.Messages.{ThreadStep, deliver, Msg, Req, Res, Service}
use trinci.Consts.{max_req_attempts}

module _ ⦃c : Chain⦄ where
  open c use {Block, Confirmation, executable}

  abbrev pub Retrieved : Type 0
  Retrieved = List Confirmation × Option (Block × List Hash)

  -- A response with confirmations.
  abbrev pub given : Option (Res c) → Option Retrieved
  given (some (Res.get_confirmations (some confirmations) block)) = some (confirmations, block)
  given _ = none

  abbrev pub question : BlockProposal c → Req
  question p = Req.get_confirmations p.block_height p.block_hash (is_none p.block)

  -- The recursion over the attempts, on fuel: `none` where it runs out.
  unfoldable pub retrieve_confirmations :
      ℕ → (ℕ → Req → Option (Res c)) → ℕ → BlockProposal c → Option (Option Retrieved)
  retrieve_confirmations zero answer attempt p = none
  retrieve_confirmations (suc fuel) answer attempt p =
      let later = retrieve_confirmations fuel answer (attempt + 1) p in
      if ltb max_req_attempts attempt
      then some none
      else elim (given (answer attempt (question p))) [ none ↦ later | some r ↦ some (some r) ]

  -- What the thread then sends.
  unfoldable pub retrieval : BlockProposal c → Option Retrieved → List (ThreadStep c)
  retrieval p none = []
  retrieval p (some (confirmations, none)) =
      deliver Service.consensus_service (Msg.verify_confirmations none confirmations) ∷ []
  retrieval p (some (confirmations, some block)) =
      if not (executable.get_hash block.0 == p.block_hash)
      then deliver Service.block_service Msg.detected_possible_misalignment ∷ []
      else deliver Service.consensus_service (Msg.verify_confirmations (some block) confirmations)
        ∷ []

  -- The first of so many attempts, from one on, that gives confirmations.
  abbrev pub first_given : (ℕ → Option Retrieved) → ℕ → ℕ → Option Retrieved
  first_given attempts i zero = none
  first_given attempts i (suc n) = elim (attempts i) [
    | none ↦ first_given attempts (i + 1) n
    | some r ↦ some r
  ]

  first_given-none :
      (attempts : ℕ → Option Retrieved) (i n : ℕ)
      → attempts i ≡ none
      → first_given attempts i (suc n) ≡ first_given attempts (i + 1) n
  first_given-none attempts i n e = rw (first_given, e) refl

  first_given-some :
      (attempts : ℕ → Option Retrieved) (i n : ℕ) (r : Retrieved)
      → attempts i ≡ some r
      → first_given attempts i (suc n) ≡ some r
  first_given-some attempts i n r e = rw (first_given, e) refl

  retrieve_from :
      (fuel n i : ℕ) (answer : ℕ → Req → Option (Res c)) (p : BlockProposal c)
      → i + n ≡ 6
      → n < fuel
      → retrieve_confirmations fuel answer i p
        ≡ some (first_given (λ attempt. given (answer attempt (question p))) i n)
  unfolding retrieve_confirmations
  retrieve_from zero n i answer p e h = elim h [ ]
  retrieve_from (suc fuel) zero i answer p e h = rw (lt→ltb 5 i (omega arith)) refl
  retrieve_from (suc fuel) (suc n) i answer p e h =
      let attempts : ℕ → Option Retrieved = λ attempt. given (answer attempt (question p)) in
      let later = retrieve_from fuel n (i + 1) answer p (omega arith) (omega arith) in
      let go : ltb 5 i ≡ false = ground arith in
      elim (Option-cases (given (answer i (question p)))) [
        | inl absent ↦
            rw (go, absent) (later ∙ ap some (sym (first_given-none attempts i n absent)))
        | inr there ↦
            rw (go, there.1) (ap some (sym (first_given-some attempts i n there.0 there.1)))
      ]

  -- Seven rounds are always enough: the retrieval ends with the answer of the first of the six attempts
  -- that gives confirmations, and with nothing where none does.
  pub retrieve_confirmations_lem :
      (fuel : ℕ) (answer : ℕ → Req → Option (Res c)) (p : BlockProposal c)
      → 6 < fuel
      → retrieve_confirmations fuel answer 0 p
        ≡ some (first_given (λ attempt. given (answer attempt (question p))) 0 6)
  retrieve_confirmations_lem fuel answer p h = retrieve_from fuel 6 0 answer p refl h

  -- What a first message of the thread asks to verify.
  abbrev asked : List (ThreadStep c) → Option Retrieved
  asked (deliver service (Msg.verify_confirmations block confirmations) ∷ rest) =
      some (confirmations, block)
  asked _ = none

  asked-retrieval :
      (p : BlockProposal c) (r : Option Retrieved) (b : Block × List Hash) (xs : List Confirmation)
      → asked (retrieval p r) ≡ some (xs, some b)
      → (r ≡ some (xs, some b)) × (executable.get_hash b.0 ≡ p.block_hash)
  unfolding retrieval
  asked-retrieval p none b xs e = cc
  asked-retrieval p (some (ys, none)) b xs e = ground arith
  asked-retrieval p (some (ys, some d)) b xs e =
      elim (Bool-cases (executable.get_hash d.0 == p.block_hash)) [
        | inl same ↦
            let sent : some (ys, some d) ≡ some (xs, some b) = rw same at e in
            (
              sent,
              ground (arith, (Hash_eq.eq_iff (executable.get_hash d.0) p.block_hash).0 same, sent),
            )
        | inr other ↦ ground arith
      ]

  -- A block that the thread passes on for verification came with these confirmations in the response,
  -- and its hash is that of the proposal which the thread was started for.
  pub retrieval_lem :
      (p : BlockProposal c) (r : Option Retrieved) (b : Block × List Hash) (xs : List Confirmation)
      → retrieval p r
        ≡ deliver Service.consensus_service (Msg.verify_confirmations (some b) xs) ∷ []
      → (r ≡ some (xs, some b)) × (executable.get_hash b.0 ≡ p.block_hash)
  retrieval_lem p r b xs e = asked-retrieval p r b xs (ap asked e)
