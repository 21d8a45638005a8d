-- ===== src/Services/Blocks/Best.antt =====
-- `best_last_block`, against the responses of the neighbours.
use trinci.Base.{
  ◌+◌, sym, ◌∙◌, ap, inr, inl, Option-cases, true, ◌⊎◌, ℕ, ◌≡◌, refl, List, [], ◌∷◌, String,
}
use trinci.Base.Result.{Result, ok, err, ok-injective}
use trinci.Artifacts.Models.{Chain}
use trinci.Artifacts.Messages.{BlockInfo, Req, Res, Service}
use trinci.Services.Blocks.State.{
  ask, ◌>>=◌, CoreError, BlockService, CommError, Outside, continue, received,
}
use trinci.Services.Blocks.Alignment.{
  choose, key_leb, max_by_key, neighbors_in, best_last_block, Candidate, ask_neighbors, with_answer,
}
use trinci.Services.Blocks.Tally.{max_by_key-tally, supporters, Vote, tally}

module _ ⦃c : Chain⦄ (o : Outside c) where
  -- The block of a response to the request number `i`, where it is one, of a neighbour.
  abbrev pub vote_in : String → Result CommError (Res c) → List Vote → List Vote
  vote_in n (ok (Res.get_last_block_info info)) votes = (info, n) ∷ votes
  vote_in n _ votes = votes

  -- What each of the neighbours responds, one after another, from request number `i` on.
  unfoldable pub votes_of : ℕ → List String → List Vote
  votes_of i [] = []
  votes_of i (n ∷ ns) =
      vote_in n (o.response i Service.node_interface (Req.get_last_block_info n))
        (votes_of (i + 1) ns)

  counted :
      (n : String) (r : Result CommError (Res c)) (ns : List String) (l after : List Candidate)
      (s : BlockService c) (votes : List Vote)
      → ((l' : List Candidate) → (ask_neighbors o ns l' s).0 ≡ ok after → tally votes l' ≡ after)
      → (continue (received r, s) (λ answer. ask_neighbors o ns (with_answer answer n l))).0
        ≡ ok after
      → tally (vote_in n r votes) l ≡ after
  unfolding tally
  counted n (err e) ns l after s votes rec h = cc
  counted n (ok (Res.get_last_block_info info)) ns l after s votes rec h = rec _ h
  counted n (ok _) ns l after s votes rec h = rec l h

  ask_neighbors-tally :
      (ns : List String) (l after : List Candidate) (s : BlockService c)
      → (ask_neighbors o ns l s).0 ≡ ok after
      → tally (votes_of s.asked ns) l ≡ after
  unfolding ask_neighbors tally votes_of
  ask_neighbors-tally [] l after s h = ok-injective h
  ask_neighbors-tally (n ∷ ns) l after s h =
      counted n _ ns l after (record s { asked = s.asked + 1 }) (votes_of (s.asked + 1) ns)
        (λ l' h'. ask_neighbors-tally ns l' after (record s { asked = s.asked + 1 }) h') h

  -- The choice among the responses of all neighbours, to the requests after that for the neighbours.
  pub record IsChosen (asked h : ℕ) (peers : List String) : Type 0 where
    pub answer : Res c
    pub votes : List Vote
    pub info : BlockInfo
    pub neighbors : o.response asked Service.node_interface Req.get_neighbors ≡ ok answer
    pub responded : votes ≡ votes_of (asked + 1) (neighbors_in answer)
    pub height : h ≡ info.height
    pub trusted : peers ≡ supporters info votes
    pub greatest :
        (j : BlockInfo)
        → (supporters j votes ≡ []) ⊎ (key_leb (j, supporters j votes) (info, peers) ≡ true)

  IsChosen-of :
      (asked : ℕ) (answer : Res c) (r : Result CoreError (List Candidate) × BlockService c) (h : ℕ)
      (peers : List String)
      → o.response asked Service.node_interface Req.get_neighbors ≡ ok answer
      → ((l : List Candidate)
          → r.0 ≡ ok l
          → tally (votes_of (asked + 1) (neighbors_in answer)) [] ≡ l)
      → (continue r choose).0 ≡ ok (h, peers)
      → IsChosen asked h peers
  unfolding choose
  IsChosen-of asked answer (err e, s) h peers given t q = cc
  IsChosen-of asked answer (ok l, s) h peers given t q = elim (Option-cases (max_by_key l)) [
    | inl nothing ↦ let q' = rw nothing at q in cc
    | inr (best, there) ↦
        let same : (best.0.height, best.1) ≡ (h, peers) = ok-injective (rw there at q) in
        let votes = votes_of (asked + 1) (neighbors_in answer) in
        let (own, above) = max_by_key-tally votes best (ap max_by_key (t l refl) ∙ there) in
        let same_peers : best.1 ≡ peers = ap (λ p. p.1) same in
        record {
          answer = answer;
          votes = votes;
          info = best.0;
          neighbors = given;
          responded = refl;
          height = sym (ap (λ p. p.0) same);
          trusted = sym same_peers ∙ own;
          greatest = λ j. rw (← same_peers) (above j);
        }
  ]

  IsChosen-after :
      (r : Result CommError (Res c)) (s : BlockService c) (h : ℕ) (peers : List String)
      → o.response s.asked Service.node_interface Req.get_neighbors ≡ r
      → (continue
          (received r, record s { asked = s.asked + 1 })
          (λ answer. ask_neighbors o (neighbors_in answer) [] >>= choose)).0
        ≡ ok (h, peers)
      → IsChosen s.asked h peers
  unfolding ◌>>=◌
  IsChosen-after (err e) s h peers given q = cc
  IsChosen-after (ok answer) s h peers given q =
      IsChosen-of s.asked answer
        (ask_neighbors o (neighbors_in answer) [] (record s { asked = s.asked + 1 })) h peers given
        (λ l e. ask_neighbors-tally (neighbors_in answer) [] l (record s { asked = s.asked + 1 }) e)
        q

  -- Where `best_last_block` ends with a height and peers, these are the height of a block and all those of the
  -- neighbours in the response to the first request that responded with it, in their order; and every block
  -- that one of these neighbours responded with was given by fewer of them, or by as many and with no greater
  -- height.
  pub best_last_block_lem :
      (s : BlockService c) (h : ℕ) (peers : List String)
      → (best_last_block o s).0 ≡ ok (h, peers)
      → IsChosen s.asked h peers
  unfolding best_last_block ask
  best_last_block_lem s h peers q = IsChosen-after _ s h peers refl q
