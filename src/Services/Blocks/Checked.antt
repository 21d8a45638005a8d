-- ===== src/Services/Blocks/Checked.antt =====
-- What `verify_ext_block` keeps, and the players of whom it has heard.
use trinci.Base.{
  Option-cases, ap, Bool-cases, ◌∙◌, true, ◌≡◌, inl, inr, refl, ℕ, some, List, ◌==◌, String,
  String_eq, ℕ_eq, contains, eq→≡, not, any,
}
use trinci.Base.Result.{ok-injective, Result, ok, err}
use trinci.Crypto.Hash.{Hash_eq}
use trinci.Services.Blocks.Kept
use trinci.Artifacts.Models.{Chain}
use trinci.Services.Blocks.State.{
  ◌>>=◌, give, ◌>>◌, ChainError, CoreError, received, continue, CommError, require, ask, found,
  BlockService, Outside,
}
use trinci.Services.Blocks.Chained.{
  HasOrigin, begin_execution-Chained, asked-Chained, Chained, AreNamed,
}
use trinci.Services.Blocks.Verification.{is_foreign, verify_ext_block, players_in, players_with}
use trinci.Artifacts.Messages.{Req, Service, Res}
use trinci.Crypto.Hash.{Hash}
use trinci.Base.Words.{wrapping_add}

module _ ⦃c : Chain⦄ (o : Outside c) (at : BlockService c) where
  open c use {Block, Confirmation, executable, confirmable, transactable}

  -- The builder is one of the players, whom the consensus service has named.
  abbrev HasBuilder : String → List String → Type 0
  HasBuilder id players = AreNamed o players × (contains players id ≡ true)

  players-named :
      (n : ℕ) (s : BlockService c) (id : String) (r : Result CommError (Res c))
      (players : List String)
      → o.response n Service.consensus_service Req.get_actual_players ≡ r
      → (continue
          (received r, s)
          (λ answer.
            found (players_in answer) (CoreError.comm_error CommError.invalid_comm) >>= λ ps.
            require (contains ps id) (CoreError.chain_error (ChainError.invalid_block_player id))
            >> give ps)).0
        ≡ ok players
      → HasBuilder id players
  unfolding found require ◌>>=◌
  players-named n s id (err e) players same h = cc
  players-named n s id (ok answer) players same h = elim (Option-cases (players_in answer)) [
    | inl absent ↦ let h' = rw absent at h in cc
    | inr there ↦ elim (Bool-cases (contains there.0 id)) [
      | inl member ↦
          let same_players : there.0 ≡ players = ok-injective (rw (there.1, member) at h) in
          (
            record {
              request = n;
              answer = answer;
              responded = same;
              named = there.1 ∙ ap some same_players;
            },
            rw (← same_players) member,
          )
      | inr stranger ↦ let h' = rw (there.1, stranger) at h in cc
    ]
  ]

  players_with-Yields :
      (id : String) → Kept.Yields (Chained o at) (HasBuilder id) (players_with o id)
  unfolding players_with ask ◌>>=◌
  players_with-Yields id = record {
    keeps =
        Kept.Kept-ask o Service.consensus_service Req.get_actual_players _ (asked-Chained o at)
          (λ n answer same.
            Kept.Kept-found (players_in answer) _ _
              (λ ps there. Kept.Kept-require (contains ps id) _ _ (λ _. Kept.Kept-give ps)));
    value = λ s players h. players-named s.asked _ id _ players refl h;
  }

  pub verify_ext_block-Chained :
      (b : Block) (ks : List Hash) (xs : List Confirmation)
      → Kept.Kept (Chained o at) (verify_ext_block o b ks xs)
  unfolding verify_ext_block
  verify_ext_block-Chained b ks xs = Kept.Kept-require (executable.verify b) _ _ λ verified.
      Kept.Kept-found (executable.get_builder_id b) _ _ λ id built.
        Kept.Kept-gets (λ s. wrapping_add s.height 1) (wrapping_add at.height 1) _
          (λ s v. ap (λ h. wrapping_add h 1) v.height)
          λ expected e. Kept.Kept-require (executable.get_height b == expected) _ _ λ next.
            Kept.Kept-gets (λ s. s.last_block_hash) at.last_block_hash _ (λ s v. v.last)
              λ last l. Kept.Kept-require (executable.get_prev_hash b == last) _ _ λ linked.
                Kept.Kept-Yields (HasBuilder id) _ _ (players_with-Yields id) λ players member.
                  Kept.Kept-Yields (HasBuilder id) _ _ (players_with-Yields id) λ players' member'.
                    Kept.Kept-gets (λ s. s.actual_round) at.actual_round _ (λ s v. v.round)
                      λ round r.
                        Kept.Kept-require (not (any (is_foreign players' round) xs)) _ _ λ known.
                          begin_execution-Chained o at b ks (record {
                            height = eq→≡ _ _ next ∙ e;
                            prev_hash = eq→≡ _ _ linked ∙ l;
                            round = refl;
                            origin =
                                HasOrigin.external id players' verified built member'.0 member'.1;
                          })
