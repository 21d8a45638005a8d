-- ===== src/Services/Consensus/Votes.antt =====
-- The votes of the node and the poll that remembers them.
use trinci.Crypto.Hash.{Hash, Hash_eq}
use trinci.Base.Words.{wrapping_add}
use trinci.Base.{
  ◌↔◌, String_eq, ℕ_eq, contains, some, true, if_cases, Bool-cases, retain, refl, ◌∷◌, ◌++◌, [],
  List, ℕ, Bool, false, ◌≡◌, ◌||◌, arith, inl, inr,
}
use trinci.Artifacts.Models.Players.{Players}
use trinci.Base.Outcome.{Ensures-returns, Ensures-bind, Ensures}
use trinci.Artifacts.Models.{BlockProposal, Chain}
use trinci.Services.Consensus.Voting.{built_by_player, should_player_vote, voted}
use trinci.Services.Consensus.Handlers.{
  update_collector, set_players, run, end_consolidation, on_block_consolidated,
}
use trinci.Services.Consensus.Leader.{reset_proposals}
use trinci.Services.Consensus.Proposals.{decide_quorum}
use trinci.Services.Consensus.State.{
  set_proposals, set_leader, is_player, push_vote, set_round, emit, World, ConsensusService,
}
use trinci.Artifacts.Messages.{Msg}
use trinci.Crypto.Hash.{Hash}
use trinci.Services.Consensus.Kept.{run-kept}
use trinci.Services.Consensus.Keeps.{Keeps}
use trinci.Services.Consensus.Frame.{block_consolidated-Survives, draw_new_leader-Survives}

abbrev pub IsOnce : List (ℕ × ℕ) → Type 0
IsOnce [] = Unit
IsOnce ((h, r) ∷ poll) = (voted poll h r ≡ false) × IsOnce poll

voted-append :
    (xs ys : List (ℕ × ℕ)) (h r : ℕ) → voted (xs ++ ys) h r ≡ (voted xs h r || voted ys h r)
voted-append [] ys h r = refl
voted-append ((i, q) ∷ xs) ys h r = ground (arith, voted-append xs ys h r)

push-IsOnce :
    (poll : List (ℕ × ℕ)) (h r : ℕ)
    → IsOnce poll
    → voted poll h r ≡ false
    → IsOnce (poll ++ (h, r) ∷ [])
push-IsOnce [] h r v e = (refl, tt)
push-IsOnce ((i, q) ∷ poll) h r v e =
    (ground (arith, voted-append poll ((h, r) ∷ []) i q), push-IsOnce poll h r v.1 (ground arith))

voted-retain :
    (keep : ℕ × ℕ → Bool) (poll : List (ℕ × ℕ)) (h r : ℕ)
    → voted poll h r ≡ false
    → voted (retain keep poll) h r ≡ false
voted-retain keep [] h r e = e
voted-retain keep ((i, q) ∷ poll) h r e = ground (arith, voted-retain keep poll h r)

retain-IsOnce :
    (keep : ℕ × ℕ → Bool) (poll : List (ℕ × ℕ)) → IsOnce poll → IsOnce (retain keep poll)
retain-IsOnce keep [] v = tt
retain-IsOnce keep ((i, q) ∷ poll) v = elim (Bool-cases (keep (i, q))) [
  | inl e ↦ rw e (voted-retain keep poll i q v.0, retain-IsOnce keep poll v.1)
  | inr e ↦ rw e (retain-IsOnce keep poll v.1)
]

module _ ⦃c : Chain⦄ where
  open c use {Block, executable}

  pub record VotesOnce (s : ConsensusService c) : Type 0 where
    pub once : IsOnce s.proposal_exit_poll

  decide_quorum-VotesOnce :
      (h : ℕ) (p : BlockProposal c) (b : Block × List Hash) (s : ConsensusService c)
      → VotesOnce s
      → VotesOnce (decide_quorum h p b s).0
  unfolding decide_quorum emit
  decide_quorum-VotesOnce h p b s v = ground arith

  pub Keeps-VotesOnce : Keeps VotesOnce
  unfolding emit set_round push_vote update_collector set_proposals
  Keeps-VotesOnce = record {
    on_emit = λ e s h v. record { once = v.once };
    on_round = λ r s v. record { once = v.once };
    on_vote = λ h r s e v. record { once = push-IsOnce s.proposal_exit_poll h r v.once e };
    on_collector = λ h blocks s v. record { once = v.once };
    on_update = λ now x xs b s v. record { once = v.once };
    on_sort = λ h r s v. record { once = v.once };
    on_check = λ now h ps s t e v u. record { once = u.once };
    on_decide = λ hash h r p b s e found v. decide_quorum-VotesOnce h p b s v;
  }

  reset_proposals-VotesOnce :
      (hash : Hash) (h : ℕ) (s : ConsensusService c)
      → VotesOnce s
      → VotesOnce (reset_proposals hash h s)
  unfolding reset_proposals
  reset_proposals-VotesOnce hash h s v = record {
    once =
        if_cases IsOnce (is_player s) _ _ (λ player. retain-IsOnce _ s.proposal_exit_poll v.once)
          (λ other. v.once);
  }

  on_block_consolidated-VotesOnce :
      (w : World c) (b : Block) (p : Players) (s : ConsensusService c)
      → VotesOnce s
      → Ensures VotesOnce (on_block_consolidated w b p s)
  unfolding on_block_consolidated end_consolidation set_players update_collector set_leader
  on_block_consolidated-VotesOnce w b p s v =
      Ensures-bind {P = VotesOnce} _ _
        (draw_new_leader-Survives VotesOnce Keeps-VotesOnce.on_emit
          (λ l t u. record { once = u.once }) w b _
          (reset_proposals-VotesOnce _ _ _ (record { once = v.once })))
        λ t u. Ensures-returns _ (
          block_consolidated-Survives VotesOnce Keeps-VotesOnce.on_emit (executable.get_height b)
            (end_consolidation t) (record { once = u.once }))

  -- From a state whose poll of votes holds no height and round twice, the poll never does, whatever
  -- messages arrive, as long as the thread runs. So the node does not vote twice for a height and a round
  -- while it remembers the first vote.
  pub run-VotesOnce :
      (msgs : List (World c × Msg c)) (s : ConsensusService c)
      → VotesOnce s
      → Ensures VotesOnce (run msgs s)
  run-VotesOnce = run-kept VotesOnce Keeps-VotesOnce on_block_consolidated-VotesOnce

  -- The node votes for a block in a round exactly where the node is a player, has not voted for the
  -- height and the round, a player built the block, the round is the current one, and the block follows
  -- the last one by its height and its previous hash.
  pub should_player_vote_iff :
      (b : Block) (hs : List Hash) (r : ℕ) (s : ConsensusService c)
      → (should_player_vote (some (b, hs)) r s ≡ true) ↔ (
          (contains s.players.players_ids s.node_id ≡ true)
          × (voted s.proposal_exit_poll (executable.get_height b) r ≡ false)
          × (built_by_player s b ≡ true)
          × (r ≡ s.actual_round)
          × (executable.get_height b ≡ wrapping_add s.height 1)
          × (executable.get_prev_hash b ≡ s.last_block_hash))
  unfolding should_player_vote is_player
  should_player_vote_iff b hs r s = ground (
    arith,
    ℕ_eq.eq_iff r s.actual_round,
    ℕ_eq.eq_iff (executable.get_height b) (wrapping_add s.height 1),
    Hash_eq.eq_iff (executable.get_prev_hash b) s.last_block_hash,
  )
