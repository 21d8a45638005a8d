-- ===== src/Services/Consensus/Invariant.antt =====
-- The invariant of `ConsensusService`.
use trinci.Base.{
  leb, retain, ltb, sym, subst, refl, List, ℕ, none, some, Option, String, ◌≡◌, arith,
}
use trinci.Artifacts.Models.Players.{Players}
use trinci.Base.Outcome.{Ensures-if, Ensures-bind, Ensures-returns, Ensures-expect-bind, Ensures}
use trinci.Base.Words.{wrapping_add}
use trinci.Artifacts.Models.{BlockProposal, Chain}
use trinci.Services.Consensus.Handlers.{
  update_collector, set_players, run, handle_messages, end_consolidation, on_block_consolidated,
}
use trinci.Services.Consensus.Leader.{reset_proposals, draw_new_leader, start}
use trinci.Services.Consensus.Proposals.{key_of, proposals_at, decide_quorum}
use trinci.Services.Consensus.State.{
  set_proposals, push_vote, set_round, set_leader, emit, World, ConsensusService,
}
use trinci.Artifacts.Messages.{Msg}
use trinci.Crypto.Hash.{Hash}
use trinci.Services.Consensus.WellFormed.{
  proposals_at-All, retain-All, IsCounted, sort_by_count-All, find_round-AreWellFormed,
  check_old_proposals-All, put_at-AreWellFormed, update_heights-AreWellFormed, retain-AreWellFormed,
  AreWellFormed,
}
use trinci.Services.Consensus.Rounds.{sort_by_count, check_old_proposals, put_at}
use trinci.Services.Consensus.Frame.{block_consolidated-Survives, draw_new_leader-Survives}
use trinci.Services.Consensus.Kept.{run-kept, handle_messages-kept}
use trinci.Services.Consensus.Keeps.{Keeps}

-- A running consolidation is of the height after the last block.
abbrev pub IsNext : ℕ → Option ℕ → Type 0
IsNext height none = Unit
IsNext height (some k) = k ≡ wrapping_add height 1

module _ ⦃c : Chain⦄ where
  open c use {Block, Confirmation, executable, KeyPair}

  pub record IsValid (s : ConsensusService c) : Type 0 where
    pub cache : AreWellFormed s.block_proposals
    pub consolidates : IsNext s.height s.consolidation_in_progress

  unfolded_fields :
      (s t : ConsensusService c)
      → t.height ≡ s.height
      → t.consolidation_in_progress ≡ s.consolidation_in_progress
      → AreWellFormed t.block_proposals
      → IsValid s
      → IsValid t
  unfolded_fields s t h k a v = record {
    cache = a;
    consolidates =
        subst (λ i. IsNext i t.consolidation_in_progress) (sym h)
          (subst (λ o. IsNext s.height o) (sym k) v.consolidates);
  }

  decide_quorum-IsValid :
      (h : ℕ) (p : BlockProposal c) (b : Block × List Hash) (s : ConsensusService c)
      → h ≡ wrapping_add s.height 1
      → IsValid s
      → IsValid (decide_quorum h p b s).0
  unfolding decide_quorum emit
  decide_quorum-IsValid h p b s e v = ground arith

  checked-AreWellFormed :
      (now h : ℕ) (ps : List (BlockProposal c)) (s : ConsensusService c)
      → proposals_at h s.block_proposals ≡ some ps
      → IsValid s
      → AreWellFormed (
          put_at h
            (check_old_proposals now
              (sort_by_count (retain (λ p. leb s.actual_round p.round) ps))
              s).0
            s.block_proposals)
  checked-AreWellFormed now h ps s e v =
      let current = retain (λ p. leb s.actual_round p.round) ps in
      put_at-AreWellFormed h _ s.block_proposals
        (check_old_proposals-All now h (sort_by_count current) s (
          sort_by_count-All (IsCounted h) current
            (retain-All (IsCounted h) _ ps (proposals_at-All h s.block_proposals ps v.cache e))))
        v.cache

  pub Keeps-IsValid : Keeps IsValid
  unfolding emit set_round push_vote update_collector set_proposals
  Keeps-IsValid = record {
    on_emit = λ e s h v. unfolded_fields s _ refl refl v.cache v;
    on_round = λ r s v. unfolded_fields s _ refl refl v.cache v;
    on_vote = λ h r s e v. unfolded_fields s _ refl refl v.cache v;
    on_collector = λ h blocks s v. unfolded_fields s _ refl refl v.cache v;
    on_update = λ now x xs b s v.
        unfolded_fields s _ refl refl
          (update_heights-AreWellFormed now (key_of c x) x xs b s.block_proposals v.cache) v;
    on_sort = λ h r s v.
        unfolded_fields s _ refl refl (find_round-AreWellFormed h r s.block_proposals v.cache) v;
    on_check = λ now h ps s t e v u.
        unfolded_fields t _ refl refl (checked-AreWellFormed now h ps s e v) u;
    on_decide = λ hash h r p b s e found v. decide_quorum-IsValid h p b s e v;
  }

  -- The cache alone, which is what the invariant says between a new height and the end of the
  -- consolidation.
  abbrev HasCache : ConsensusService c → Type 0
  HasCache s = AreWellFormed s.block_proposals

  draw_new_leader-HasCache :
      (w : World c) (b : Block) (s : ConsensusService c)
      → HasCache s
      → Ensures HasCache (draw_new_leader w b s)
  unfolding emit set_leader
  draw_new_leader-HasCache w b s v =
      draw_new_leader-Survives HasCache (λ e t h u. u) (λ l t u. u) w b s v

  pub on_block_consolidated-IsValid :
      (w : World c) (b : Block) (p : Players) (s : ConsensusService c)
      → IsValid s
      → Ensures IsValid (on_block_consolidated w b p s)
  unfolding on_block_consolidated end_consolidation reset_proposals set_players update_collector
  on_block_consolidated-IsValid w b p s v =
      Ensures-bind {P = HasCache} _ _
        (draw_new_leader-HasCache w b _ (retain-AreWellFormed _ s.block_proposals v.cache))
        λ t cached. Ensures-returns _ (
          block_consolidated-Survives IsValid Keeps-IsValid.on_emit (executable.get_height b)
            (end_consolidation t) (record { cache = cached; consolidates = tt }))

  -- Every message keeps the invariant: the cache has one entry for each height, every proposal in it
  -- counts its confirmations, has at least one and stands at its height, and a consolidation that runs
  -- is of the height after the last block. Messages that end the thread in a panic are left out.
  pub handle_messages-IsValid :
      (w : World c) (msg : Msg c) (s : ConsensusService c)
      → IsValid s
      → Ensures IsValid (handle_messages w msg s)
  handle_messages-IsValid =
      handle_messages-kept IsValid Keeps-IsValid IsValid (λ t v. v) on_block_consolidated-IsValid

  -- From a state that satisfies the invariant, whatever messages arrive and whatever the clock and the
  -- other services answer, the state of the service satisfies it as long as the thread runs.
  pub run-IsValid :
      (msgs : List (World c × Msg c)) (s : ConsensusService c)
      → IsValid s
      → Ensures IsValid (run msgs s)
  run-IsValid = run-kept IsValid Keeps-IsValid on_block_consolidated-IsValid

  started-IsValid :
      (w : World c) (b : Block) (s : ConsensusService c)
      → HasCache s
      → s.consolidation_in_progress ≡ none
      → Ensures IsValid (draw_new_leader w b s)
  unfolding emit set_leader
  started-IsValid w b s v idle =
      draw_new_leader-Survives IsValid Keeps-IsValid.on_emit
        (λ l t u. unfolded_fields t (set_leader l t) refl refl u.cache u) w b s
        (record { cache = v; consolidates = subst (IsNext s.height) (sym idle) tt })

  -- The service starts in a state that satisfies the invariant, where starting does not panic.
  pub start-IsValid :
      (w : World c) (keypair : KeyPair) (node_id : String) (p : Players) (last : Option Block)
      → Ensures IsValid (start w keypair node_id p last)
  unfolding start
  start-IsValid w keypair node_id p none = Ensures-expect-bind _ _ λ l at.
      Ensures-returns _ (Keeps-IsValid.on_emit _ _ refl (record { cache = tt; consolidates = tt }))
  start-IsValid w keypair node_id p (some b) = Ensures-expect-bind _ _ λ l at.
      Ensures-bind {P = IsValid} _ _
        (Ensures-if (ltb 0 (executable.get_height b)) _ _ (λ later. started-IsValid w b _ tt refl)
          (λ first. Ensures-returns _ (record { cache = tt; consolidates = tt })))
        λ t u. Ensures-returns _ (Keeps-IsValid.on_emit _ t refl u)
