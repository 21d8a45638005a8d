-- ===== src/Services/Consensus/Quorum.antt =====
-- The consolidations that the service starts: what backs them.
use trinci.Services.Consensus.Rounds.{block_consolidated}
use trinci.Base.{
  String_eq, ◌∙◌, contains, leb, ap, ◌*◌, all, length, Bool-cases, find, refl, ◌∷◌, [], List, ℕ,
  none, some, Option, Bool, true, false, ◌≡◌, ◌<◌, arith, inl, inr, All, sym, subst,
}
use trinci.Artifacts.Models.Players.{Players}
use trinci.Artifacts.Messages.{Msg, Service, Effect, send}
use trinci.Base.Outcome.{Ensures-returns, Ensures-bind, Ensures}
use trinci.Base.Words.{wrapping_add}
use trinci.Services.Consensus.Invariant.{Keeps-IsValid, IsValid}
use trinci.Artifacts.Models.{BlockProposal, Chain}
use trinci.Crypto.Hash.{Hash}
use trinci.Services.Consensus.Proposals.{
  quorum, same_proposal, is_player_confirmation, proposals_at, find_proposal, decide_quorum,
}
use trinci.Services.Consensus.State.{
  set_leader, World, set_proposals, push_vote, set_round, emit, ConsensusService, BlockProposals,
}
use trinci.Services.Consensus.WellFormed.{proposals_at-All, IsCounted, AreWellFormed}
use trinci.Services.Consensus.Keeps.{Keeps, is_start}
use trinci.Services.Consensus.Handlers.{
  set_players, handle_messages, end_consolidation, on_block_consolidated, update_collector,
}
use trinci.Services.Consensus.Frame.{draw_new_leader-Survives, block_consolidated-Survives}
use trinci.Services.Consensus.Leader.{reset_proposals, draw_new_leader}
use trinci.Services.Consensus.Kept.{handle_messages-kept}

module _ ⦃c : Chain⦄ where
  open c use {Block, Confirmation, executable}

  find-All :
      (Q : BlockProposal c → Type 0) (test : BlockProposal c → Bool) (ps : List (BlockProposal c))
      (p : BlockProposal c)
      → All Q ps
      → find test ps ≡ some p
      → Q p
  find-All Q test [] p v e = cc
  find-All Q test (q ∷ qs) p v e = elim (Bool-cases (test q)) [
    | inl this ↦ let same : q ≡ p = ground arith in subst Q same v.0
    | inr other ↦ find-All Q test qs p v.1 (rw other at e)
  ]

  found-IsCounted :
      (hash : Hash) (h r : ℕ) (l : BlockProposals c) (p : BlockProposal c)
      (at : Option (List (BlockProposal c)))
      → AreWellFormed l
      → proposals_at h l ≡ at
      → let found : Option (BlockProposal c) = elim at [
        | none ↦ none
        | some ps ↦ find (same_proposal hash r) ps
      ] in
        found ≡ some p → IsCounted h p
  found-IsCounted hash h r l p none v e f = cc
  found-IsCounted hash h r l p (some ps) v e f =
      find-All (IsCounted h) (same_proposal hash r) ps p (proposals_at-All h l ps v e) f

  -- A proposal that the lookup finds counts its confirmations.
  pub find_proposal-IsCounted :
      (hash : Hash) (h r : ℕ) (l : BlockProposals c) (p : BlockProposal c)
      → AreWellFormed l
      → find_proposal hash h r l ≡ some p
      → IsCounted h p
  unfolding find_proposal
  find_proposal-IsCounted hash h r l p v e =
      found-IsCounted hash h r l p (proposals_at h l) v refl e

  -- More than half as many confirmations as players, each of them from a player.
  pub record IsBacked (s : ConsensusService c) (confirmations : List Confirmation) : Type 0 where
    pub majority : length s.players.players_ids < 2 * length confirmations
    pub from_players : all (is_player_confirmation s) confirmations ≡ true

  pub record IsGuarded (s : ConsensusService c) (e : Effect c) : Type 0 where
    pub at :
        (service : Service) (b : Block) (xs : List Confirmation) (hs : List Hash)
        → e ≡ send service (Msg.start_block_consolidation b xs hs)
        → IsBacked s xs

  unstarted-IsGuarded : (s : ConsensusService c) (e : Effect c) → is_start e ≡ false → IsGuarded s e
  unstarted-IsGuarded s e h = record { at = λ service b xs hs q. cc (ap is_start q) }

  -- Where a handler stands that began in the state `s`.
  pub record IsStep (s t : ConsensusService c) : Type 0 where
    pub valid : IsValid t
    pub same_players : t.players ≡ s.players
    pub guarded : All (IsGuarded s) t.outbox

  backed :
      (h : ℕ) (p : BlockProposal c) (s t : ConsensusService c)
      → IsCounted h p
      → t.players ≡ s.players
      → all (is_player_confirmation t) p.received_confirmations ≡ true
      → leb (quorum t) p.count ≡ true
      → IsBacked s p.received_confirmations
  backed h p s t v same from many = record {
    majority =
        subst (λ (ps : Players). length ps.players_ids < 2 * length p.received_confirmations) same
          (ground (arith, v.count));
    from_players =
        subst
          (λ (ps : Players).
            all (λ x. contains ps.players_ids (c.confirmable.get_player_id x))
              p.received_confirmations
            ≡ true)
          same from;
  }

  -- The confirmations that an effect carries.
  abbrev confirmations_of : Effect c → List Confirmation
  confirmations_of (send service (Msg.start_block_consolidation b xs hs)) = xs
  confirmations_of _ = []

  started-IsGuarded :
      (s : ConsensusService c) (service : Service) (b : Block) (xs : List Confirmation)
      (hs : List Hash)
      → IsBacked s xs
      → IsGuarded s (send service (Msg.start_block_consolidation b xs hs))
  started-IsGuarded s service b xs hs v = record {
    at = λ other b' ys hs' q. subst (IsBacked s) (ap confirmations_of q) v;
  }

  decide_quorum-IsStep :
      (h : ℕ) (p : BlockProposal c) (b : Block × List Hash) (s t : ConsensusService c)
      → h ≡ wrapping_add t.height 1
      → IsCounted h p
      → IsStep s t
      → IsStep s (decide_quorum h p b t).0
  unfolding decide_quorum emit
  decide_quorum-IsStep h p b s t e counted v =
      elim (Bool-cases (all (is_player_confirmation t) p.received_confirmations)) [
        | inr stranger ↦ rw stranger v
        | inl from ↦ elim (Bool-cases (leb (quorum t) p.count)) [
          | inr few ↦ rw (from, few) v
          | inl many ↦
              rw (from, many)
                (record {
                  valid = record { cache = v.valid.cache; consolidates = e };
                  same_players = v.same_players;
                  guarded = (
                    started-IsGuarded s _ b.0 p.received_confirmations b.1
                        (backed h p s t counted v.same_players from many),
                    v.guarded,
                  );
                })
        ]
      ]

  step :
      (s t u : ConsensusService c)
      → u.players ≡ t.players
      → u.outbox ≡ t.outbox
      → IsValid u
      → IsStep s t
      → IsStep s u
  step s t u p o valid v = record {
    valid = valid;
    same_players = p ∙ v.same_players;
    guarded = subst (All (IsGuarded s)) (sym o) v.guarded;
  }

  emit-IsStep :
      (s : ConsensusService c) (e : Effect c) (t : ConsensusService c)
      → is_start e ≡ false
      → IsStep s t
      → IsStep s (emit e t)
  emit-IsStep s e t h v =
      let valid : IsValid (emit e t) = Keeps-IsValid.on_emit e t h v.valid in
      unfold emit in
      record {
        valid = valid;
        same_players = v.same_players;
        guarded = (unstarted-IsGuarded s e h, v.guarded);
      }

  Keeps-IsStep : (s : ConsensusService c) → Keeps (IsStep s)
  unfolding set_round push_vote update_collector set_proposals
  Keeps-IsStep s = record {
    on_emit = λ e t h v. emit-IsStep s e t h v;
    on_round = λ r t v. step s t _ refl refl (Keeps-IsValid.on_round r t v.valid) v;
    on_vote = λ h r t e v. step s t _ refl refl (Keeps-IsValid.on_vote h r t e v.valid) v;
    on_collector =
        λ h blocks t v. step s t _ refl refl (Keeps-IsValid.on_collector h blocks t v.valid) v;
    on_update =
        λ now x xs b t v. step s t _ refl refl (Keeps-IsValid.on_update now x xs b t v.valid) v;
    on_sort = λ h r t v. step s t _ refl refl (Keeps-IsValid.on_sort h r t v.valid) v;
    on_check = λ now h ps t u e v q.
        step s u _ refl refl (Keeps-IsValid.on_check now h ps t u e v.valid q.valid) q;
    on_decide = λ hash h r p b t e found v.
        decide_quorum-IsStep h p b s t e
          (find_proposal-IsCounted hash h r t.block_proposals p v.valid.cache found) v;
  }

  -- What the effects of a handler must satisfy, whatever else changes.
  pub record AreGuarded (s t : ConsensusService c) : Type 0 where
    pub effects : All (IsGuarded s) t.outbox

  draws-AreGuarded :
      (w : World c) (b : Block) (s t : ConsensusService c)
      → AreGuarded s t
      → Ensures (AreGuarded s) (draw_new_leader w b t)
  unfolding emit set_leader
  draws-AreGuarded w b s t v =
      draw_new_leader-Survives (AreGuarded s)
        (λ e u h g. record { effects = (unstarted-IsGuarded s e h, g.effects) })
        (λ l u g. record { effects = g.effects }) w b t v

  consolidates-AreGuarded :
      (h : ℕ) (s t : ConsensusService c) → AreGuarded s t → AreGuarded s (block_consolidated h t)
  unfolding emit
  consolidates-AreGuarded h s t v =
      block_consolidated-Survives (AreGuarded s)
        (λ e u q g. record { effects = (unstarted-IsGuarded s e q, g.effects) }) h t v

  on_block_consolidated-AreGuarded :
      (s : ConsensusService c) (w : World c) (b : Block) (p : Players) (t : ConsensusService c)
      → IsStep s t
      → Ensures (AreGuarded s) (on_block_consolidated w b p t)
  unfolding on_block_consolidated end_consolidation set_players update_collector reset_proposals
  on_block_consolidated-AreGuarded s w b p t v =
      Ensures-bind {P = AreGuarded s} _ _
        (draws-AreGuarded w b s _ (record { effects = v.guarded }))
        λ u g. Ensures-returns _ (
          consolidates-AreGuarded (executable.get_height b) s (end_consolidation u)
            (record { effects = g.effects }))

  -- Quorum: in a state that satisfies the invariant and has no effects pending, every consolidation that
  -- the handling of a message starts is backed by confirmations that all come from players of the state,
  -- and that are more than half as many as the players. The confirmations need not differ.
  pub handle_messages-IsGuarded :
      (w : World c) (msg : Msg c) (s : ConsensusService c)
      → IsValid s
      → s.outbox ≡ []
      → Ensures (AreGuarded s) (handle_messages w msg s)
  handle_messages-IsGuarded w msg s v e =
      handle_messages-kept (IsStep s) (Keeps-IsStep s) (AreGuarded s)
        (λ t u. record { effects = u.guarded }) (on_block_consolidated-AreGuarded s) w msg s
        (record { valid = v; same_players = refl; guarded = subst (All (IsGuarded s)) (sym e) tt })
