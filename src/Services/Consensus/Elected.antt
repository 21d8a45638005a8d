-- ===== src/Services/Consensus/Elected.antt =====
-- `Msg::BlockConsolidated`: the state that the next height starts from.
use trinci.Base.{
  eq_refl, get_elem?, ltb, Bool-cases, not, retain, length, leb, contains, All, refl, [], ◌∷◌, List,
  ℕ, none, some, true, false, ◌≡◌, ◌<◌, inl, inr, String, String_eq,
}
use trinci.Artifacts.Models.Players.{sum, Players}
use trinci.Services.Consensus.Rounds.{block_consolidated}
use trinci.Artifacts.Models.Players.Weighted
use trinci.Base.Outcome.{Returns, returns, ◌>>=◌}
use trinci.Artifacts.Models.{Chain}
use trinci.Services.Consensus.Leader.{reset_proposals, draw_new_leader}
use trinci.Services.Consensus.State.{set_leader, World, emit, ConsensusService, BlockProposals}
use trinci.Artifacts.Messages.{Msg, Service, send, Res, Req, Effect}
use trinci.Services.Consensus.Keeps.{is_start}
use trinci.Base.Words.{wrapping_sub}
use trinci.Artifacts.Models.Players.Weighted.{draw_in_range}
use trinci.Services.Consensus.Frame.{block_consolidated-Survives}
use trinci.Services.Consensus.Handlers.{
  end_consolidation, update_collector, set_players, on_block_consolidated,
}

first_player :
    (ids : List String)
    → 0 < length ids
    → (id : String) × (get_elem? ids 0 ≡ some id) × (contains ids id ≡ true)
first_player [] h = elim h [ ]
first_player (id ∷ ids) h = (id, refl, rw (eq_refl id))

module _ ⦃c : Chain⦄ where
  open c use {Block, executable}

  pub record IsElected (p : Players) (b : Block) (t : ConsensusService c) : Type 0 where
    pub height : t.height ≡ executable.get_height b
    pub round : t.actual_round ≡ 0
    pub last : t.last_block_hash ≡ executable.get_hash b
    pub idle : t.consolidation_in_progress ≡ none
    pub leads : contains p.players_ids t.leader ≡ true
    pub later : All (λ entry. leb entry.0 (executable.get_height b) ≡ false) t.block_proposals

  emit-IsElected :
      (p : Players) (b : Block) (e : Effect c) (t : ConsensusService c)
      → is_start e ≡ false
      → IsElected p b t
      → IsElected p b (emit e t)
  unfolding emit
  emit-IsElected p b e t h v = record {
    height = v.height;
    round = v.round;
    last = v.last;
    idle = v.idle;
    leads = v.leads;
    later = v.later;
  }

  retained-All :
      (height : ℕ) (l : BlockProposals c)
      → All (λ entry. leb entry.0 height ≡ false) (retain (λ entry. not (leb entry.0 height)) l)
  retained-All height [] = tt
  retained-All height ((h, ps) ∷ rest) = elim (Bool-cases (leb h height)) [
    | inl old ↦ rw old (retained-All height rest)
    | inr later ↦ rw later (later, retained-All height rest)
  ]

  -- The draw among the players, with the number that the generator answers.
  draw_new_leader-eq :
      (w : World c) (b : Block) (n : ℕ) (s : ConsensusService c)
      → Weighted.IsValid s.players
      → 0 < length s.players.players_ids
      → w.answer (Req.get_drand_num (wrapping_sub (sum s.players.weights) 1))
        ≡ some (Res.get_drand_num n)
      → n < sum s.players.weights
      → (id : String) × (draw_new_leader w b s
          ≡ returns (
              set_leader id (
                emit
                  (send Service.drand_service (
                    Msg.update_seed_source
                      (executable.get_hash b)
                      (executable.get_txs_hash b)
                      (executable.get_rxs_hash b)))
                  s)))
        × (contains s.players.players_ids id ≡ true)
  unfolding draw_new_leader ◌>>=◌
  draw_new_leader-eq w b n s v some_player answered bound =
      elim (Bool-cases (ltb 1 (length s.players.players_ids))) [
        | inl many ↦
            let (id, at, known) = draw_in_range s.players n v bound in
            (id, rw (many, answered, at) refl, known)
        | inr one ↦
            let (id, at, known) = first_player s.players.players_ids some_player in
            (id, rw (one, at) refl, known)
      ]

  consolidated-IsElected :
      (h : ℕ) (p : Players) (b : Block) (t : ConsensusService c)
      → IsElected p b t
      → IsElected p b (block_consolidated h t)
  consolidated-IsElected h p b t v =
      block_consolidated-Survives (IsElected p b) (emit-IsElected p b) h t v

  -- A consolidated block, with distinct ids of players in step with their weights and at least one
  -- player, starts the next height where the generator answers the request for a number below the
  -- total weight with such a number: the handler returns, the height and the last hash are those of
  -- the block, the round is 0, no consolidation runs, the leader is one of the players, and only
  -- proposals of later heights are left.
  pub on_block_consolidated-IsElected :
      (w : World c) (b : Block) (p : Players) (n : ℕ) (s : ConsensusService c)
      → Weighted.IsValid p
      → 0 < length p.players_ids
      → w.answer (Req.get_drand_num (wrapping_sub (sum p.weights) 1)) ≡ some (Res.get_drand_num n)
      → n < sum p.weights
      → Returns (on_block_consolidated w b p s) (IsElected p b)
  unfolding on_block_consolidated ◌>>=◌ emit set_leader reset_proposals set_players update_collector
      end_consolidation
  on_block_consolidated-IsElected w b p n s v some_player answered bound =
      let before =
        reset_proposals (executable.get_hash b) (executable.get_height b)
          (update_collector (executable.get_height b) none (set_players p s)) in
      let (id, drawn_eq, known) = draw_new_leader-eq w b n before v some_player answered bound in
      let after = set_leader id (
        emit
          (send Service.drand_service (
            Msg.update_seed_source (executable.get_hash b) (executable.get_txs_hash b)
              (executable.get_rxs_hash b)))
          before) in
      (
        block_consolidated (executable.get_height b) (end_consolidation after),
        rw drawn_eq refl,
        consolidated-IsElected (executable.get_height b) p b (end_consolidation after) (record {
          height = refl;
          round = refl;
          last = refl;
          idle = refl;
          leads = known;
          later = retained-All (executable.get_height b) s.block_proposals;
        }),
      )
