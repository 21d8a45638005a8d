-- ===== src/Services/Consensus/Keeps.antt =====
-- The interface between the handlers of `ConsensusService` and what is proved of all of them: a
-- predicate on states that survives each elementary change survives the methods that are made of them.
-- The start of a consolidation is the one effect that such a predicate may look at.
use trinci.Base.{leb, retain, true, false, ◌≡◌, Bool, some, ◌∷◌, List, ℕ, Option}
use trinci.Artifacts.Models.{BlockProposal, Chain}
use trinci.Artifacts.Messages.{send, Msg, Effect}
use trinci.Services.Consensus.State.{
  set_proposals, Collected, push_vote, set_round, emit, ConsensusService,
}
use trinci.Services.Consensus.Voting.{voted}
use trinci.Services.Consensus.Handlers.{update_collector}
use trinci.Crypto.Hash.{Hash}
use trinci.Services.Consensus.Proposals.{
  decide_quorum, find_proposal, proposals_at, key_of, update_heights,
}
use trinci.Services.Consensus.Rounds.{sort_by_count, check_old_proposals, put_at, find_round}
use trinci.Base.Words.{wrapping_add}

abbrev pub is_start : {c : Chain} → Effect c → Bool
is_start (send service (Msg.start_block_consolidation block confirmations txs_hashes)) = true
is_start _ = false

module _ ⦃c : Chain⦄ where
  open c use {Block, Confirmation, executable}

  pub record Keeps (P : ConsensusService c → Type 0) : Type 0 where
    pub on_emit : (e : Effect c) (s : ConsensusService c) → is_start e ≡ false → P s → P (emit e s)
    pub on_round : (r : ℕ) (s : ConsensusService c) → P s → P (set_round r s)
    pub on_vote :
        (h r : ℕ) (s : ConsensusService c)
        → voted s.proposal_exit_poll h r ≡ false
        → P s
        → P (push_vote h r s)
    pub on_collector :
        (h : ℕ) (blocks : Option (List (Collected c))) (s : ConsensusService c)
        → P s
        → P (update_collector h blocks s)
    pub on_update :
        (now : ℕ) (x : Confirmation) (xs : List Confirmation) (b : Option (Block × List Hash))
        (s : ConsensusService c)
        → P s
        → P (set_proposals (update_heights now (key_of c x) (x ∷ xs) b s.block_proposals) s)
    pub on_sort :
        (h r : ℕ) (s : ConsensusService c)
        → P s
        → P (set_proposals (find_round h r s.block_proposals).0 s)
    pub on_check :
        (now h : ℕ) (ps : List (BlockProposal c)) (s t : ConsensusService c)
        → proposals_at h s.block_proposals ≡ some ps
        → P s
        → P t
        → P (
            set_proposals
              (put_at h
                (check_old_proposals now
                  (sort_by_count (retain (λ p. leb s.actual_round p.round) ps))
                  s).0
                s.block_proposals)
              t)
    pub on_decide :
        (hash : Hash) (h r : ℕ) (p : BlockProposal c) (b : Block × List Hash)
        (s : ConsensusService c)
        → h ≡ wrapping_add s.height 1
        → find_proposal hash h r s.block_proposals ≡ some p
        → P s
        → P (decide_quorum h p b s).0
