-- ===== src/Services/Consensus/Proposals.antt =====
-- consensus_service.rs: the cache of block proposals, `update_proposals`, and the quorum test.
use trinci.Base.{
  ℕ, ◌+◌, ◌/◌, Bool, true, false, ◌&&◌, Option, none, some, List, [], ◌∷◌, ◌++◌, String_eq,
  contains, ◌==◌, ℕ_eq, if◌then◌else◌, length, find, all, leb, is_some, is_none,
}
use trinci.Base.Words.{wrapping_add}
use trinci.Base.Outcome.{Outcome, returns, ◌>>=◌, expect}
use trinci.Crypto.Hash.{Hash, Hash_eq}
use trinci.Artifacts.Models.{Chain, BlockProposal, new_proposal}
use trinci.Artifacts.Messages.{send, Msg, Service}
use trinci.Services.Consensus.State.{BlockProposals, ConsensusService, emit, set_proposals}

-- `slice::first`
abbrev pub first {ℓ} : {A : Type ℓ} → List A → Option A
first [] = none
first (x ∷ xs) = some x

-- What `update_proposals` takes from the first confirmation.
pub record Key : Type 0 where
  pub block_hash : Hash
  pub block_height : ℕ
  pub block_round : ℕ

abbrev pub key_of : (c : Chain) → c.Confirmation → Key
key_of c confirmation = record {
  block_hash = c.confirmable.get_block_hash confirmation;
  block_height = c.confirmable.get_block_height confirmation;
  block_round = c.confirmable.get_block_round confirmation;
}

module _ ⦃c : Chain⦄ where
  open c use {Block, Confirmation, confirmable}

  abbrev pub same_proposal : Hash → ℕ → BlockProposal c → Bool
  same_proposal block_hash block_round p = p.block_hash == block_hash && p.round == block_round

  -- One round of the loop over the confirmations.
  unfoldable pub add_confirmation :
      Option (Block × List Hash) → Confirmation → BlockProposal c → BlockProposal c
  add_confirmation block confirmation p =
      let known = contains ⦃e = c.confirmation_eq⦄ p.received_confirmations confirmation in
      record p {
        received_confirmations =
            if known
            then p.received_confirmations
            else p.received_confirmations ++ confirmation ∷ [];
        count = if known then p.count else p.count + 1;
        block = if is_some block && is_none p.block then block else p.block;
      }

  unfoldable pub add_confirmations :
      Option (Block × List Hash) → List Confirmation → BlockProposal c → BlockProposal c
  add_confirmations block [] p = p
  add_confirmations block (confirmation ∷ rest) p =
      add_confirmations block rest (add_confirmation block confirmation p)

  -- The match on the proposals at one height: the first with this hash and round, or a new one.
  unfoldable pub update_at_height :
      ℕ
      → Key
      → List Confirmation
      → Option (Block × List Hash)
      → List (BlockProposal c)
      → List (BlockProposal c)
  update_at_height now k confirmations block [] =
      new_proposal now block k.block_hash k.block_height confirmations k.block_round ∷ []
  update_at_height now k confirmations block (p ∷ ps) =
      if same_proposal k.block_hash k.block_round p
      then add_confirmations block confirmations p ∷ ps
      else p ∷ update_at_height now k confirmations block ps

  unfoldable pub update_heights :
      ℕ → Key → List Confirmation → Option (Block × List Hash) → BlockProposals c → BlockProposals c
  update_heights now k confirmations block [] =
      (
        k.block_height,
        new_proposal now block k.block_hash k.block_height confirmations k.block_round ∷ [],
      )
      ∷ []
  update_heights now k confirmations block ((h, ps) ∷ rest) =
      if h == k.block_height
      then (h, update_at_height now k confirmations block ps) ∷ rest
      else (h, ps) ∷ update_heights now k confirmations block rest

  -- Panics on an empty vector of confirmations.
  unfoldable pub update_proposals :
      ℕ
      → List Confirmation
      → Option (Block × List Hash)
      → ConsensusService c
      → Outcome (ConsensusService c)
  update_proposals now confirmations block s = do
    first_confirmation ← expect (first confirmations)
    returns (
        set_proposals
          (update_heights now (key_of c first_confirmation) confirmations block s.block_proposals)
          s)

  abbrev pub proposals_at : ℕ → BlockProposals c → Option (List (BlockProposal c))
  proposals_at height [] = none
  proposals_at height ((h, ps) ∷ rest) = if h == height then some ps else proposals_at height rest

  -- `find` on the heights, `and_then` `find` on the proposals.
  unfoldable pub find_proposal : Hash → ℕ → ℕ → BlockProposals c → Option (BlockProposal c)
  find_proposal block_hash block_height block_round proposals =
      elim (proposals_at block_height proposals) [
        | none ↦ none
        | some ps ↦ find (same_proposal block_hash block_round) ps
      ]

  abbrev pub is_player_confirmation : ConsensusService c → Confirmation → Bool
  is_player_confirmation s confirmation =
      contains s.players.players_ids (confirmable.get_player_id confirmation)

  abbrev pub quorum : ConsensusService c → ℕ
  quorum s = length s.players.players_ids / 2 + 1

  -- The decision on a proposal that is found, with its block.
  unfoldable pub decide_quorum :
      ℕ → BlockProposal c → Block × List Hash → ConsensusService c → ConsensusService c × Bool
  decide_quorum block_height p (block, txs_hashes) s =
      if all (is_player_confirmation s) p.received_confirmations
      then (if leb (quorum s) p.count
          then (
            emit
                (send Service.node_interface
                  (Msg.start_block_consolidation block p.received_confirmations txs_hashes))
                (record s { consolidation_in_progress = some block_height }),
            true,
          )
          else (s, false))
      else (s, false)

  -- Panics where there is no such proposal.
  unfoldable pub verify_block_proposal_quorum :
      Hash → ℕ → ℕ → ConsensusService c → Outcome (ConsensusService c × Bool)
  unfolding decide_quorum
  verify_block_proposal_quorum block_hash block_height block_round s = do
    p ← expect (find_proposal block_hash block_height block_round s.block_proposals)
    returns (
        if block_height == wrapping_add s.height 1
        then elim p.block [ none ↦ (s, false) | some b ↦ decide_quorum block_height p b s ]
        else (s, false))
