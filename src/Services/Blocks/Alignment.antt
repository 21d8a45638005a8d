-- ===== src/Services/Blocks/Alignment.antt =====
-- block_service.rs: `best_last_block`, `retrieve_alignment_block`, `align`, `spawn_alignment_thread`. The
-- map of candidates is an association list, with one entry for a `BlockInfo`.
use trinci.Base.{
  ℕ, zero, suc, ◌≡◌, ◌↔◌, Bool, true, ◌&&◌, ◌||◌, Option, none, some, List, [], ◌∷◌, ◌++◌, ◌==◌,
  if◌then◌else◌, ltb, leb, all, length, map, ℕ_eq, PartialEq, String, arith,
}
use trinci.Base.Result.{Result, ok}
use trinci.Base.Words.{wrapping_add}
use trinci.Crypto.Hash.{Hash_eq}
use trinci.Artifacts.Models.{Chain, FullBlock}
use trinci.Artifacts.Messages.{
  BlockInfo, Msg, PoolTx, Req, Res, Service, ThreadStep, deliver, spawn_alignment,
}
use trinci.Services.Blocks.State.{
  Call, ChainError, CommError, CoreError, Outside, ◌>>=◌, ◌>>◌, ask, emit, found, give, fail, gets,
  modify, reply, send_msg,
}
use trinci.Services.Blocks.Verification.{verify_ext_block}

abbrev info_eq : BlockInfo → BlockInfo → Bool
info_eq a b = a.height == b.height && a.hash == b.hash

pub info_eq_iff : (a b : BlockInfo) → (info_eq a b ≡ true) ↔ (a ≡ b)
info_eq_iff a b = ground (arith, ℕ_eq.eq_iff a.height b.height, Hash_eq.eq_iff a.hash b.hash)

instance abbrev pub BlockInfo_eq : PartialEq BlockInfo
BlockInfo_eq = record { eq = info_eq; eq_iff = info_eq_iff }

abbrev pub Candidate : Type 0
Candidate = BlockInfo × List String

-- `candidates.entry(block_info).or_default().push(neighbor)`
unfoldable pub add_candidate : BlockInfo → String → List Candidate → List Candidate
add_candidate info neighbor [] = (info, neighbor ∷ []) ∷ []
add_candidate info neighbor ((i, peers) ∷ rest) =
    let rest' = add_candidate info neighbor rest in
    if i == info then (i, peers ++ neighbor ∷ []) ∷ rest else (i, peers) ∷ rest'

-- The order of the keys `(vec.len(), key.height)`.
abbrev pub key_leb : Candidate → Candidate → Bool
key_leb a b =
    ltb (length a.1) (length b.1) || (length a.1 == length b.1 && leb a.0.height b.0.height)

-- `max_by_key`, which takes the last of equal ones.
unfoldable pub max_from : Candidate → List Candidate → Candidate
max_from best [] = best
max_from best (x ∷ xs) = max_from (if key_leb best x then x else best) xs

unfoldable pub max_by_key : List Candidate → Option Candidate
unfolding max_from
max_by_key [] = none
max_by_key (x ∷ xs) = some (max_from x xs)

module _ ⦃c : Chain⦄ where
  open c use {Transaction, executable, confirmable, transactable}

  abbrev pub neighbors_in : Res c → List String
  neighbors_in (Res.get_neighbors neighbors) = neighbors
  neighbors_in _ = []

  -- A response of another kind is skipped.
  abbrev pub with_answer : Res c → String → List Candidate → List Candidate
  with_answer (Res.get_last_block_info info) neighbor candidates =
      add_candidate info neighbor candidates
  with_answer _ neighbor candidates = candidates

  abbrev pub full_block_in : Result CommError (Res c) → Option (FullBlock c)
  full_block_in (ok (Res.get_full_block full_block peer_id)) = full_block
  full_block_in _ = none

  -- The alignment thread: the heights to start from and to reach, the peers, and what it receives in
  -- each round; `none` stands for the timeout and for a closed channel, as does the end of the list.
  abbrev pub new_height_in : Option (Msg c) → Option ℕ
  new_height_in (some (Msg.new_height height)) = some height
  new_height_in _ = none

  abbrev pub ending : List (ThreadStep c)
  ending =
      deliver Service.block_service Msg.alignment_ended
      ∷ deliver Service.transaction_service Msg.alignment_ended
      ∷ []

  unfoldable pub alignment_thread :
      ℕ → ℕ → List String → List (Option (Msg c)) → List (ThreadStep c)
  alignment_thread actual_height height peers [] =
      if ltb actual_height height
      then deliver Service.block_service (Msg.retrieve_block peers) ∷ ending
      else ending
  alignment_thread actual_height height peers (r ∷ rest) =
      let later : ℕ → List (ThreadStep c) = λ new. alignment_thread new height peers rest in
      if ltb actual_height height
      then deliver Service.block_service (Msg.retrieve_block peers)
        ∷ elim (new_height_in r) [ none ↦ ending | some new ↦ later new ]
      else ending

  -- The end of `best_last_block`.
  unfoldable pub choose : List Candidate → Call c (ℕ × List String)
  unfolding max_by_key found ◌>>=◌
  choose candidates = do
    best ←
        found (max_by_key candidates)
          (CoreError.chain_error (ChainError.alignment_error "failed to find best last block"))
    give (best.0.height, best.1)

  module _ (o : Outside c) where
    unfoldable pub ask_neighbors : List String → List Candidate → Call c (List Candidate)
    unfolding ask ◌>>=◌ add_candidate
    ask_neighbors [] candidates = give candidates
    ask_neighbors (neighbor ∷ rest) candidates = do
      answer ← ask o Service.node_interface (Req.get_last_block_info neighbor)
      ask_neighbors rest (with_answer answer neighbor candidates)

    unfoldable pub best_last_block : Call c (ℕ × List String)
    unfolding ask_neighbors choose
    best_last_block = do
      answer ← ask o Service.node_interface Req.get_neighbors
      candidates ← ask_neighbors (neighbors_in answer) []
      choose candidates

    abbrev pub as_pool_tx : Transaction → PoolTx c
    as_pool_tx tx = (tx, o.rmp_len tx, none)

    -- What `retrieve_alignment_block` does with a block.
    unfoldable pub take_full_block : FullBlock c → Call c Unit
    unfolding ◌>>=◌ verify_ext_block
    take_full_block full_block =
        if executable.verify full_block.block && all confirmable.verify full_block.confirmations
        then (do
          send_msg Service.consensus_service
              (Msg.proposal_from_alignment_block full_block.confirmations)
          send_msg Service.transaction_service (Msg.add_txs (map as_pool_tx full_block.txs))
          verify_ext_block o full_block.block (map transactable.get_hash full_block.txs)
              full_block.confirmations)
        else fail (CoreError.chain_error ChainError.block_verification_fault)

    -- The recursion over the attempts, on how many are left.
    unfoldable pub retrieve_alignment_block : ℕ → List String → Call c Unit
    unfolding take_full_block reply
    retrieve_alignment_block zero trusted_peers =
        fail (CoreError.chain_error ChainError.missing_block_error)
    retrieve_alignment_block (suc left) trusted_peers =
        let again = retrieve_alignment_block left trusted_peers in
        do
          height ← gets (λ s. wrapping_add s.height 1)
          answer ← reply o Service.node_interface (Req.get_full_block height trusted_peers)
          elim (full_block_in answer) [
            | none ↦ again
            | some full_block ↦ take_full_block full_block
          ]

    -- The start of the thread, which `alignment_thread` is the run of.
    unfoldable pub spawn_alignment_thread : ℕ → List String → Call c Unit
    unfolding emit ◌>>=◌
    spawn_alignment_thread height trusted_peers = do
      modify (λ s. record s { aligning = true })
      send_msg Service.transaction_service Msg.alignment_started
      modify (λ s. emit (spawn_alignment s.height height trusted_peers) s)

    unfoldable pub align : Call c Unit
    unfolding best_last_block spawn_alignment_thread
    align = do
      running ← gets (λ s. s.aligning)
      if running then give tt else (do
        best ← best_last_block
        local ← gets (λ s. s.height)
        if ltb local best.0 then spawn_alignment_thread best.0 best.1 else give tt)
