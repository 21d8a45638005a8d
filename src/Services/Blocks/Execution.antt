-- ===== src/Services/Blocks/Execution.antt =====
-- block_service.rs: `collect_missing_txs`, `begin_execution`, `build_block`.
use trinci.Base.{
  ℕ, zero, suc, ◌+◌, ◌-◌, Bool, true, not, ◌||◌, Option, none, some, List, [], ◌∷◌, ◌==◌,
  if◌then◌else◌, ltb, any, contains, length, map, retain, take, ℕ_eq,
}
use trinci.Base.Result.{Result, ok}
use trinci.Base.Words.{wrapping_add}
use trinci.Crypto.Hash.{Hash, Hash_eq}
use trinci.Artifacts.Models.{Chain}
use trinci.Artifacts.Messages.{Msg, PoolTx, Req, Res, Service}
use trinci.Services.Blocks.State.{
  BlockService, Call, ChainError, CommError, CoreError, Outside, ◌>>=◌, ◌>>◌, ask, found, give,
  fail, gets, modify, reply, send_msg,
}
use trinci.Consts.{max_req_attempts}

abbrev pub max_txs_in_block : ℕ
max_txs_in_block = 500

abbrev pub block_max_size_bytes : ℕ
block_max_size_bytes = 1048576

abbrev pub block_base_size_bytes : ℕ
block_base_size_bytes = 111

abbrev pub block_size_limit : ℕ
block_size_limit = block_max_size_bytes - block_base_size_bytes

-- The loop of `build_block`, over the hashes with their sizes in the order in which they are popped.
unfoldable pub fill_block : ℕ → List (Hash × ℕ) → List Hash
fill_block block_size [] = []
fill_block block_size ((tx_hash, tx_size) ∷ rest) =
    let size' = wrapping_add block_size tx_size in
    let filled = fill_block size' rest in
    if ltb size' block_size_limit then tx_hash ∷ filled else []

unfoldable pub pop_all : {A : Type 0} → List A → List A → List A
pop_all [] popped = popped
pop_all (x ∷ xs) popped = pop_all xs (x ∷ popped)

module _ ⦃c : Chain⦄ where
  open c use {Block, executable, transactable}

  abbrev pub txs_in : Result CommError (Res c) → Option (List (PoolTx c))
  txs_in (ok (Res.get_txs txs)) = some txs
  txs_in _ = none

  abbrev pub hashes_in : Res c → Option (List (Hash × ℕ))
  hashes_in (Res.get_unconfirmed_hashes hashes) = some hashes
  hashes_in _ = none

  abbrev pub hash_of : PoolTx c → Hash
  hash_of (tx, tx_size, attachments) = transactable.get_hash tx

  abbrev pub is_unwanted : List Hash → PoolTx c → Bool
  is_unwanted missing (tx, tx_size, attachments) =
      not (transactable.verify tx) || not (contains missing (transactable.get_hash tx))

  -- The test on the transactions of a response.
  unfoldable pub is_unfit : List Hash → List (PoolTx c) → Bool
  is_unfit missing txs = any (is_unwanted missing) txs || not (length txs == length missing)

  -- The hashes of the block and the block itself, from the hashes of the pool.
  abbrev pub chosen_txs : List (Hash × ℕ) → List Hash
  chosen_txs hashes = take max_txs_in_block (fill_block 0 (pop_all hashes []))

  abbrev pub next_block : BlockService c → List Hash → Block
  next_block s txs =
      executable.new (c.public_key s.keypair) txs (wrapping_add s.height 1) s.last_block_hash

  -- What an attempt does with the transactions of the response.
  abbrev pub hand_on : List Hash → Call c Unit → Option (List (PoolTx c)) → Call c Unit
  hand_on missing again none = again
  hand_on missing again (some txs) =
      if is_unfit missing txs then again else send_msg Service.transaction_service (Msg.add_txs txs)

  module _ (o : Outside c) where
    -- The recursion over the attempts, on how many are left: none when `attempt` exceeds the maximum.
    unfoldable pub collect_missing_txs : ℕ → List Hash → Call c Unit
    unfolding is_unfit ◌>>=◌ reply
    collect_missing_txs zero missing = fail (CoreError.chain_error ChainError.missing_txs_error)
    collect_missing_txs (suc left) missing =
        let again = collect_missing_txs left missing in
        do
          answer ← reply o Service.node_interface (Req.get_txs missing)
          hand_on missing again (txs_in answer)

    -- What `begin_execution` does with the hashes of the pool.
    unfoldable pub execute_with : Block → List Hash → List Hash → Call c Unit
    unfolding collect_missing_txs ◌>>=◌
    execute_with block txs_hashes unconfirmed = do
      let missing = retain (λ hash. not (contains unconfirmed hash)) txs_hashes
      (if length missing == 0 then give tt else collect_missing_txs (max_req_attempts + 1) missing)
      round ← gets (λ s. s.actual_round)
      send_msg Service.transaction_service (Msg.collect_block_txs block round txs_hashes)

    unfoldable pub begin_execution : Block → List Hash → Call c Unit
    unfolding execute_with ask
    begin_execution block txs_hashes = do
      answer ← ask o Service.transaction_service Req.get_unconfirmed_hashes
      elim (hashes_in answer) [
        | none ↦ give tt
        | some hashes ↦ execute_with block txs_hashes (map (λ entry. entry.0) hashes)
      ]

    unfoldable pub build_block : Call c Unit
    unfolding begin_execution fill_block pop_all found
    build_block = do
      modify (λ s. record s { build_in_progress = true })
      answer ← ask o Service.transaction_service Req.get_unconfirmed_hashes
      hashes ← found (hashes_in answer) (CoreError.comm_error CommError.invalid_comm)
      let block_txs = chosen_txs hashes
      block ← gets (λ s. next_block s block_txs)
      begin_execution block block_txs
