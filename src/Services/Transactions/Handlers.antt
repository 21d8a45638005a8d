-- ===== src/Services/Transactions/Handlers.antt =====
-- transaction_service.rs: `handle_messages` and `handle_requests` of `TransactionService`.
use trinci.Base.{
  ◌*◌, ℕ_eq, retain, is_none, if◌then◌else◌, ℕ, Bool, true, false, not, ◌&&◌, none, some, List, [],
  ◌∷◌, ◌++◌, ◌==◌, String, length, ltb, leb, map,
}
use trinci.Base.Words.{wrapping_sub}
use trinci.Base.Outcome.{Outcome, returns, ◌>>=◌, expect}
use trinci.Crypto.Hash.{Hash, Hash_eq}
use trinci.Artifacts.Models.{Chain}
use trinci.Artifacts.Messages.{
  PoolTx, Effect, send, respond, spawn_loop, sleep_ms, deliver, Msg, Req, Res, Service,
}
use trinci.Services.Transactions.Pool.{TransactionService, remove_from_pool, insert_in_pool, get}

abbrev pub min_txs_to_build : ℕ
min_txs_to_build = 3

abbrev pub check_old_txs_s : ℕ
check_old_txs_s = 30

abbrev pub repropagate_old_txs_s : ℕ
repropagate_old_txs_s = 60

module _ ⦃c : Chain⦄ where
  open c use {Block, Transaction, transactable, executable}

  unfoldable pub notify : Effect c → TransactionService c → TransactionService c
  notify e s = record s { outbox = e ∷ s.outbox }

  -- The state before the first message, and the thread that asks for a check of old transactions.
  unfoldable pub start : String → TransactionService c
  unfolding notify
  start node_id =
      notify
        (spawn_loop (
          sleep_ms (check_old_txs_s * 1000)
          ∷ deliver Service.transaction_service Msg.check_old_txs
          ∷ []))
        (record {
          alignment_in_progress = false;
          build_in_progress = false;
          node_id = node_id;
          old_collector = [];
          unconfirmed_pool = [];
          unconfirmed_pool_attachments = [];
          outbox = [];
        })

  -- The second test of `check_whether_to_build_block`.
  abbrev pub build_when_full : TransactionService c → TransactionService c
  build_when_full s =
      if leb min_txs_to_build (length s.unconfirmed_pool) && not s.build_in_progress
      then notify (send Service.block_service Msg.build_block)
          (record s { build_in_progress = true })
      else s

  unfoldable pub check_whether_to_build_block : TransactionService c → TransactionService c
  unfolding notify
  check_whether_to_build_block s =
      if s.alignment_in_progress
      then s
      else build_when_full (
          if length s.unconfirmed_pool == 1
          then notify (send Service.block_service Msg.start_timer_to_build_block) s
          else s)

  -- `Msg::AddTx`, and one round of `Msg::AddTxs`.
  unfoldable pub add_tx : ℕ → PoolTx c → TransactionService c → TransactionService c
  unfolding insert_in_pool check_whether_to_build_block
  add_tx now (tx, tx_size, attachments) s =
      if not (transactable.verify tx)
      then s
      else (let (s', replaced) = insert_in_pool (tx, tx_size, attachments) s in
          if is_none replaced
          then check_whether_to_build_block (record s' {
            old_collector = s'.old_collector ++ (transactable.get_hash tx, now) ∷ [];
          })
          else s')

  unfoldable pub add_txs : ℕ → List (PoolTx c) → TransactionService c → TransactionService c
  unfolding add_tx
  add_txs now [] s = s
  add_txs now (tx ∷ txs) s = add_txs now txs (add_tx now tx s)

  -- One round of the loop of `Msg::BlockConsolidated`.
  unfoldable pub remove_tx : Hash → TransactionService c → TransactionService c
  unfolding remove_from_pool
  remove_tx tx_hash s =
      let (s', removed) = remove_from_pool tx_hash s in
      record s' { old_collector = retain (λ entry. not (entry.0 == tx_hash)) s'.old_collector }

  unfoldable pub remove_txs : List Hash → TransactionService c → TransactionService c
  unfolding remove_tx
  remove_txs [] s = s
  remove_txs (tx_hash ∷ rest) s = remove_txs rest (remove_tx tx_hash s)

  unfoldable pub on_block_consolidated : List Hash → TransactionService c → TransactionService c
  unfolding remove_txs check_whether_to_build_block notify
  on_block_consolidated txs_hashes s =
      let s' = record (remove_txs txs_hashes s) { build_in_progress = false } in
      if not (length s'.unconfirmed_pool == 0) && ltb (length s'.unconfirmed_pool) min_txs_to_build
      then notify (send Service.block_service Msg.start_timer_to_build_block) s'
      else check_whether_to_build_block s'

  -- The loop of `Msg::CollectBlockTxs`, which panics on an unknown hash.
  unfoldable pub collect_txs : List (Hash × PoolTx c) → List Hash → Outcome (List Transaction)
  collect_txs pool [] = returns []
  collect_txs pool (tx_hash ∷ rest) = do
    (tx, tx_size, attachments) ← expect (get tx_hash pool)
    txs ← collect_txs pool rest
    returns (tx ∷ txs)

  abbrev pub is_old_tx : ℕ → Hash × ℕ → Bool
  is_old_tx now (hash, age) = leb repropagate_old_txs_s (wrapping_sub now age)

  -- The first `filter_map` of `Msg::CheckOldTxs`: the new ages, and the old hashes.
  unfoldable pub refresh_ages : ℕ → List (Hash × ℕ) → List (Hash × ℕ) × List Hash
  refresh_ages now [] = ([], [])
  refresh_ages now ((hash, age) ∷ rest) =
      let (rest', old) = refresh_ages now rest in
      if is_old_tx now (hash, age)
      then ((hash, now) ∷ rest', hash ∷ old)
      else ((hash, age) ∷ rest', old)

  -- The second one: the transactions of the hashes that the pool knows.
  unfoldable pub pool_txs : List (Hash × PoolTx c) → List Hash → List (PoolTx c)
  pool_txs pool [] = []
  pool_txs pool (hash ∷ rest) =
      let txs = pool_txs pool rest in elim (get hash pool) [ none ↦ txs | some tx ↦ tx ∷ txs ]

  abbrev pub transaction_of : PoolTx c → Transaction
  transaction_of (tx, tx_size, attachments) = tx

  unfoldable pub check_old_txs : ℕ → TransactionService c → TransactionService c
  unfolding refresh_ages pool_txs notify
  check_old_txs now s =
      if s.alignment_in_progress
      then s
      else (let (ages, old) = refresh_ages now s.old_collector in
          let txs = map transaction_of (pool_txs s.unconfirmed_pool old) in
          let s' = record s { old_collector = ages } in
          if length txs == 0
          then s'
          else notify (send Service.node_interface (Msg.propagate_old_txs txs)) s')

  -- A message that the service does not expect is logged.
  unfoldable pub handle_messages : ℕ → Msg c → TransactionService c → Outcome (TransactionService c)
  handle_messages now (Msg.add_tx tx) s = returns (add_tx now tx s)
  handle_messages now (Msg.add_txs txs) s = returns (add_txs now txs s)
  handle_messages now Msg.alignment_ended s = returns (record s { alignment_in_progress = false })
  handle_messages now Msg.alignment_started s = returns (record s { alignment_in_progress = true })
  handle_messages now (Msg.block_consolidated block txs_hashes players) s =
      returns (on_block_consolidated txs_hashes s)
  handle_messages now (Msg.collect_block_txs block round txs_hashes) s = do
    txs ← collect_txs s.unconfirmed_pool txs_hashes
    returns (notify (send Service.node_interface (Msg.execute_block block round txs)) s)
  handle_messages now Msg.check_old_txs s = returns (check_old_txs now s)
  handle_messages now _ s = returns s

  abbrev pub size_of : Hash × PoolTx c → Hash × ℕ
  size_of (hash, (tx, tx_size, attachments)) = (hash, tx_size)

  unfoldable pub handle_requests : Req → TransactionService c → TransactionService c
  unfolding notify pool_txs
  handle_requests Req.get_pool_length s =
      notify (respond (Res.get_pool_length (length s.unconfirmed_pool))) s
  handle_requests (Req.get_txs txs_hashes) s =
      notify (respond (Res.get_txs (pool_txs s.unconfirmed_pool txs_hashes))) s
  handle_requests Req.get_unconfirmed_hashes s =
      notify (respond (Res.get_unconfirmed_hashes (map size_of s.unconfirmed_pool))) s
  handle_requests _ s = s
