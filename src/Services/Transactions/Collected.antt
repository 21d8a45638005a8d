-- ===== src/Services/Transactions/Collected.antt =====
-- What `TransactionService` hands out for hashes: the transactions of a block, and the old ones.
use trinci.Base.{
  ap, eq_refl, ◌∙◌, Bool-cases, is_some, ℕ, true, ◌≡◌, refl, some, List, [], ◌∷◌, ◌==◌, arith, inl,
  inr, All, map,
}
use trinci.Base.Outcome.{Returns, ◌>>=◌, returns}
use trinci.Crypto.Hash.{Hash, Hash_eq}
use trinci.Artifacts.Models.{Chain}
use trinci.Artifacts.Messages.{Service, send, Msg, PoolTx}
use trinci.Services.Transactions.Handlers.{
  transaction_of, is_old_tx, notify, handle_messages, refresh_ages, pool_txs, collect_txs,
}
use trinci.Services.Transactions.Invariant.{IsInStep, listed, IsGood}
use trinci.Services.Transactions.Pool.{TransactionService, get}

module _ ⦃c : Chain⦄ where
  open c use {Block, Transaction, transactable}

  abbrev pub InPool : List (Hash × PoolTx c) → Hash → Type 0
  InPool pool k = is_some (get k pool) ≡ true

  get-IsGood :
      (k : Hash) (l : List (Hash × PoolTx c))
      → All IsGood l
      → InPool l k
      → (tx : PoolTx c) × (get k l ≡ some tx) × (transactable.get_hash tx.0 ≡ k)
  get-IsGood k [] g h = cc
  get-IsGood k ((i, (tx, tx_size, attachments)) ∷ rest) g h = elim (Bool-cases (i == k)) [
    | inl e ↦ ((tx, tx_size, attachments), rw e refl, g.0.0 ∙ (Hash_eq.eq_iff i k).0 e)
    | inr e ↦ let (found, at, hash) = get-IsGood k rest g.1 (rw e at h) in (found, rw e at, hash)
  ]

  collect_txs-hashes :
      (pool : List (Hash × PoolTx c)) (ks : List Hash)
      → All IsGood pool
      → All (InPool pool) ks
      → Returns (collect_txs pool ks) (λ txs. map transactable.get_hash txs ≡ ks)
  unfolding collect_txs ◌>>=◌
  collect_txs-hashes pool [] g h = ([], refl, refl)
  collect_txs-hashes pool (k ∷ ks) g h =
      let (tx, at, hash) = get-IsGood k pool g h.0 in
      let (txs, done, hashes) = collect_txs-hashes pool ks g h.1 in
      (tx.0 ∷ txs, rw (at, done) refl, rw (hash, hashes) refl)

  -- Where the pool and the collector are in step and the pool knows every hash of the block,
  -- `CollectBlockTxs` does not panic, and the transactions that it sends for execution are those of
  -- the hashes, in their order.
  pub collect_block_txs_lem :
      (now : ℕ) (b : Block) (r : ℕ) (ks : List Hash) (s : TransactionService c)
      → IsInStep s
      → All (InPool s.unconfirmed_pool) ks
      → (txs : List Transaction) × (handle_messages now (Msg.collect_block_txs b r ks) s
          ≡ returns (notify (send Service.node_interface (Msg.execute_block b r txs)) s))
        × (map transactable.get_hash txs ≡ ks)
  unfolding handle_messages ◌>>=◌
  collect_block_txs_lem now b r ks s v h =
      let (txs, done, hashes) = collect_txs-hashes s.unconfirmed_pool ks v.good h in
      (txs, rw done refl, hashes)

  listed-cons :
      (i : Hash) (a : ℕ) (l : List (Hash × ℕ)) (ks : List Hash)
      → All (λ k. listed k l ≡ true) ks
      → All (λ k. listed k ((i, a) ∷ l) ≡ true) ks
  listed-cons i a l [] h = tt
  listed-cons i a l (k ∷ ks) h = (ground (arith, h.0), listed-cons i a l ks h.1)

  old-listed : (now : ℕ) (l : List (Hash × ℕ)) → All (λ k. listed k l ≡ true) (refresh_ages now l).1
  unfolding refresh_ages
  old-listed now [] = tt
  old-listed now ((i, a) ∷ rest) =
      let later = listed-cons i a rest (refresh_ages now rest).1 (old-listed now rest) in
      elim (Bool-cases (is_old_tx now (i, a))) [
        | inl old ↦ rw old (rw (eq_refl ⦃e = Hash_eq⦄ i) refl, later)
        | inr young ↦ rw young later
      ]

  pool_txs-cons :
      (pool : List (Hash × PoolTx c)) (k : Hash) (ks : List Hash) (tx : PoolTx c)
      → get k pool ≡ some tx
      → pool_txs pool (k ∷ ks) ≡ tx ∷ pool_txs pool ks
  unfolding pool_txs
  pool_txs-cons pool k ks tx e = ground arith

  pool_txs-hashes :
      (pool : List (Hash × PoolTx c)) (ks : List Hash)
      → All IsGood pool
      → All (InPool pool) ks
      → map transactable.get_hash (map transaction_of (pool_txs pool ks)) ≡ ks
  unfolding pool_txs
  pool_txs-hashes pool [] g h = refl
  pool_txs-hashes pool (k ∷ ks) g h =
      let (tx, at, hash) = get-IsGood k pool g h.0 in
      ap (λ l. map transactable.get_hash (map transaction_of l)) (pool_txs-cons pool k ks tx at)
      ∙ ap (λ i. i ∷ map transactable.get_hash (map transaction_of (pool_txs pool ks))) hash
      ∙ ap (λ l. k ∷ l) (pool_txs-hashes pool ks g h.1)

  listed-InPool :
      (s : TransactionService c) (ks : List Hash)
      → IsInStep s
      → All (λ k. listed k s.old_collector ≡ true) ks
      → All (InPool s.unconfirmed_pool) ks
  listed-InPool s [] v h = tt
  listed-InPool s (k ∷ ks) v h = (v.same_hashes k ∙ h.0, listed-InPool s ks v h.1)

  -- The transactions that a check of old ones propagates: where the pool and the collector are in step,
  -- they are those of the hashes that are due, all of them and in the order of the collector.
  pub due_txs_lem :
      (now : ℕ) (s : TransactionService c)
      → IsInStep s
      → let due = (refresh_ages now s.old_collector).1 in
        map transactable.get_hash (map transaction_of (pool_txs s.unconfirmed_pool due)) ≡ due
  due_txs_lem now s v =
      pool_txs-hashes s.unconfirmed_pool _ v.good
        (listed-InPool s _ v (old-listed now s.old_collector))
