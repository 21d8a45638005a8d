-- ===== src/Services/Transactions/Invariant.antt =====
-- The pool and the collector of old transactions of `TransactionService`.
use trinci.Base.{
  leb, map, ℕ_eq, ltb, length, is_none, if_cases, sym, ap, ◌∙◌, Bool-cases, retain, is_some, any, ℕ,
  Bool, true, false, ◌≡◌, refl, not, ◌&&◌, ◌||◌, List, [], ◌∷◌, ◌++◌, ◌==◌, arith, inl, inr, All,
}
use trinci.Base.Outcome.{Ensures-bind, Ensures-returns, Ensures}
use trinci.Crypto.Hash.{Hash, Hash_eq}
use trinci.Artifacts.Models.{Chain}
use trinci.Services.Transactions.Handlers.{
  transaction_of, build_when_full, check_old_txs, add_txs, min_txs_to_build, remove_txs,
  on_block_consolidated, handle_messages, remove_tx, pool_txs, notify, check_whether_to_build_block,
  add_tx, refresh_ages,
}
use trinci.Artifacts.Messages.{Msg, Effect, PoolTx}
use trinci.Services.Transactions.Pool.{
  remove_from_pool, put, insert_in_pool, drop_key, get, TransactionService,
}

-- The hash stands in the collector.
abbrev pub listed : Hash → List (Hash × ℕ) → Bool
listed k l = any (λ entry. entry.0 == k) l

module _ {ℓ} {V : Type ℓ} where
  pub has-put :
      (k j : Hash) (v : V) (l : List (Hash × V))
      → is_some (get j (put k v l)) ≡ (k == j || is_some (get j l))
  has-put k j v [] = ground arith
  has-put k j v ((i, w) ∷ rest) = ground (arith, has-put k j v rest, Hash_eq.eq_iff i k)

  has-drop :
      (k j : Hash) (l : List (Hash × V))
      → is_some (get j (drop_key k l)) ≡ (not (k == j) && is_some (get j l))
  has-drop k j [] = ground arith
  has-drop k j ((i, w) ∷ rest) =
      ground (arith, has-drop k j rest, Hash_eq.eq_iff i k, Hash_eq.eq_iff k j, Hash_eq.eq_iff i j)

listed-append :
    (k : Hash) (xs ys : List (Hash × ℕ)) → listed k (xs ++ ys) ≡ (listed k xs || listed k ys)
listed-append k [] ys = refl
listed-append k ((i, a) ∷ xs) ys = ground (arith, listed-append k xs ys)

listed-retain :
    (k j : Hash) (l : List (Hash × ℕ))
    → listed j (retain (λ entry. not (entry.0 == k)) l) ≡ (not (k == j) && listed j l)
listed-retain k j [] = ground arith
listed-retain k j ((i, a) ∷ rest) =
    ground
      (arith, listed-retain k j rest, Hash_eq.eq_iff i k, Hash_eq.eq_iff k j, Hash_eq.eq_iff i j)

module _ ⦃c : Chain⦄ where
  open c use {Block, transactable}

  listed-refresh_ages :
      (now : ℕ) (k : Hash) (l : List (Hash × ℕ)) → listed k (refresh_ages now l).0 ≡ listed k l
  unfolding refresh_ages
  listed-refresh_ages now k [] = refl
  listed-refresh_ages now k ((i, a) ∷ rest) = ground (arith, listed-refresh_ages now k rest)

  -- A pool entry stands under the hash of its transaction, which verifies.
  abbrev pub IsGood : Hash × PoolTx c → Type 0
  IsGood (k, (tx, tx_size, attachments)) =
      (transactable.get_hash tx ≡ k) × (transactable.verify tx ≡ true)

  -- The collector lists exactly the hashes of the pool, and the pool holds verified transactions.
  pub record IsInStep (s : TransactionService c) : Type 0 where
    pub same_hashes : (k : Hash) → is_some (get k s.unconfirmed_pool) ≡ listed k s.old_collector
    pub good : All IsGood s.unconfirmed_pool

  put-IsGood :
      (k : Hash) (v : PoolTx c) (l : List (Hash × PoolTx c))
      → IsGood (k, v)
      → All IsGood l
      → All IsGood (put k v l)
  put-IsGood k v [] g v' = (g, tt)
  put-IsGood k v ((i, w) ∷ rest) g gs = elim (Bool-cases (i == k)) [
    | inl e ↦ rw e (let same : i ≡ k = ground (arith, Hash_eq.eq_iff i k) in (rw same g, gs.1))
    | inr e ↦ rw e (gs.0, put-IsGood k v rest g gs.1)
  ]

  drop-IsGood : (k : Hash) (l : List (Hash × PoolTx c)) → All IsGood l → All IsGood (drop_key k l)
  drop-IsGood k [] g = tt
  drop-IsGood k ((i, w) ∷ rest) g = elim (Bool-cases (not (i == k))) [
    | inl e ↦ rw e (g.0, drop-IsGood k rest g.1)
    | inr e ↦ rw e (drop-IsGood k rest g.1)
  ]

  notify-IsInStep : (e : Effect c) (s : TransactionService c) → IsInStep s → IsInStep (notify e s)
  unfolding notify
  notify-IsInStep e s v = record { same_hashes = v.same_hashes; good = v.good }

  building-IsInStep :
      (b : Bool) (s : TransactionService c)
      → IsInStep s
      → IsInStep (record s { build_in_progress = b })
  building-IsInStep b s v = record { same_hashes = v.same_hashes; good = v.good }

  build_when_full-IsInStep : (s : TransactionService c) → IsInStep s → IsInStep (build_when_full s)
  build_when_full-IsInStep s v =
      if_cases IsInStep
        (leb min_txs_to_build (length s.unconfirmed_pool) && not s.build_in_progress) _ _
        (λ full. notify-IsInStep _ _ (building-IsInStep true s v)) (λ other. v)

  check_whether_to_build_block-IsInStep :
      (s : TransactionService c) → IsInStep s → IsInStep (check_whether_to_build_block s)
  unfolding check_whether_to_build_block
  check_whether_to_build_block-IsInStep s v =
      if_cases IsInStep s.alignment_in_progress _ _ (λ aligning. v)
        (λ ready. build_when_full-IsInStep _ (
          if_cases IsInStep (length s.unconfirmed_pool == 1) _ _ (λ one. notify-IsInStep _ s v)
            (λ other. v)))

  add_tx-IsInStep :
      (now : ℕ) (tx : PoolTx c) (s : TransactionService c) → IsInStep s → IsInStep (add_tx now tx s)
  unfolding add_tx insert_in_pool
  add_tx-IsInStep now (tx, tx_size, attachments) s v = elim (Bool-cases (transactable.verify tx)) [
    | inr bad ↦ rw bad v
    | inl verified ↦
        let k = transactable.get_hash tx in
        let good =
          put-IsGood k (tx, tx_size, attachments) s.unconfirmed_pool (refl, verified) v.good in
        elim (Bool-cases (is_none (get k s.unconfirmed_pool))) [
          | inl new ↦
              rw (verified, new)
                (check_whether_to_build_block-IsInStep
                  (record (insert_in_pool (tx, tx_size, attachments) s).0 {
                    old_collector = s.old_collector ++ (k, now) ∷ [];
                  })
                  (record {
                    same_hashes = λ j. ground (
                      arith,
                      has-put k j (tx, tx_size, attachments) s.unconfirmed_pool,
                      listed-append j s.old_collector ((k, now) ∷ []),
                      v.same_hashes j,
                    );
                    good = good;
                  }))
          | inr old ↦
              rw (verified, old)
                (record {
                  same_hashes = λ j. ground (
                    arith,
                    has-put k j (tx, tx_size, attachments) s.unconfirmed_pool,
                    v.same_hashes j,
                    Hash_eq.eq_iff k j,
                    old,
                  );
                  good = good;
                })
        ]
  ]

  remove_tx-IsInStep : (k : Hash) (s : TransactionService c) → IsInStep s → IsInStep (remove_tx k s)
  unfolding remove_tx remove_from_pool
  remove_tx-IsInStep k s v = record {
    same_hashes = λ j.
        has-drop k j s.unconfirmed_pool
        ∙ ap (λ b. not (k == j) && b) (v.same_hashes j)
        ∙ sym (listed-retain k j s.old_collector);
    good = drop-IsGood k s.unconfirmed_pool v.good;
  }

  pub add_txs-IsInStep :
      (now : ℕ) (txs : List (PoolTx c)) (s : TransactionService c)
      → IsInStep s
      → IsInStep (add_txs now txs s)
  unfolding add_txs
  add_txs-IsInStep now [] s v = v
  add_txs-IsInStep now (tx ∷ txs) s v =
      add_txs-IsInStep now txs (add_tx now tx s) (add_tx-IsInStep now tx s v)

  remove_txs-IsInStep :
      (ks : List Hash) (s : TransactionService c) → IsInStep s → IsInStep (remove_txs ks s)
  unfolding remove_txs
  remove_txs-IsInStep [] s v = v
  remove_txs-IsInStep (k ∷ ks) s v =
      remove_txs-IsInStep ks (remove_tx k s) (remove_tx-IsInStep k s v)

  on_block_consolidated-IsInStep :
      (ks : List Hash) (s : TransactionService c)
      → IsInStep s
      → IsInStep (on_block_consolidated ks s)
  unfolding on_block_consolidated
  on_block_consolidated-IsInStep ks s v =
      let t = record (remove_txs ks s) { build_in_progress = false } in
      let done = building-IsInStep false (remove_txs ks s) (remove_txs-IsInStep ks s v) in
      if_cases IsInStep
        (not (length t.unconfirmed_pool == 0) && ltb (length t.unconfirmed_pool) min_txs_to_build) _
        _ (λ some_left. notify-IsInStep _ t done)
        (λ other. check_whether_to_build_block-IsInStep t done)

  check_old_txs-IsInStep :
      (now : ℕ) (s : TransactionService c) → IsInStep s → IsInStep (check_old_txs now s)
  unfolding check_old_txs
  check_old_txs-IsInStep now s v =
      let t = record s { old_collector = (refresh_ages now s.old_collector).0 } in
      let aged : IsInStep t = record {
        same_hashes = λ k. v.same_hashes k ∙ sym (listed-refresh_ages now k s.old_collector);
        good = v.good;
      } in
      if_cases IsInStep s.alignment_in_progress _ _ (λ aligning. v)
        (λ ready.
          if_cases IsInStep
            (length (
                map transaction_of
                  (pool_txs s.unconfirmed_pool (refresh_ages now s.old_collector).1))
              == 0)
            _ _ (λ nothing. aged) (λ txs. notify-IsInStep _ t aged))

  -- Every message keeps the pool and the collector of old transactions in step: the collector lists
  -- exactly the hashes of the pool, and each entry of the pool stands under the hash of its transaction,
  -- which verifies. A message that ends the thread in a panic is left out.
  pub handle_messages-IsInStep :
      (now : ℕ) (msg : Msg c) (s : TransactionService c)
      → IsInStep s
      → Ensures IsInStep (handle_messages now msg s)
  unfolding handle_messages
  handle_messages-IsInStep now (Msg.add_tx tx) s v = Ensures-returns _ (add_tx-IsInStep now tx s v)
  handle_messages-IsInStep now (Msg.add_txs txs) s v =
      Ensures-returns _ (add_txs-IsInStep now txs s v)
  handle_messages-IsInStep now Msg.alignment_ended s v =
      Ensures-returns _ (record { same_hashes = v.same_hashes; good = v.good })
  handle_messages-IsInStep now Msg.alignment_started s v =
      Ensures-returns _ (record { same_hashes = v.same_hashes; good = v.good })
  handle_messages-IsInStep now (Msg.block_consolidated b ks p) s v =
      Ensures-returns _ (on_block_consolidated-IsInStep ks s v)
  handle_messages-IsInStep now (Msg.collect_block_txs b r ks) s v =
      Ensures-bind {P = λ txs. Unit} _ _ (record { at = λ txs e. tt })
        λ txs u. Ensures-returns _ (notify-IsInStep _ s v)
  handle_messages-IsInStep now Msg.check_old_txs s v =
      Ensures-returns _ (check_old_txs-IsInStep now s v)
  handle_messages-IsInStep now _ s v = Ensures-returns s v
