-- ===== src/Services/Handover.antt =====
-- `begin_execution` of the block service together with the handlers of the transaction service: what the
-- first sends, and what the second does with it in its order.
use trinci.Base.{
  false, ◌⊎◌, sym, ◌∙◌, ◌+◌, some, ℕ_eq, retain, All, length, Bool, is_none, ◌||◌, ℕ, true, false,
  ◌≡◌, refl, List, [], ◌∷◌, ◌==◌, contains, map, is_some, Bool-cases, inl, inr, arith, any,
}
use trinci.Base.Outcome.{Outcome, panics, returns, ◌>>=◌}
use trinci.Base.Result.{ok}
use trinci.Crypto.Hash.{Hash, Hash_eq}
use trinci.Artifacts.Models.{Chain}
use trinci.Artifacts.Messages.{Res, Req, Msg, Effect, PoolTx, Service, send}
use trinci.Services.Blocks.Execution.{begin_execution, txs_in, is_unfit, hash_of, is_unwanted}
use trinci.Services.Transactions.Pool.{TransactionService, get, insert_in_pool}
use trinci.Services.Transactions.Handlers.{
  size_of, notify, check_whether_to_build_block, add_tx, add_txs, handle_messages,
}
use trinci.Services.Transactions.Invariant.{add_txs-IsInStep, IsInStep, has-put}
use trinci.Services.Blocks.State.{BlockService, Outside}
use trinci.Services.Transactions.Collected.{collect_block_txs_lem, InPool}
use trinci.Services.Blocks.Missing.{IsFit, is_unfit-IsFit}
use trinci.Services.Covered.{covered-or-lacking, contains-retain, collect_txs-panics}
use trinci.Services.Blocks.Begun.{begin_execution-Sent, missing_of, Sent}

module _ ⦃c : Chain⦄ where
  open c use {Block, Transaction, transactable}

  -- The transaction service handles what is sent to it, the oldest first.
  abbrev receive : ℕ → Effect c → TransactionService c → Outcome (TransactionService c)
  receive now (send Service.transaction_service msg) t = handle_messages now msg t
  receive now _ t = returns t

  unfoldable pub receive_all :
      ℕ → List (Effect c) → TransactionService c → Outcome (TransactionService c)
  unfolding ◌>>=◌
  receive_all now [] t = returns t
  receive_all now (e ∷ older) t = receive_all now older t >>= receive now e

  check-pool :
      (t : TransactionService c)
      → (check_whether_to_build_block t).unconfirmed_pool ≡ t.unconfirmed_pool
  unfolding check_whether_to_build_block notify
  check-pool t = ground arith

  has-add_tx :
      (now : ℕ) (tx : PoolTx c) (k : Hash) (t : TransactionService c)
      → transactable.verify tx.0 ≡ true
      → is_some (get k (add_tx now tx t).unconfirmed_pool)
        ≡ (hash_of tx == k || is_some (get k t.unconfirmed_pool))
  unfolding add_tx insert_in_pool
  has-add_tx now (tx, tx_size, attachments) k t v =
      let h = transactable.get_hash tx in
      let put-has = has-put h k (tx, tx_size, attachments) t.unconfirmed_pool in
      elim (Bool-cases (is_none (get h t.unconfirmed_pool))) [
        | inl new ↦ rw (v, new, check-pool _) put-has
        | inr old ↦ rw (v, old) put-has
      ]

  has-add_txs :
      (now : ℕ) (txs : List (PoolTx c)) (missing : List Hash) (k : Hash) (t : TransactionService c)
      → any (is_unwanted missing) txs ≡ false
      → is_some (get k (add_txs now txs t).unconfirmed_pool)
        ≡ (contains (map hash_of txs) k || is_some (get k t.unconfirmed_pool))
  unfolding add_txs
  has-add_txs now [] missing k t v = refl
  has-add_txs now (tx ∷ txs) missing k t v =
      ground (arith, has-add_txs now txs missing k (add_tx now tx t), has-add_tx now tx k t)

  -- The hashes that the pool tells.
  told-InPool :
      (k : Hash) (pool : List (Hash × PoolTx c))
      → contains (map (λ entry. entry.0) (map size_of pool)) k ≡ is_some (get k pool)
  told-InPool k [] = refl
  told-InPool k ((i, tx) ∷ rest) = ground (arith, told-InPool k rest)

  All-retain :
      (P : Hash → Type 0) (test : Hash → Bool) (ks : List Hash)
      → ((k : Hash) → test k ≡ false → P k)
      → All P (retain test ks)
      → All P ks
  All-retain P test [] h a = tt
  All-retain P test (k ∷ ks) h a = elim (Bool-cases (test k)) [
    | inl kept ↦
        let a' : P k × All P (retain test ks) = rw kept at a in (a'.0, All-retain P test ks h a'.1)
    | inr dropped ↦ (h k dropped, All-retain P test ks h (rw dropped at a))
  ]

  All-empty : (P : Hash → Type 0) (ks : List Hash) → (length ks == 0) ≡ true → All P ks
  All-empty P [] h = tt
  All-empty P (k ∷ ks) h = absurd (ground arith)

  unfit-unwanted :
      (missing : List Hash) (txs : List (PoolTx c))
      → is_unfit missing txs ≡ false
      → any (is_unwanted missing) txs ≡ false
  unfolding is_unfit
  unfit-unwanted missing txs h = ground arith

  -- A response of as many valid transactions as were asked for, which lacks one of the hashes.
  pub record Lacks (o : Outside c) (ks : List Hash) : Type 0 where
    pub number : ℕ
    pub missing : List Hash
    pub txs : List (PoolTx c)
    pub hash : Hash
    pub given : txs_in (o.response number Service.node_interface (Req.get_txs missing)) ≡ some txs
    pub fit : IsFit missing txs
    pub asked_for : contains missing hash ≡ true
    pub in_block : contains ks hash ≡ true
    pub lacking : contains (map hash_of txs) hash ≡ false

  -- What the transaction service sends for the execution of a block.
  abbrev pub Executes : Block → ℕ → List Hash → Outcome (TransactionService c) → Type 0
  Executes b r ks m =
      (txs : List Transaction) × (t : TransactionService c) × (m
        ≡ returns (notify (send Service.node_interface (Msg.execute_block b r txs)) t))
      × (map transactable.get_hash txs ≡ ks)

  collects :
      (now r : ℕ) (b : Block) (ks : List Hash) (t : TransactionService c)
      → IsInStep t
      → All (InPool t.unconfirmed_pool) ks
      → Executes b r ks (handle_messages now (Msg.collect_block_txs b r ks) t)
  collects now r b ks t v a =
      let (txs, done, same) = collect_block_txs_lem now b r ks t v a in (txs, t, done, same)

  covered-InPool :
      (now : ℕ) (txs : List (PoolTx c)) (missing l : List Hash) (t : TransactionService c)
      → is_unfit missing txs ≡ false
      → All (λ k. contains (map hash_of txs) k ≡ true) l
      → All (InPool (add_txs now txs t).unconfirmed_pool) l
  covered-InPool now txs missing [] t good a = tt
  covered-InPool now txs missing (k ∷ l) t good a = (
    ground (arith, has-add_txs now txs missing k t (unfit-unwanted missing txs good), a.0),
    covered-InPool now txs missing l t good a.1,
  )

  -- The block is executed, or a response lacks a hash and the service panics.
  abbrev Handed : Outside c → Block → ℕ → List Hash → Outcome (TransactionService c) → Type 0
  Handed o b r ks m = Executes b r ks m ⊎ ((m ≡ panics) × Lacks o ks)

  lacking-panics :
      (now r : ℕ) (b : Block) (ks missing : List Hash) (txs : List (PoolTx c)) (k : Hash)
      (t : TransactionService c)
      → is_unfit missing txs ≡ false
      → contains ks k ≡ true
      → is_some (get k t.unconfirmed_pool) ≡ false
      → contains (map hash_of txs) k ≡ false
      → handle_messages now (Msg.collect_block_txs b r ks) (add_txs now txs t) ≡ panics
  unfolding handle_messages ◌>>=◌
  lacking-panics now r b ks missing txs k t good there unknown lacking =
      let absent : is_some (get k (add_txs now txs t).unconfirmed_pool) ≡ false =
        has-add_txs now txs missing k t (unfit-unwanted missing txs good)
        ∙ rw (lacking, unknown) refl in
      rw (collect_txs-panics (add_txs now txs t).unconfirmed_pool ks k there absent) refl

  handed :
      (o : Outside c) (now : ℕ) (b : Block) (ks : List Hash) (s : BlockService c)
      (t : TransactionService c) {out : List (Effect c)}
      → IsInStep t
      → s.outbox ≡ []
      → Sent o b ks
          (map (λ entry. entry.0) (map size_of t.unconfirmed_pool))
          (record s { asked = s.asked + 1 })
          out
      → Handed o b s.actual_round ks (receive_all now out t)
  unfolding receive_all handle_messages
  handed o now b ks s t v empty (Sent.complete nothing out) =
      rw (out, empty)
        (inl (
          collects now s.actual_round b ks t v (
            All-retain (InPool t.unconfirmed_pool) _ ks
              (λ k known. ground (arith, told-InPool k t.unconfirmed_pool, known))
              (All-empty (InPool t.unconfirmed_pool) _ nothing))))
  handed o now b ks s t v empty (Sent.fetched i txs given good out) =
      let unconfirmed = map (λ entry. entry.0) (map size_of t.unconfirmed_pool) in
      let missing = missing_of unconfirmed ks in
      let t' = add_txs now txs t in
      elim (covered-or-lacking txs missing) [
        | inl covers ↦
            rw (out, empty)
              (inl (
                collects now s.actual_round b ks t' (add_txs-IsInStep now txs t v) (
                  All-retain (InPool t'.unconfirmed_pool) _ ks
                    (λ k known. ground (
                      arith,
                      told-InPool k t.unconfirmed_pool,
                      has-add_txs now txs missing k t (unfit-unwanted missing txs good),
                      known,
                    ))
                    (covered-InPool now txs missing missing t good covers))))
        | inr (k, listed, lacking) ↦
            let (there, unknown) = contains-retain unconfirmed ks k listed in
            rw (out, empty)
              (inr (
                lacking-panics now s.actual_round b ks missing txs k t good there
                    (sym (told-InPool k t.unconfirmed_pool) ∙ unknown) lacking,
                record {
                  number = i;
                  missing = missing;
                  txs = txs;
                  hash = k;
                  given = given;
                  fit = is_unfit-IsFit missing txs good;
                  asked_for = listed;
                  in_block = there;
                  lacking = lacking;
                },
              ))
      ]

  -- Where the transaction service is in step and has responded with the hashes of its pool, nothing is
  -- pending in the block service, and the start of an execution succeeds: the messages sent to the
  -- transaction service are handled without a panic, and it sends the block for execution with the round of
  -- the block service and the transactions of all the hashes, in their order; or the handling panics, and the
  -- node has responded with as many valid transactions as were asked for, but without one of the hashes.
  pub begin_execution-Executes :
      (o : Outside c) (now : ℕ) (b : Block) (ks : List Hash) (s : BlockService c)
      (t : TransactionService c)
      → IsInStep t
      → o.response s.asked Service.transaction_service Req.get_unconfirmed_hashes
        ≡ ok (Res.get_unconfirmed_hashes (map size_of t.unconfirmed_pool))
      → s.outbox ≡ []
      → (begin_execution o b ks s).0 ≡ ok tt
      → Executes b s.actual_round ks (receive_all now (begin_execution o b ks s).1.outbox t)
        ⊎ ((receive_all now (begin_execution o b ks s).1.outbox t ≡ panics) × Lacks o ks)
  begin_execution-Executes o now b ks s t v answer empty done =
      handed o now b ks s t v empty
        (begin_execution-Sent o b ks (map size_of t.unconfirmed_pool) s answer done)
