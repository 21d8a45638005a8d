-- ===== src/Node/Execution/Agreement.antt =====
-- The builder of a block and another node that executes it.
use trinci.Base.{
  arith, inr, inl, is_some, Bool-cases, ◌<◌, none, Option, subst, ℕ, true, false, ◌≡◌, refl, sym,
  ap, ◌∙◌, List, ◌∷◌, String, String_eq, ◌==◌, some, ltb, eq_refl,
}
use trinci.Base.Outcome.{returns}
use trinci.Base.Result.{ok}
use trinci.Crypto.Hash.{Hash, Hash_eq}
use trinci.Node.Identity.{Identity}
use trinci.Node.Models.{Block, get_block_hash, get_builder_id}
use trinci.Node.Transactions.{Transaction}
use trinci.Node.Execution.State.{Reply, Setting}
use trinci.Node.Execution.Blocks.{
  execute_block, note_leader, send, insert_fork, Roots, Sent, WasmService, executed, hashes_of,
  roots_of, same_roots, settle_block, store_hashes, update_db_fork, with_roots,
}
use trinci.Node.Database.{load_block}
use trinci.Node.Execution.Transactions.{execute_block_transactions}
use trinci.Node.Execution.Settled.{already_there, executes, run_txs, the_state}

module _ ⦃i : Identity⦄ ⦃e : Setting⦄ where
  -- The block that the builder proposes, under a signature.
  abbrev signed : List ℕ → Block → Block
  signed signature block = record block { signature = signature }

  same_roots-with_roots :
      (roots : Roots) (block : Block) (signature : List ℕ)
      → same_roots roots (signed signature (with_roots roots block)) ≡ true
  same_roots-with_roots roots block signature =
      rw
        (
          eq_refl ⦃e = Hash_eq⦄ roots.0,
          eq_refl ⦃e = Hash_eq⦄ roots.1,
          eq_refl ⦃e = Hash_eq⦄ roots.2,
        )
        refl

  -- What the other node ends in.
  abbrev accepted : Block → List Hash → e.forks.Fork → WasmService e → WasmService e
  accepted b txs_hashes fork s =
      insert_fork (get_block_hash e.block_codec b) fork
        (send (Sent.block_execution_ended b txs_hashes) s)

  builder_settles :
      (block : Block) (round : ℕ) (txs_hashes : List Hash) (roots : Roots) (fork : e.forks.Fork)
      (s : WasmService e)
      → get_builder_id block ≡ some s.node_id
      → settle_block block round txs_hashes roots fork s
        ≡ returns (
          ok tt,
          insert_fork
              (get_block_hash e.block_codec (with_roots roots block))
              fork
              (send (Sent.proposal_after_build (with_roots roots block) round txs_hashes) s),
        )
  unfolding settle_block
  builder_settles block round txs_hashes roots fork s builder =
      rw (settle_block, builder, eq_refl s.node_id) refl

  verifier_settles :
      (block : Block) (signature : List ℕ) (round : ℕ) (txs_hashes : List Hash) (roots : Roots)
      (fork : e.forks.Fork) (s : WasmService e) (id : String)
      → get_builder_id (signed signature (with_roots roots block)) ≡ some id
      → (id == s.node_id) ≡ false
      → ltb 0 block.content.height ≡ true
      → settle_block (signed signature (with_roots roots block)) round txs_hashes roots fork s
        ≡ returns (ok tt, accepted (signed signature (with_roots roots block)) txs_hashes fork s)
  unfolding settle_block
  verifier_settles block signature round txs_hashes roots fork s id builder other high =
      rw (settle_block, builder, other, high, same_roots-with_roots roots block signature) refl

  proposed :
      (b c : Block) (round : ℕ) (hs ks : List Hash) (out : List Sent)
      → Path
          (List Sent)
          (Sent.proposal_after_build b round hs ∷ out)
          (Sent.proposal_after_build c round ks ∷ out)
      → (b ≡ c) × (hs ≡ ks)
  proposed b c round hs ks out h = (cc, cc)

  -- The other node's result, where the proposed block is `b` and its hashes are `hs`.
  abbrev Accepts :
      ℕ
      → List Transaction
      → WasmService e
      → Reply e (List Hash)
      → List ℕ
      → Block
      → List Hash
      → Type 0
  Accepts round txs t E signature b hs =
      (v : WasmService e) × (executed (signed signature b) round txs t E ≡ returns (ok tt, v))
      × (v.outbox ≡ Sent.block_execution_ended (signed signature b) hs ∷ t.outbox)

  module _ (block built : Block) (signature : List ℕ) (round round' : ℕ) (txs : List Transaction)
      (hashes : List Hash) (s t u : WasmService e) where
    executed-agrees :
        (E : Reply e (List Hash))
        → get_builder_id block ≡ some s.node_id
        → (s.node_id == t.node_id) ≡ false
        → ltb 0 block.content.height ≡ true
        → executed block round txs s E ≡ returns (ok tt, u)
        → u.outbox ≡ Sent.proposal_after_build built round hashes ∷ s.outbox
        → ((roots : Roots) × (with_roots roots block ≡ built))
          × Accepts round' txs t E signature built hashes
    unfolding executed update_db_fork get_builder_id
    executed-agrees (Reply.done receipts w) builder other high done sent =
        let height = block.content.height in
        let hs = hashes_of height txs in
        let stored = store_hashes height hs receipts w.fork in
        let roots = roots_of height w.fork stored in
        let mine = with_roots roots block in
        let e1 = the_state (ok tt) (ok tt) _ u (
          sym
            (builder_settles block round hs roots stored (record s { machine = w.machine }) builder)
          ∙ done) in
        let same = proposed mine built round hs hashes s.outbox (ap (λ x. x.outbox) e1 ∙ sent) in
        (
          (roots, same.0),
          subst (λ b. Accepts round' txs t (Reply.done receipts w) signature b hashes) same.0
              (subst (λ l. Accepts round' txs t (Reply.done receipts w) signature mine l) same.1
                (
                  accepted (signed signature mine) hs stored (record t { machine = w.machine }),
                  verifier_settles block signature round' hs roots stored
                      (record t { machine = w.machine }) s.node_id builder other high,
                  refl,
                )),
        )
    executed-agrees (Reply.failed error w) builder other high done sent = cc
    executed-agrees Reply.crashed builder other high done sent = cc

  note_leader-same :
      (leader : Option String) (block b : Block) (m n id : String) (fork : e.forks.Fork)
      → get_builder_id block ≡ some id
      → get_builder_id b ≡ some id
      → note_leader leader b n fork ≡ note_leader leader block m fork
  unfolding note_leader
  note_leader-same none block b m n id fork h k = refl
  note_leader-same (some expected) block b m n id fork h k = rw (note_leader, h, k) refl

  runs_same :
      (leader : Option String) (block : Block) (roots : Roots) (signature : List ℕ) (round : ℕ)
      (txs : List Transaction) (s : WasmService e) (other_id : String)
      (forks : List (Hash × e.forks.Fork)) (out : List Sent)
      → get_builder_id block ≡ some s.node_id
      → is_some (load_block e.indexes s.db block.content.height) ≡ false
      → execute_block leader
          (signed signature (with_roots roots block))
          round
          txs
          (record s { node_id = other_id; forks_collector = forks; outbox = out })
        ≡ executed
            (signed signature (with_roots roots block))
            round
            txs
            (record s { node_id = other_id; forks_collector = forks; outbox = out })
            (run_txs leader block txs s)
  unfolding get_builder_id
  runs_same leader block roots signature round txs s other_id forks out builder new =
      let b = signed signature (with_roots roots block) in
      let t = record s { node_id = other_id; forks_collector = forks; outbox = out } in
      executes leader b round txs t new
      ∙ ap
          (λ f. executed b round txs t (
            execute_block_transactions s.network_name s.burning_fuel_method txs block.content.height
              0 block.content.timestamp (record { machine = s.machine; fork = f })))
          (note_leader-same leader block b s.node_id other_id s.node_id (e.forks.create s.db)
            builder builder)

  -- Where the builder of a block above the genesis executes it and proposes a block with the hashes of the
  -- transactions, another node with the same database, the same state of the machine, the same settings
  -- and the same response about the leader, which executes the same transactions for the proposed block
  -- under any signature, accepts it: its execution ends without an error, and it sends the block with
  -- these hashes as executed.
  pub execute_block-agrees :
      (leader : Option String) (block built : Block) (signature : List ℕ) (round round' : ℕ)
      (txs : List Transaction) (hashes : List Hash) (s u : WasmService e) (other_id : String)
      (forks : List (Hash × e.forks.Fork)) (out : List Sent)
      → get_builder_id block ≡ some s.node_id
      → (s.node_id == other_id) ≡ false
      → 0 < block.content.height
      → execute_block leader block round txs s ≡ returns (ok tt, u)
      → u.outbox ≡ Sent.proposal_after_build built round hashes ∷ s.outbox
      → (v : WasmService e) × (execute_block leader
            (record built { signature = signature })
            round'
            txs
            (record s { node_id = other_id; forks_collector = forks; outbox = out })
          ≡ returns (ok tt, v))
        × (v.outbox
            ≡ Sent.block_execution_ended (record built { signature = signature }) hashes ∷ out)
  execute_block-agrees leader block built signature round round' txs hashes s u other_id forks out
        builder other high done sent =
      elim (Bool-cases (is_some (load_block e.indexes s.db block.content.height))) [
        | inl known ↦ absurd (already_there leader block round txs s u known done)
        | inr new ↦
            let t = record s { node_id = other_id; forks_collector = forks; outbox = out } in
            let high' : ltb 0 block.content.height ≡ true = ground arith in
            let ((roots, same), (v, runs, sent')) =
              executed-agrees block built signature round round' txs hashes s t u
                (run_txs leader block txs s) builder other high'
                (sym (executes leader block round txs s new) ∙ done) sent in
            (
              v,
              subst
                    (λ b.
                      execute_block leader (signed signature b) round' txs t
                      ≡ executed (signed signature b) round' txs t (run_txs leader block txs s))
                    same
                    (runs_same leader block roots signature round' txs s other_id forks out builder
                      new)
                  ∙ runs,
              sent',
            )
      ]
