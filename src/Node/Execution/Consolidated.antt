-- ===== src/Node/Execution/Consolidated.antt =====
-- The consolidation of a block that was executed.
use trinci.Base.{
  arith, is_some, ◌<◌, String, Option, subst, inr, sym, inl, Bool-cases, true, ltb, ℕ, not, ◌≡◌,
  refl, ◌∙◌, ◌⊎◌, List, [], ◌∷◌, String_eq, ◌==◌, some, eq_refl, find, retain,
}
use trinci.Base.Outcome.{returns, ◌>>=◌, expect}
use trinci.Base.Result.{err, ok}
use trinci.Artifacts.Models.Players.{Players}
use trinci.Crypto.Hash.{Hash, Hash_eq}
use trinci.Node.Identity.{Identity}
use trinci.Node.Transactions.{Transaction}
use trinci.Node.Models.{get_builder_id, Block, Confirmation, get_block_hash}
use trinci.Node.Database.{load_block, Database, store_block}
use trinci.Node.Validators.{collect_players}
use trinci.Node.Execution.State.{Reply, Setting, World}
use trinci.Node.Execution.Blocks.{
  hashes_of, store_hashes, execute_block, update_db_fork, executed, same_roots, send, with_roots,
  or_empty, Roots, settle_block, Handled, Sent, WasmService, consolidate_block, finish, insert_fork,
  contract_events,
}
use trinci.Node.Errors.{WasmError, NodeError}
use trinci.Node.Execution.Settled.{executes, run_txs, already_there, no_error, the_state}

module _ ⦃i : Identity⦄ ⦃e : Setting⦄ where
  -- The block is merged, and told to the block service.
  abbrev pub IsConsolidated :
      Block → List Confirmation → List Hash → Players → e.forks.Fork → Handled e → Type 0
  IsConsolidated block confirmations hashes players fork handled =
      (v : WasmService e) × (handled ≡ returns (ok tt, v))
      × (v.db ≡ store_block e.indexes block confirmations (e.forks.view fork))
      × (v.forks_collector ≡ [])
      × ((rest : List Sent) × (v.outbox ≡ Sent.block_consolidated block hashes players ∷ rest))

  abbrev finished : Block → List Hash → Database e.indexes → Players → WasmService e → WasmService e
  finished block hashes db players s = record s {
    db = db;
    forks_collector = [];
    outbox =
        Sent.block_consolidated block hashes players
        ∷ contract_events db hashes (Sent.block_event block hashes ∷ s.outbox);
  }

  finish_lem :
      (block : Block) (hashes : List Hash) (db : Database e.indexes) (s : WasmService e)
      (players : Players)
      → collect_players e.indexes e.validators db ≡ returns players
      → finish block hashes db s ≡ returns (ok tt, finished block hashes db players s)
  unfolding ◌>>=◌ finish
  finish_lem block hashes db s players known = rw (finish, known) refl

  pub consolidate_found :
      (block : Block) (confirmations : List Confirmation) (hashes : List Hash) (s : WasmService e)
      (p : Hash × e.forks.Fork) (db : Database e.indexes) (players : Players)
      → find (λ q. q.0 == get_block_hash e.block_codec block) s.forks_collector ≡ some p
      → e.forks.merge (e.forks.write (store_block e.indexes block confirmations) p.1) s.db ≡ some db
      → collect_players e.indexes e.validators db ≡ returns players
      → IsConsolidated block confirmations hashes players p.1
          (consolidate_block block confirmations hashes s)
  unfolding ◌>>=◌ expect consolidate_block
  consolidate_found block confirmations hashes s p db players there merged known =
      let left = record s {
        forks_collector =
            retain (λ q. not (q.0 == get_block_hash e.block_codec block)) s.forks_collector;
      } in
      (
        finished block hashes db players left,
        rw (consolidate_block, there, merged) (finish_lem block hashes db left players known),
        e.forks.merge-view _ s.db db merged ∙ e.forks.view-write _ p.1,
        refl,
        (_, refl),
      )

  -- Whatever the block is settled as above the genesis, its fork is there under its hash.
  there_after :
      (hash : Hash) (fork : e.forks.Fork) (s : WasmService e)
      → find (λ q. q.0 == hash) (insert_fork hash fork s).forks_collector ≡ some (hash, fork)
  there_after hash fork s = rw (eq_refl ⦃e = Hash_eq⦄ hash) refl

  ended :
      (b c : Block) (hs ks : List Hash) (out : List Sent)
      → Path
          (List Sent)
          (Sent.block_execution_ended b hs ∷ out)
          (Sent.block_execution_ended c ks ∷ out)
      → b ≡ c
  ended b c hs ks out h = cc

  proposed :
      (b c : Block) (m n : ℕ) (hs ks : List Hash) (out : List Sent)
      → Path
          (List Sent)
          (Sent.proposal_after_build b m hs ∷ out)
          (Sent.proposal_after_build c n ks ∷ out)
      → b ≡ c
  proposed b c m n hs ks out h = cc

  -- The last message is about this block, as a proposal or as executed.
  abbrev pub Announces : Block → List Hash → List Sent → List Sent → Type 0
  Announces b hashes out out' =
      ((round : ℕ) × (out' ≡ Sent.proposal_after_build b round hashes ∷ out))
      ⊎ (out' ≡ Sent.block_execution_ended b hashes ∷ out)

  same_block :
      (b c : Block) (hs ks : List Hash) (out out' : List Sent)
      → Announces b hs out out'
      → Announces c ks out out'
      → b ≡ c
  same_block b c hs ks out out' (inl (m, x)) (inl (n, y)) = proposed b c m n hs ks out (sym x ∙ y)
  same_block b c hs ks out out' (inl (m, x)) (inr y) = cc
  same_block b c hs ks out out' (inr x) (inl (n, y)) = cc
  same_block b c hs ks out out' (inr x) (inr y) = ended b c hs ks out (sym x ∙ y)

  -- The fork is that of the execution: the transactions ran, and their hashes and receipts were stored.
  abbrev pub IsExecuted :
      Option String → Block → List Transaction → WasmService e → e.forks.Fork → Type 0
  IsExecuted leader block txs s fork =
      (receipts : List Hash) × (w : World e) × (run_txs leader block txs s ≡ Reply.done receipts w)
      × (fork
          ≡ store_hashes block.content.height (hashes_of block.content.height txs) receipts w.fork)

  -- A block was announced, and the fork is in the collector under its hash.
  abbrev IsKept : e.forks.Fork → WasmService e → WasmService e → Type 0
  IsKept fork s u =
      (b : Block) × (hashes : List Hash) × Announces b hashes s.outbox u.outbox
      × (find (λ q. q.0 == get_block_hash e.block_codec b) u.forks_collector
          ≡ some (get_block_hash e.block_codec b, fork))
      × (u.db ≡ s.db)

  settle_block-IsKept :
      (block : Block) (round : ℕ) (hs : List Hash) (roots : Roots) (fork : e.forks.Fork)
      (s u : WasmService e)
      → ltb 0 block.content.height ≡ true
      → settle_block block round hs roots fork s ≡ returns (ok tt, u)
      → IsKept fork s u
  unfolding settle_block
  settle_block-IsKept block round hs roots fork s u high done =
      elim (Bool-cases (or_empty (get_builder_id block) == s.node_id)) [
        | inl mine ↦
            let built = with_roots roots block in
            let hash = get_block_hash e.block_codec built in
            let u' = insert_fork hash fork (send (Sent.proposal_after_build built round hs) s) in
            let same : u' ≡ u = the_state (ok tt) (ok tt) u' u (rw (settle_block, mine) at done) in
            subst (IsKept fork s) same (built, hs, inl (round, refl), there_after hash fork s, refl)
        | inr other ↦ elim (Bool-cases (same_roots roots block)) [
          | inl equal ↦
              let hash = get_block_hash e.block_codec block in
              let u' = insert_fork hash fork (send (Sent.block_execution_ended block hs) s) in
              let same : u' ≡ u =
                the_state (ok tt) (ok tt) u' u (rw (settle_block, other, high, equal) at done) in
              subst (IsKept fork s) same (block, hs, inr refl, there_after hash fork s, refl)
          | inr differ ↦
              let wrong : Path (Handled e)
                  (returns (
                    err (
                        NodeError.wasm_error (
                          WasmError.block_execution_mismatch block.content roots.0 roots.1
                            roots.2)),
                    s,
                  ))
                  (returns (ok tt, u)) =
                rw (settle_block, other, high, differ) at done in
              absurd (no_error _ s u wrong)
        ]
      ]

  -- The fork that an execution leaves.
  abbrev Leaves : Option String → Block → List Transaction → WasmService e → WasmService e → Type 0
  Leaves leader block txs s u =
      (fork : e.forks.Fork) × IsExecuted leader block txs s fork × IsKept fork s u

  executed-IsKept :
      (leader : Option String) (block : Block) (round : ℕ) (txs : List Transaction)
      (s u : WasmService e) (E : Reply e (List Hash))
      → run_txs leader block txs s ≡ E
      → ltb 0 block.content.height ≡ true
      → executed block round txs s E ≡ returns (ok tt, u)
      → Leaves leader block txs s u
  unfolding executed update_db_fork
  executed-IsKept leader block round txs s u (Reply.done receipts w) ran high done = (
    _,
    (receipts, w, ran, refl),
    settle_block-IsKept block round _ _ _ (record s { machine = w.machine }) u high done,
  )
  executed-IsKept leader block round txs s u (Reply.failed error w) ran high done =
      absurd (no_error error _ u done)
  executed-IsKept leader block round txs s u Reply.crashed ran high done = cc

  execute_block-IsKept :
      (leader : Option String) (block : Block) (round : ℕ) (txs : List Transaction)
      (s u : WasmService e)
      → 0 < block.content.height
      → execute_block leader block round txs s ≡ returns (ok tt, u)
      → Leaves leader block txs s u
  execute_block-IsKept leader block round txs s u high done =
      elim (Bool-cases (is_some (load_block e.indexes s.db block.content.height))) [
        | inl known ↦ absurd (already_there leader block round txs s u known done)
        | inr new ↦
            executed-IsKept leader block round txs s u (run_txs leader block txs s) refl
              (ground arith) (sym (executes leader block round txs s new) ∙ done)
      ]

  -- Where the execution of a block above the genesis ends without an error, and the block that is then
  -- announced, as a proposal or as executed, is consolidated, where the fork of the execution with this
  -- block merges and leaves players that can be read: the transactions of the block ran to their end, the
  -- consolidation does not panic, the database is that of the fork in which they ran, with their hashes,
  -- their receipts' hashes, the block and its confirmations stored, no fork is left in the collector, and
  -- the last message tells the block service of the block and these players.
  pub consolidate_block-IsConsolidated :
      (leader : Option String) (block b : Block) (round : ℕ) (txs : List Transaction)
      (hashes txs_hashes : List Hash) (confirmations : List Confirmation) (s u : WasmService e)
      → 0 < block.content.height
      → execute_block leader block round txs s ≡ returns (ok tt, u)
      → Announces b hashes s.outbox u.outbox
      → ((fork : e.forks.Fork)
          → IsExecuted leader block txs s fork
          → (db : Database e.indexes) × (players : Players) × (e.forks.merge
                (e.forks.write (store_block e.indexes b confirmations) fork)
                s.db
              ≡ some db)
            × (collect_players e.indexes e.validators db ≡ returns players))
      → (fork : e.forks.Fork) × (players : Players) × IsExecuted leader block txs s fork
        × IsConsolidated b confirmations txs_hashes players fork
            (consolidate_block b confirmations txs_hashes u)
  consolidate_block-IsConsolidated leader block b round txs hashes txs_hashes confirmations s u high
        done announced merges =
      let (fork, ran, (c, ks, told, there, db)) =
        execute_block-IsKept leader block round txs s u high done in
      let same = same_block c b ks hashes s.outbox u.outbox told announced in
      let (db', players, merged, known) = merges fork ran in
      (
        fork,
        players,
        ran,
        consolidate_found b confirmations txs_hashes u (get_block_hash e.block_codec b, fork) db'
            players
            (subst
              (λ x.
                find (λ q. q.0 == get_block_hash e.block_codec x) u.forks_collector
                ≡ some (get_block_hash e.block_codec x, fork))
              same there)
            (subst
              (λ d.
                e.forks.merge (e.forks.write (store_block e.indexes b confirmations) fork) d
                ≡ some db')
              (sym db) merged)
            known,
      )
