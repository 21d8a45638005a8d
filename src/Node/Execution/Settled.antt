-- ===== src/Node/Execution/Settled.antt =====
-- `execute_block` after the lookup of its height.
use trinci.Base.{◌≢◌, is_some, Option, ℕ, true, false, ◌≡◌, refl, ap, List, String, String_eq}
use trinci.Base.Outcome.{returns-injective, Outcome, returns}
use trinci.Base.Result.{err, ok}
use trinci.Crypto.Hash.{Hash, Hash_eq}
use trinci.Node.Identity.{Identity}
use trinci.Node.Models.{Block}
use trinci.Node.Transactions.{Transaction}
use trinci.Node.Execution.State.{Reply, Setting}
use trinci.Node.Execution.Blocks.{Handled, execute_block, note_leader, WasmService, executed}
use trinci.Node.Database.{load_block}
use trinci.Node.Execution.Transactions.{execute_block_transactions}
use trinci.Node.Errors.{DbError, NodeError}

module _ ⦃i : Identity⦄ ⦃e : Setting⦄ where
  pub the_state :
      {A : Type 0} (r q : A) (u v : WasmService e)
      → Path (Outcome (A × WasmService e)) (returns (r, u)) (returns (q, v))
      → u ≡ v
  the_state r q u v h = ap (λ p. p.1) (returns-injective h)

  pub no_error :
      (error : NodeError) (s u : WasmService e)
      → Path (Handled e) (returns (err error, s)) (returns (ok tt, u))
      → ⊥
  no_error error s u h = cc

  -- The execution of the transactions, where the block is new.
  abbrev pub run_txs :
      Option String → Block → List Transaction → WasmService e → Reply e (List Hash)
  run_txs leader block txs s =
      execute_block_transactions s.network_name s.burning_fuel_method txs block.content.height 0
        block.content.timestamp
        (record {
          machine = s.machine;
          fork = note_leader leader block s.node_id (e.forks.create s.db);
        })

  pub executes :
      (leader : Option String) (block : Block) (round : ℕ) (txs : List Transaction)
      (s : WasmService e)
      → is_some (load_block e.indexes s.db block.content.height) ≡ false
      → execute_block leader block round txs s
        ≡ executed block round txs s (run_txs leader block txs s)
  unfolding execute_block
  executes leader block round txs s new = rw (execute_block, new) refl

  pub already_there :
      (leader : Option String) (block : Block) (round : ℕ) (txs : List Transaction)
      (s u : WasmService e)
      → is_some (load_block e.indexes s.db block.content.height) ≡ true
      → execute_block leader block round txs s ≢ returns (ok tt, u)
  unfolding execute_block
  already_there leader block round txs s u known done =
      let e1 : Path (Handled e) (returns (err (NodeError.db_error DbError.block_already_in_db), s))
          (returns (ok tt, u)) =
        rw (execute_block, known) at done in
      cc
