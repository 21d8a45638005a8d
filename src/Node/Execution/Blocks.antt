-- ===== src/Node/Execution/Blocks.antt =====
-- wasm_service.rs: the state of `WasmService`, `execute_block`, `update_db_fork`, `consolidate_block` (with the
-- feature standalone), and the handlers. A write lock of the database is always got. `leader` is what the
-- consensus service responds, `none` where it does not; an outbox holds what is sent, the newest first.
use trinci.Base.{
  ℕ, Bool, false, not, ◌&&◌, ◌==◌, ltb, Option, none, some, List, [], ◌∷◌, map, String, String_eq,
  if◌then◌else◌, is_some, find, retain,
}
use trinci.Base.Outcome.{Outcome, returns, panics, expect, ◌>>=◌}
use trinci.Base.Result.{Result, ok, err}
use trinci.Artifacts.Models.Players.{Players}
use trinci.Crypto.Hash.{Hash, Hash_eq}
use trinci.Node.Identity.{Identity}
use trinci.Node.Models.{Block, Confirmation, get_block_hash, get_builder_id}
use trinci.Node.Database.{
  Database, SmartContractEvent, Receipt, load_block, load_receipt, remove_account_data,
  store_account_data, store_block, store_receipts_hashes, store_transactions_hashes,
}
use trinci.Node.Errors.{DbError, NodeError, WasmError}
use trinci.Node.Integrity.{get_hash}
use trinci.Node.Transactions.{Transaction}
use trinci.Node.Validators.{collect_players}
use trinci.Node.Execution.State.{Reply, Setting}
use trinci.Node.Execution.Transactions.{execute_block_transactions, service_account_id}

abbrev pub slashed_key : String
slashed_key = "blockchain:slashed_player"

module _ ⦃i : Identity⦄ where
  -- What the service sends: messages to the services of the core, and events.
  pub data Sent : Type 0 where
    proposal_after_build : Block → ℕ → List Hash → Sent
    block_execution_ended : Block → List Hash → Sent
    block_consolidated : Block → List Hash → Players → Sent
    block_event : Block → List Hash → Sent
    contract_event : SmartContractEvent → Sent

module _ ⦃i : Identity⦄ (e : Setting) where
  pub record WasmService : Type 0 where
    pub burning_fuel_method : String
    pub db : Database e.indexes
    pub forks_collector : List (Hash × e.forks.Fork)
    pub node_id : String
    pub network_name : String
    pub machine : e.wm.State
    pub outbox : List Sent

  -- A handler ends with a result, or panics.
  abbrev pub Handled : Type 0
  Handled = Outcome (Result NodeError Unit × WasmService)

module _ ⦃i : Identity⦄ ⦃e : Setting⦄ where
  abbrev pub or_local : String → Option String → String
  or_local node_id none = node_id
  or_local node_id (some id) = id

  abbrev pub or_empty : Option String → String
  or_empty none = ""
  or_empty (some id) = id

  -- The note about the leader who did not build the block.
  unfoldable pub note_leader : Option String → Block → String → e.forks.Fork → e.forks.Fork
  unfolding remove_account_data store_account_data
  note_leader none block node_id fork = fork
  note_leader (some expected) block node_id fork =
      e.forks.write
        (if expected == or_local node_id (get_builder_id block)
          then remove_account_data e.indexes service_account_id slashed_key
          else store_account_data e.indexes service_account_id slashed_key
              (e.rmp_slashed (expected, false)))
        fork

  abbrev pub insert_fork : Hash → e.forks.Fork → WasmService e → WasmService e
  insert_fork hash fork s = record s {
    forks_collector = (hash, fork) ∷ retain (λ p. not (p.0 == hash)) s.forks_collector;
  }

  abbrev pub send : Sent → WasmService e → WasmService e
  send message s = record s { outbox = message ∷ s.outbox }

  -- The hashes of the transactions: of the genesis block they are of the signed transactions.
  abbrev pub hashes_of : ℕ → List Transaction → List Hash
  hashes_of height txs =
      map (λ tx. if ltb 0 height then get_hash e.codec tx else e.tx_primary_hash tx) txs

  abbrev push_each : List SmartContractEvent → List Sent → List Sent
  push_each [] out = out
  push_each (event ∷ events) out = push_each events (Sent.contract_event event ∷ out)

  abbrev push_events : Option (List SmartContractEvent) → List Sent → List Sent
  push_events none out = out
  push_events (some events) out = push_each events out

  abbrev events_of : Option Receipt → List Sent → List Sent
  events_of none out = out
  events_of (some receipt) out = push_events receipt.events out

  -- The events of the contracts that the receipts of a block hold.
  unfoldable pub contract_events : Database e.indexes → List Hash → List Sent → List Sent
  unfolding load_receipt
  contract_events db [] out = out
  contract_events db (hash ∷ hashes) out =
      contract_events db hashes (events_of (load_receipt e.indexes db hash) out)

  unfoldable pub finish : Block → List Hash → Database e.indexes → WasmService e → Handled e
  unfolding ◌>>=◌ collect_players contract_events
  finish block txs_hashes db s = do
    players ← collect_players e.indexes e.validators db
    returns (
      ok tt,
      record s {
        db = db;
        forks_collector = [];
        outbox =
            Sent.block_consolidated block txs_hashes players
            ∷ contract_events db txs_hashes (Sent.block_event block txs_hashes ∷ s.outbox);
      },
    )

  -- The fork that is removed from the collector is merged, with the block.
  unfoldable pub consolidate_block :
      Block → List Confirmation → List Hash → WasmService e → Handled e
  unfolding ◌>>=◌ expect get_block_hash store_block finish
  consolidate_block block confirmations txs_hashes s = do
    let block_hash = get_block_hash e.block_codec block
    found ← expect (find (λ p. p.0 == block_hash) s.forks_collector)
    let fork = e.forks.write (store_block e.indexes block confirmations) found.1
    let left = record s {
      forks_collector = retain (λ p. not (p.0 == block_hash)) s.forks_collector;
    }
    elim (e.forks.merge fork s.db) [
      | none ↦ returns (err (NodeError.db_error DbError.merge_fork), left)
      | some db ↦ finish block txs_hashes db left
    ]

  -- What an execution computes: the state hash, the roots of the transactions and of the receipts.
  abbrev pub Roots : Type 0
  Roots = Hash × Hash × Hash

  abbrev pub with_roots : Roots → Block → Block
  with_roots roots block = record block {
    content = record block.content { state_hash = roots.0; txs_hash = roots.1; rxs_hash = roots.2 };
  }

  abbrev pub same_roots : Roots → Block → Bool
  same_roots roots block =
      block.content.state_hash == roots.0
      && (block.content.txs_hash == roots.1 && block.content.rxs_hash == roots.2)

  unfoldable pub store_hashes : ℕ → List Hash → List Hash → e.forks.Fork → e.forks.Fork
  unfolding store_transactions_hashes store_receipts_hashes
  store_hashes height txs_hashes receipts_hashes fork =
      e.forks.write (store_receipts_hashes e.indexes height receipts_hashes)
        (e.forks.write (store_transactions_hashes e.indexes height txs_hashes) fork)

  -- The state is hashed before the hashes of the block are stored.
  unfoldable pub roots_of : ℕ → e.forks.Fork → e.forks.Fork → Roots
  roots_of height before after = (
    e.forks.state_hash (e.forks.view before) "",
    e.forks.root ((e.forks.view after).transactions_hash height),
    e.forks.root ((e.forks.view after).receipts_hash height),
  )

  -- The builder proposes the block with the roots, another node compares them, and the genesis block is
  -- consolidated at once.
  unfoldable pub settle_block :
      Block → ℕ → List Hash → Roots → e.forks.Fork → WasmService e → Handled e
  unfolding get_builder_id get_block_hash consolidate_block
  settle_block block round txs_hashes roots fork s =
      let built = with_roots roots block in
      if or_empty (get_builder_id block) == s.node_id
      then returns (
        ok tt,
        insert_fork (get_block_hash e.block_codec built) fork
            (send (Sent.proposal_after_build built round txs_hashes) s),
      )
      else if ltb 0 block.content.height
      then (if same_roots roots block
          then returns (
            ok tt,
            insert_fork (get_block_hash e.block_codec block) fork
                (send (Sent.block_execution_ended block txs_hashes) s),
          )
          else returns (
            err (
                NodeError.wasm_error
                  (WasmError.block_execution_mismatch block.content roots.0 roots.1 roots.2)),
            s,
          ))
      else consolidate_block built [] txs_hashes
          (insert_fork (get_block_hash e.block_codec built) fork s)

  unfoldable pub update_db_fork :
      e.forks.Fork → Block → ℕ → List Transaction → List Hash → WasmService e → Handled e
  unfolding store_hashes roots_of settle_block
  update_db_fork fork block round txs receipts_hashes s =
      let height = block.content.height in
      let txs_hashes = hashes_of height txs in
      let stored = store_hashes height txs_hashes receipts_hashes fork in
      settle_block block round txs_hashes (roots_of height fork stored) stored s

  -- After the transactions of the block.
  unfoldable pub executed :
      Block → ℕ → List Transaction → WasmService e → Reply e (List Hash) → Handled e
  unfolding update_db_fork
  executed block round txs s (Reply.done receipts_hashes w) =
      update_db_fork w.fork block round txs receipts_hashes (record s { machine = w.machine })
  executed block round txs s (Reply.failed error w) =
      returns (err error, record s { machine = w.machine })
  executed block round txs s Reply.crashed = panics

  unfoldable pub execute_block :
      Option String → Block → ℕ → List Transaction → WasmService e → Handled e
  unfolding executed
  execute_block leader block round txs s =
      if is_some (load_block e.indexes s.db block.content.height)
      then returns (err (NodeError.db_error DbError.block_already_in_db), s)
      else executed block round txs s (
          execute_block_transactions s.network_name s.burning_fuel_method txs block.content.height 0
            block.content.timestamp
            (record {
              machine = s.machine;
              fork = note_leader leader block s.node_id (e.forks.create s.db);
            }))
