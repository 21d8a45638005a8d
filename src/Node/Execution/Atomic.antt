-- ===== src/Node/Execution/Atomic.antt =====
-- The units of a transaction: where the handling of one fails, the fork is as before, or as a check that refused
-- its contract left it.
use trinci.Base.{ℕ, Bool, true, false, ◌≡◌, refl, inl, inr, List, String, String_eq}
use trinci.Base.Result.{Result, ok, err}
use trinci.Crypto.Hash.{Hash}
use trinci.Node.Identity.{Identity}
use trinci.Node.Database.{Database, SmartContractEvent}
use trinci.Node.Errors.{WasmError}
use trinci.Node.Transactions.{BulkNodes, Transaction, TransactionData, TransactionDataV1}
use trinci.Node.Execution.State.{Setting, World, app_hash_check, call, give, reads, rollback}
use trinci.Node.Execution.Triples.{
  Triple-text_of, Triple, Triple-bind, Triple-found, Triple-give, Triple-if, Triple-weaken,
}
use trinci.Node.Execution.Units.{is_foreign}
use trinci.Node.Execution.Bulks.{handle_bulk_nodes_execution, text_of}
use trinci.Node.Execution.Roots.{
  BulkReturns, RootReturns, after_root, call_root, conclude, conclude_bulk, execute_bulk,
  execute_root, handle_bulk_transaction, handle_bulk_v1, known_root, proceed, refused_root, unless,
  all_succeeded,
}
use trinci.Node.Execution.Transactions.{handle_transaction}
use trinci.Node.Execution.Rollback.{
  Checked, IsClean, IsRestored, IsSaved, Left, Triple-call, Triple-check, Triple-reads,
  Triple-rollback, handle_unit_transaction-Left,
}
use trinci.Node.Execution.Saves.{Saves, Saves-nodes}

module _ ⦃i : Identity⦄ ⦃e : Setting⦄ (D : Database e.indexes) where
  -- Where a bulk transaction ends in an error, the fork is as it was.
  abbrev Faulted : {A : Type 0} → Result WasmError A → World e → Type 0
  Faulted r s = IsSaved D s × ((error : WasmError) → r ≡ err error → IsRestored D s)

  checked_root :
      (d : TransactionDataV1) (caller : String) (limit height index time : ℕ)
      (r : Result WasmError Hash)
      → Triple
          (Checked D r)
          (elim r [
            | ok app_hash ↦ call_root d caller app_hash limit time
            | err error ↦ refused_root height index error
          ])
          Faulted
  unfolding call_root refused_root
  checked_root d caller limit height index time (ok app_hash) =
      Triple-bind (λ a. IsSaved D) (call _) _ (record { at = λ s p. (Triple-call D _).at s p.0 })
        (λ called. Triple-give _ (λ s p. (p, λ error h. cc)))
  checked_root d caller limit height index time (err error) =
      Triple-bind (λ a. Checked D (err error)) (text_of error) _ (Triple-text_of _ error)
        (λ text. Triple-give _ (λ s p. (p.0, λ why h. inr (p.1 error refl))))

  execute_root-Faulted :
      (network_name : String) (root : TransactionData) (caller : String)
      (limit height index time : ℕ)
      → Triple (IsClean D) (execute_root network_name root caller limit height index time) Faulted
  unfolding execute_root known_root
  execute_root-Faulted network_name (TransactionData.bulk_root_v1 d) caller limit height index
        time =
      Triple-if (is_foreign d.network network_name height) (give _)
        (known_root d caller limit height index time)
        (λ foreign. Triple-give _ (λ s p. (p.1, λ error h. inl p.0)))
        (λ known.
          Triple-bind (Checked D) (app_hash_check _ _ _) _ (Triple-check D _ _ _)
            (checked_root d caller limit height index time))
  execute_root-Faulted network_name (TransactionData.bulk_empty_root d) caller limit height index
        time =
      Triple-give _ (λ s p. (p.1, λ error h. cc))
  execute_root-Faulted network_name (TransactionData.v1 d) caller limit height index time =
      Triple-give _ (λ s p. (p.1, λ error h. inl p.0))
  execute_root-Faulted network_name (TransactionData.bulk_node_v1 d) caller limit height index
        time =
      Triple-give _ (λ s p. (p.1, λ error h. inl p.0))
  execute_root-Faulted network_name (TransactionData.bulk_v1 r ns) caller limit height index time =
      Triple-give _ (λ s p. (p.1, λ error h. inl p.0))

  Saves-after_root :
      (network_name : String) (root : TransactionData) (ns : BulkNodes) (limit height time : ℕ)
      (r : Result WasmError (List ℕ)) (events : List SmartContractEvent) (burnt : ℕ)
      → Saves D (after_root network_name root ns limit height time r events burnt)
  unfolding after_root
  Saves-after_root network_name root ns limit height time (ok rcpt) events burnt =
      Triple-bind (λ a. IsSaved D) (handle_bulk_nodes_execution _ ns height _ time) _
        (Saves-nodes D network_name ns height _ time) (λ later. Triple-give _ (λ s p. p))
  Saves-after_root network_name root ns limit height time (err error) events burnt =
      Triple-bind (λ a. IsSaved D) (text_of error) _ (Triple-text_of (IsSaved D) error)
        (λ text. Triple-give _ (λ s p. p))

  proceed-Faulted :
      (network_name : String) (root : TransactionData) (ns : BulkNodes) (limit height time : ℕ)
      (r : Result WasmError RootReturns)
      → Triple (Faulted r) (proceed network_name root ns limit height time r) Faulted
  unfolding proceed
  proceed-Faulted network_name root ns limit height time (err error) =
      Triple-give _ (λ s p. (p.0, λ why h. p.1 error refl))
  proceed-Faulted network_name root ns limit height time (ok (fuel, result, events)) =
      Triple-bind (λ a. IsSaved D)
        (after_root network_name root ns limit height time result events _) _
        (record {
          at = λ s p.
              (Saves-after_root network_name root ns limit height time result events _).at s p.0;
        })
        (λ returned. Triple-give _ (λ s p. (p, λ error h. cc)))

  execute_bulk-Faulted :
      (network_name : String) (d : TransactionData) (caller : String) (limit height index time : ℕ)
      → Triple (IsClean D) (execute_bulk network_name d caller limit height index time) Faulted
  unfolding execute_bulk handle_bulk_v1
  execute_bulk-Faulted network_name (TransactionData.bulk_v1 root ns) caller limit height index
        time =
      Triple-bind Faulted (execute_root network_name root caller limit height index time) _
        (execute_root-Faulted network_name root caller limit height index time)
        (proceed-Faulted network_name root ns limit height time)
  execute_bulk-Faulted network_name (TransactionData.v1 d) caller limit height index time =
      Triple-give _ (λ s p. (p.1, λ error h. cc))
  execute_bulk-Faulted network_name (TransactionData.bulk_node_v1 d) caller limit height index
        time =
      Triple-give _ (λ s p. (p.1, λ error h. cc))
  execute_bulk-Faulted network_name (TransactionData.bulk_root_v1 d) caller limit height index
        time =
      Triple-give _ (λ s p. (p.1, λ error h. cc))
  execute_bulk-Faulted network_name (TransactionData.bulk_empty_root d) caller limit height index
        time =
      Triple-give _ (λ s p. (p.1, λ error h. cc))

  unless-Restored :
      (success : Bool)
      → Triple
          (IsSaved D)
          (unless success)
          (λ a s. IsSaved D s × (success ≡ false → IsRestored D s))
  unfolding unless
  unless-Restored true = Triple-give _ (λ s p. (p, λ h. cc))
  unless-Restored false = Triple-weaken rollback (Triple-rollback D) (λ a s p. (p.1, λ h. inl p.0))

  conclude_bulk-Left :
      (d : TransactionData) (caller : String) (height index : ℕ) (r : Result WasmError BulkReturns)
      → Triple (Faulted r) (conclude_bulk d caller height index r) (Left D)
  unfolding conclude_bulk conclude
  conclude_bulk-Left d caller height index (ok (events, results)) =
      Triple-bind _ (unless (all_succeeded results)) _
        (record { at = λ s p. (unless-Restored (all_succeeded results)).at s p.0 })
        (λ u. Triple-give _ (λ s p. p))
  conclude_bulk-Left d caller height index (err (WasmError.bulk_execution_fault r)) =
      Triple-give _ (λ s p. (p.0, λ h. p.1 (WasmError.bulk_execution_fault r) refl))
  conclude_bulk-Left d caller height index (err (WasmError.account_fault m)) = record {
    at = λ s p. tt;
  }
  conclude_bulk-Left d caller height index (err (WasmError.block_execution_mismatch b h k l)) =
      record { at = λ s p. tt }
  conclude_bulk-Left d caller height index (err (WasmError.fuel_error m)) = record {
    at = λ s p. tt;
  }
  conclude_bulk-Left d caller height index (err (WasmError.invalid_contract m)) = record {
    at = λ s p. tt;
  }
  conclude_bulk-Left d caller height index (err (WasmError.not_implemented m)) = record {
    at = λ s p. tt;
  }
  conclude_bulk-Left d caller height index (err (WasmError.resource_not_found m)) = record {
    at = λ s p. tt;
  }
  conclude_bulk-Left d caller height index (err (WasmError.smart_contract_fault m)) = record {
    at = λ s p. tt;
  }
  conclude_bulk-Left d caller height index (err (WasmError.wasm_machine_fault m)) = record {
    at = λ s p. tt;
  }

  handle_bulk_transaction-Left :
      (network_name : String) (d : TransactionData) (height index time : ℕ)
      → Triple (IsClean D) (handle_bulk_transaction network_name d height index time) (Left D)
  unfolding handle_bulk_transaction
  handle_bulk_transaction-Left network_name d height index time = Triple-found _ _ _ (λ caller.
      Triple-bind (λ a. IsClean D) (reads _) _ (Triple-reads D _ (IsClean D))
        (λ limit.
          Triple-bind Faulted (execute_bulk network_name d caller limit height index time) _
            (execute_bulk-Faulted network_name d caller limit height index time)
            (conclude_bulk-Left d caller height index)))

  pub handle_transaction-Left :
      (network_name : String) (tx : Transaction) (height index time : ℕ)
      → Triple (IsClean D) (handle_transaction network_name tx height index time) (Left D)
  unfolding handle_transaction
  handle_transaction-Left network_name (Transaction.unit_transaction d s) height index time =
      handle_unit_transaction-Left D network_name d height index time
  handle_transaction-Left network_name (Transaction.bulk_transaction d s) height index time =
      handle_bulk_transaction-Left network_name d height index time
