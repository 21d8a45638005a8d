-- ===== src/Node/Execution/Complete.antt =====
-- A bulk transaction that succeeds ran in full.
use trinci.Base.{sym, subst, ℕ, true, false, ◌≡◌, refl, ap, ◌∙◌, List, ◌∷◌, map, String, all}
use trinci.Base.Result.{Result, ok, err}
use trinci.Crypto.Hash.{Hash}
use trinci.Node.Identity.{Identity}
use trinci.Node.Database.{SmartContractEvent}
use trinci.Node.Errors.{WasmError}
use trinci.Node.Transactions.{TransactionDataV1, BulkNodes, TransactionData}
use trinci.Node.Execution.State.{
  BulkResult, HandleTransactionReturns, Reply, Setting, World, app_hash_check, call, give, reads,
}
use trinci.Node.Execution.Triples.{
  Triple-fact, Post, Triple, Triple-any, Triple-bind, Triple-found, Triple-give, Triple-if,
}
use trinci.Node.Execution.Units.{is_foreign}
use trinci.Node.Execution.Bulks.{handle_bulk_nodes_execution, text_of}
use trinci.Node.Execution.Roots.{
  refused_root, known_root, call_root, BulkReturns, RootReturns, after_root, all_succeeded,
  conclude, conclude_bulk, execute_bulk, execute_root, handle_bulk_transaction, handle_bulk_v1,
  proceed, unless,
}
use trinci.Node.Execution.Ran.{Free, RanAll, node_hashes, nodes-RanAll}

module _ ⦃i : Identity⦄ ⦃e : Setting⦄ where
  -- The results of the root and of every node, all of them successes.
  abbrev pub IsComplete : TransactionData → BulkNodes → List (String × BulkResult) → Type 0
  IsComplete root ns results =
      (map (λ r. r.0) results ≡ e.hex (e.codec.primary_hash root) ∷ node_hashes ns)
      × (all (λ r. r.1.success) results ≡ true)

  abbrev Completes : TransactionData → BulkNodes → BulkReturns → World e → Type 0
  Completes root ns v s = all_succeeded v.1 ≡ true → IsComplete root ns v.1

  after_root-Completes :
      (network_name : String) (root : TransactionData) (ns : BulkNodes) (limit height time : ℕ)
      (r : Result WasmError (List ℕ)) (events : List SmartContractEvent) (burnt : ℕ)
      → Triple Free
          (after_root network_name root ns limit height time r events burnt)
          (Completes root ns)
  unfolding after_root
  after_root-Completes network_name root ns limit height time (ok rcpt) events burnt =
      Triple-bind (RanAll ns) (handle_bulk_nodes_execution _ ns height _ time) _
        (nodes-RanAll network_name ns height _ time)
        (λ later.
          Triple-give _
            (λ s p good. (ap (λ l. e.hex (e.codec.primary_hash root) ∷ l) (p good), good)))
  after_root-Completes network_name root ns limit height time (err error) events burnt =
      Triple-bind (λ a s. Unit) (text_of error) _ (Triple-any (text_of error))
        (λ text. Triple-give _ (λ s p good. absurd (let f : false ≡ true = good in cc)))

  -- A fault carries a receipt without success.
  abbrev IsFault : WasmError → Type 0
  IsFault (WasmError.bulk_execution_fault receipt) = receipt.success ≡ false
  IsFault error = Unit

  abbrev Rooted : Result WasmError RootReturns → World e → Type 0
  Rooted (ok v) s = Unit
  Rooted (err error) s = IsFault error

  abbrev EndsComplete : TransactionData → BulkNodes → Result WasmError BulkReturns → Type 0
  EndsComplete root ns (ok v) = all_succeeded v.1 ≡ true → IsComplete root ns v.1
  EndsComplete root ns (err error) = IsFault error

  checked_root :
      (d : TransactionDataV1) (caller : String) (limit height index time : ℕ)
      (r : Result WasmError Hash)
      → Triple Free
          (elim r [
            | ok app_hash ↦ call_root d caller app_hash limit time
            | err error ↦ refused_root height index error
          ])
          Rooted
  unfolding call_root refused_root
  checked_root d caller limit height index time (ok app_hash) =
      Triple-bind (λ a s. Unit) (call _) _ (Triple-any (call _))
        (λ called. Triple-give _ (λ s p. tt))
  checked_root d caller limit height index time (err error) =
      Triple-bind (λ a s. Unit) (text_of error) _ (Triple-any (text_of error))
        (λ text. Triple-give _ (λ s p. refl))

  execute_root-Rooted :
      (network_name : String) (root : TransactionData) (caller : String)
      (limit height index time : ℕ)
      → Triple Free (execute_root network_name root caller limit height index time) Rooted
  unfolding execute_root known_root
  execute_root-Rooted network_name (TransactionData.bulk_root_v1 d) caller limit height index time =
      Triple-if (is_foreign d.network network_name height) (give _)
        (known_root d caller limit height index time) (λ foreign. Triple-give _ (λ s p. refl))
        (λ known.
          Triple-bind (λ a s. Unit) (app_hash_check _ _ _) _ (Triple-any (app_hash_check _ _ _))
            (checked_root d caller limit height index time))
  execute_root-Rooted network_name (TransactionData.bulk_empty_root d) caller limit height index
        time =
      Triple-give _ (λ s p. tt)
  execute_root-Rooted network_name (TransactionData.v1 d) caller limit height index time =
      Triple-give _ (λ s p. refl)
  execute_root-Rooted network_name (TransactionData.bulk_node_v1 d) caller limit height index time =
      Triple-give _ (λ s p. refl)
  execute_root-Rooted network_name (TransactionData.bulk_v1 r ns) caller limit height index time =
      Triple-give _ (λ s p. refl)

  proceed-Complete :
      (network_name : String) (root : TransactionData) (ns : BulkNodes) (limit height time : ℕ)
      (r : Result WasmError RootReturns)
      → Triple
          (Rooted r)
          (proceed network_name root ns limit height time r)
          (λ v s. EndsComplete root ns v)
  unfolding proceed
  proceed-Complete network_name root ns limit height time (err error) = Triple-give _ (λ s p. p)
  proceed-Complete network_name root ns limit height time (ok (fuel, result, events)) =
      Triple-bind (Completes root ns)
        (after_root network_name root ns limit height time result events _) _
        (after_root-Completes network_name root ns limit height time result events _)
        (λ returned. Triple-give _ (λ s p. p))

  -- What a receipt of success says of a bulk transaction.
  abbrev pub SaysComplete : TransactionData → BulkNodes → HandleTransactionReturns → Type 0
  SaysComplete root ns res =
      res.receipt.success ≡ true
      → (results : List (String × BulkResult)) × (res.receipt.returns ≡ e.rmp_results results)
        × IsComplete root ns results

  conclude_bulk-Complete :
      (d root : TransactionData) (ns : BulkNodes) (caller : String) (height index : ℕ)
      (r : Result WasmError BulkReturns)
      → Triple
          (λ s. EndsComplete root ns r)
          (conclude_bulk d caller height index r)
          (λ res s. SaysComplete root ns res)
  unfolding conclude_bulk conclude
  conclude_bulk-Complete d root ns caller height index (ok (events, results)) =
      Triple-bind (λ a s. EndsComplete root ns (ok (events, results)))
        (unless (all_succeeded results)) _ (Triple-fact _ (unless (all_succeeded results)))
        (λ u. Triple-give _ (λ s p good. (results, refl, p good)))
  conclude_bulk-Complete d root ns caller height index (err (WasmError.bulk_execution_fault r)) =
      Triple-give _ (λ s p good. absurd (let f : false ≡ true = sym p ∙ good in cc))
  conclude_bulk-Complete d root ns caller height index (err (WasmError.account_fault m)) = record {
    at = λ s p. tt;
  }
  conclude_bulk-Complete d root ns caller height index
        (err (WasmError.block_execution_mismatch b h k l)) =
      record { at = λ s p. tt }
  conclude_bulk-Complete d root ns caller height index (err (WasmError.fuel_error m)) = record {
    at = λ s p. tt;
  }
  conclude_bulk-Complete d root ns caller height index (err (WasmError.invalid_contract m)) =
      record { at = λ s p. tt }
  conclude_bulk-Complete d root ns caller height index (err (WasmError.not_implemented m)) =
      record { at = λ s p. tt }
  conclude_bulk-Complete d root ns caller height index (err (WasmError.resource_not_found m)) =
      record { at = λ s p. tt }
  conclude_bulk-Complete d root ns caller height index (err (WasmError.smart_contract_fault m)) =
      record { at = λ s p. tt }
  conclude_bulk-Complete d root ns caller height index (err (WasmError.wasm_machine_fault m)) =
      record { at = λ s p. tt }

  handle_bulk_transaction-Complete :
      (network_name : String) (root : TransactionData) (ns : BulkNodes) (height index time : ℕ)
      → Triple Free
          (handle_bulk_transaction network_name (TransactionData.bulk_v1 root ns) height index time)
          (λ res s. SaysComplete root ns res)
  unfolding handle_bulk_transaction execute_bulk handle_bulk_v1
  handle_bulk_transaction-Complete network_name root ns height index time =
      let d = TransactionData.bulk_v1 root ns in
      Triple-found _ _ _ (λ caller.
        Triple-bind (λ a s. Unit) (reads _) _ (Triple-any (reads _))
          (λ limit.
            Triple-bind (λ v s. EndsComplete root ns v)
              (execute_bulk network_name d caller limit height index time) _
              (Triple-bind Rooted (execute_root network_name root caller limit height index time) _
                (execute_root-Rooted network_name root caller limit height index time)
                (proceed-Complete network_name root ns limit height time))
              (conclude_bulk-Complete d root ns caller height index)))

  -- Where the handling of a bulk transaction ends in a receipt with success, what it returns is the
  -- serialization of results that are all successes, of the root and then of every node, in their order.
  pub handle_bulk_transaction-IsComplete :
      (network_name : String) (root : TransactionData) (ns : BulkNodes) (height index time : ℕ)
      (s s' : World e) (res : HandleTransactionReturns)
      → handle_bulk_transaction network_name (TransactionData.bulk_v1 root ns) height index time s
        ≡ Reply.done res s'
      → res.receipt.success ≡ true
      → (results : List (String × BulkResult)) × (res.receipt.returns ≡ e.rmp_results results)
        × IsComplete root ns results
  handle_bulk_transaction-IsComplete network_name root ns height index time s s' res done =
      subst (Post (λ res s. SaysComplete root ns res)) done
        ((handle_bulk_transaction-Complete network_name root ns height index time).at s tt)
