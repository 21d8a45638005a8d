-- ===== src/Node/Execution/Burnt.antt =====
-- The fuel of a bulk transaction above the height that activates its consumption, where its nodes are of
-- the variant for nodes.
use trinci.Base.{subst, ℕ, ◌+◌, ◌≤◌, ◌<◌, min, ◌≡◌, List, String, arith}
use trinci.Base.Words.{wrapping_add}
use trinci.Base.Result.{Result, ok, err}
use trinci.Node.Identity.{Identity}
use trinci.Node.Database.{SmartContractEvent}
use trinci.Node.Errors.{WasmError}
use trinci.Node.Fuel.{activate_fuel_consumption}
use trinci.Node.Transactions.{BulkNodes, TransactionData}
use trinci.Node.Execution.State.{Reply, Setting, World}
use trinci.Node.Execution.Triples.{Post, Triple, Triple-any, Triple-bind, Triple-give}
use trinci.Node.Execution.Bulks.{charged, handle_bulk_nodes_execution, text_of}
use trinci.Node.Execution.Roots.{
  BulkReturns, RootReturns, after_root, execute_root, handle_bulk_v1, proceed, total_burnt,
}
use trinci.Node.Execution.Ran.{Free}
use trinci.Node.Execution.Unfueled.{AreBulkNodes, Small, charged_above, nodes-Small}

module _ ⦃i : Identity⦄ ⦃e : Setting⦄ (height : ℕ)
    (active : activate_fuel_consumption < height) where
  sum_results :
      (burnt limit total : ℕ)
      → burnt ≤ limit
      → total ≤ 1000
      → wrapping_add burnt total ≤ limit + 1000
  unfolding wrapping_add
  sum_results burnt limit total h k = omega (arith, h, k)

  abbrev Within : ℕ → BulkReturns → World e → Type 0
  Within limit v s = total_burnt v.1 ≤ limit + 1000

  after_root-Within :
      (network_name : String) (root : TransactionData) (ns : BulkNodes) (limit time : ℕ)
      (r : Result WasmError (List ℕ)) (events : List SmartContractEvent) (burnt : ℕ)
      → AreBulkNodes ns
      → burnt ≤ limit
      → Triple Free
          (after_root network_name root ns limit height time r events burnt)
          (Within limit)
  unfolding after_root
  after_root-Within network_name root ns limit time (ok rcpt) events burnt a h =
      Triple-bind (Small height active) (handle_bulk_nodes_execution _ ns height _ time) _
        (nodes-Small height active network_name ns _ time a)
        (λ later. Triple-give _ (λ s p. sum_results burnt limit _ h p))
  after_root-Within network_name root ns limit time (err error) events burnt a h =
      Triple-bind (λ a s. Unit) (text_of error) _ (Triple-any (text_of error))
        (λ text. Triple-give _ (λ s p. sum_results burnt limit 0 h (omega arith)))

  abbrev pub EndsWithin : ℕ → Result WasmError BulkReturns → Type 0
  EndsWithin limit (ok v) = total_burnt v.1 ≤ limit + 1000
  EndsWithin limit (err error) = Unit

  proceed-Within :
      (network_name : String) (root : TransactionData) (ns : BulkNodes) (limit time : ℕ)
      (r : Result WasmError RootReturns)
      → AreBulkNodes ns
      → Triple Free (proceed network_name root ns limit height time r) (λ v s. EndsWithin limit v)
  unfolding proceed
  proceed-Within network_name root ns limit time (err error) a = Triple-give _ (λ s p. tt)
  proceed-Within network_name root ns limit time (ok (fuel, result, events)) a =
      let burnt = charged height (min fuel limit) result in
      let within : burnt ≤ limit =
        omega (arith, charged_above height (min fuel limit) result active) in
      Triple-bind (Within limit)
        (after_root network_name root ns limit height time result events burnt) _
        (after_root-Within network_name root ns limit time result events burnt a within)
        (λ returned. Triple-give _ (λ s p. p))

  -- Above the height that activates the consumption of fuel, where every node of a bulk transaction is a
  -- `BulkNodeV1`, the fuel of all its results together is at most 1,000 above its limit, whatever the
  -- machine reports and however the results end.
  pub handle_bulk_v1-le :
      (network_name : String) (root : TransactionData) (ns : BulkNodes) (caller : String)
      (limit index time : ℕ) (s s' : World e) (v : BulkReturns)
      → AreBulkNodes ns
      → handle_bulk_v1 network_name root ns caller limit height index time s ≡ Reply.done (ok v) s'
      → total_burnt v.1 ≤ limit + 1000
  unfolding handle_bulk_v1
  handle_bulk_v1-le network_name root ns caller limit index time s s' v a done =
      subst (Post (λ r s. EndsWithin limit r)) done (
        (Triple-bind {P = Free} (λ r s. Unit)
            (execute_root network_name root caller limit height index time)
            (proceed network_name root ns limit height time)
            (Triple-any (execute_root network_name root caller limit height index time))
            (λ r. proceed-Within network_name root ns limit time r a)).at
          s tt)
