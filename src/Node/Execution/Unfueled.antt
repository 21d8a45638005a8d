-- ===== src/Node/Execution/Unfueled.antt =====
-- The nodes of a bulk transaction above the height that activates the consumption of fuel, where they are of
-- the variant for nodes: they run without fuel.
use trinci.Base.{
  ℕ, ◌≤◌, ◌<◌, min, true, false, ◌≡◌, refl, ◌∙◌, List, String, Option, some, none, arith, ltb,
}
use trinci.Base.Words.{wrapping_add}
use trinci.Base.Result.{Result, ok, err}
use trinci.Crypto.Hash.{Hash}
use trinci.Node.Identity.{Identity}
use trinci.Node.Database.{Database, SmartContractEvent}
use trinci.Node.Errors.{WasmError}
use trinci.Node.Fuel.{
  activate_fuel_consumption, calculate_wm_fuel_limit, limit_for, bitbell_to_wm_fuel,
}
use trinci.Node.Transactions.{
  TransactionDataBulkNodeV1, get_account, get_contract, BulkNodes, SignedTransactions,
  TransactionData, get_fuel_limit, get_network,
}
use trinci.Node.Execution.State.{lift, Run, Setting, World, ◌>>=◌, app_hash_check, call, reads}
use trinci.Node.Execution.Triples.{
  Triple, Triple-any, Triple-bind, Triple-give, Triple-if, Triple-lift, Triple-read,
}
use trinci.Node.Execution.Units.{is_foreign}
use trinci.Node.Execution.Bulks.{
  NodesReturns, call_node, charged, handle_bulk_nodes_execution, handle_node, handle_nodes,
  known_node, node_limit, refused_node, settle, stop, text_of,
}
use trinci.Node.Execution.Roots.{total_burnt}
use trinci.Node.Execution.Ran.{Free}

module _ ⦃i : Identity⦄ where
  -- Every node is a `BulkNodeV1`.
  abbrev pub AreNodes : SignedTransactions → Type 0
  AreNodes SignedTransactions.nil = Unit
  AreNodes (SignedTransactions.cons (TransactionData.bulk_node_v1 d) signature rest) = AreNodes rest
  AreNodes (SignedTransactions.cons node signature rest) = ⊥

  abbrev pub AreBulkNodes : BulkNodes → Type 0
  AreBulkNodes BulkNodes.no_nodes = Unit
  AreBulkNodes (BulkNodes.nodes l) = AreNodes l

  pub charged_above :
      (height fuel : ℕ) (r : Result WasmError (List ℕ))
      → activate_fuel_consumption < height
      → charged height fuel r ≡ fuel
  unfolding charged
  charged_above height fuel r h =
      let low : ltb height activate_fuel_consumption ≡ false = ground arith in rw low refl

module _ ⦃i : Identity⦄ ⦃e : Setting⦄ (height : ℕ)
    (active : activate_fuel_consumption < height) where
  limit_zero : (asset : Option (List ℕ)) → limit_for e.indexes e.units_of 0 asset ≡ 0
  unfolding bitbell_to_wm_fuel
  limit_zero none = refl
  limit_zero (some bytes) = let z : min 0 (e.units_of bytes) ≡ 0 = omega arith in rw z refl

  -- Above the height that activates the consumption of fuel, the limit of fuel with which a `BulkNodeV1` is
  -- called is 0, whatever limit it states, whatever fuel is left of the bulk and whatever the caller has.
  pub node_without_fuel :
      (d : TransactionDataBulkNodeV1) (left : ℕ) (caller : String) (db : Database e.indexes)
      → calculate_wm_fuel_limit e.indexes e.units_of caller db height
          (node_limit (TransactionData.bulk_node_v1 d) left)
        ≡ 0
  unfolding calculate_wm_fuel_limit get_fuel_limit
  node_without_fuel d left caller db =
      let on : ltb activate_fuel_consumption height ≡ true = ground arith in
      let none_left : min left 0 ≡ 0 = omega arith in rw (on, none_left) (limit_zero _)

  abbrev pub Small : NodesReturns → World e → Type 0
  Small v s = total_burnt v.0 ≤ 1000

  one_result : (burnt : ℕ) → burnt ≤ 1000 → wrapping_add burnt 0 ≤ 1000
  unfolding wrapping_add
  one_result burnt h = omega arith

  more_results : (burnt total : ℕ) → burnt ≡ 0 → total ≤ 1000 → wrapping_add burnt total ≤ 1000
  unfolding wrapping_add
  more_results burnt total z h = omega (arith, z, h)

  settle-Small :
      (node : TransactionData) (burnt : ℕ) (r : Result WasmError (List ℕ))
      (events : List SmartContractEvent) (rest : Run e NodesReturns)
      → burnt ≡ 0
      → Triple Free rest Small
      → Triple Free (settle node burnt r events rest) Small
  unfolding settle
  settle-Small node burnt (ok rcpt) events rest z h =
      Triple-bind Small rest _ h (λ v. Triple-give _ (λ s p. more_results burnt _ z p))
  settle-Small node burnt (err error) events rest z h =
      Triple-bind (λ a s. Unit) (text_of error) _ (Triple-any (text_of error))
        (λ text. Triple-give _ (λ s p. one_result burnt (omega (arith, z))))

  call_node-Small :
      (node : TransactionData) (caller : String) (app_hash : Hash) (left time : ℕ)
      (rest : ℕ → Run e NodesReturns)
      → ((n : ℕ) → Triple Free (rest n) Small)
      → Triple Free (call_node node caller app_hash 0 height left time rest) Small
  unfolding call_node
  call_node-Small node caller app_hash left time rest h = Triple-lift _ _ (λ method.
      Triple-lift _ _ (λ args.
        Triple-bind (λ a s. Unit) (call _) _ (Triple-any (call _))
          (λ called.
            settle-Small node _ called.result called.events _
              (charged_above height _ called.result active ∙ omega arith) (h _))))

  refused_node-Small :
      (node : TransactionData) (error : WasmError) → Triple Free (refused_node node error) Small
  unfolding refused_node
  refused_node-Small node error =
      Triple-bind (λ a s. Unit) (text_of error) _ (Triple-any (text_of error))
        (λ text. Triple-give _ (λ s p. one_result 1000 (omega arith)))

  checked-Small :
      (node : TransactionData) (caller : String) (limit left time : ℕ)
      (rest : ℕ → Run e NodesReturns) (r : Result WasmError Hash)
      → limit ≡ 0
      → ((n : ℕ) → Triple Free (rest n) Small)
      → Triple Free
          (elim r [
            | ok app_hash ↦ call_node node caller app_hash limit height left time rest
            | err error ↦ refused_node node error
          ])
          Small
  checked-Small node caller limit left time rest (ok app_hash) z h =
      rw z (call_node-Small node caller app_hash left time rest h)
  checked-Small node caller limit left time rest (err error) z h = refused_node-Small node error

  known_node-Small :
      (node : TransactionData) (left time : ℕ) (rest : ℕ → Run e NodesReturns)
      → ((caller : String) (db : Database e.indexes)
          → calculate_wm_fuel_limit e.indexes e.units_of caller db height (node_limit node left)
            ≡ 0)
      → ((n : ℕ) → Triple Free (rest n) Small)
      → Triple Free (known_node node height left time rest) Small
  unfolding known_node
  known_node-Small node left time rest z h = Triple-lift _ _ (λ caller.
      Triple-bind _ (reads _) _
        (Triple-read (λ db.
          calculate_wm_fuel_limit e.indexes e.units_of caller db height (node_limit node left)))
        (λ limit. record { at = λ s p. (after caller limit (p.1 ∙ z caller p.0)).at s tt }))
    where
      after :
          (caller : String) (limit : ℕ)
          → limit ≡ 0
          → Triple Free
              (lift (get_contract node) >>= (λ contract.
                app_hash_check contract
                  (record { origin = caller; owner = get_account node; caller = caller })
                  time
                >>= (λ checked. elim checked [
                  | ok app_hash ↦ call_node node caller app_hash limit height left time rest
                  | err error ↦ refused_node node error
                ])))
              Small
      after caller limit e0 = Triple-lift _ _ (λ contract.
          Triple-bind (λ a s. Unit) (app_hash_check _ _ _) _ (Triple-any (app_hash_check _ _ _))
            (λ r. checked-Small node caller limit left time rest r e0 h))

  handle_nodes-Small :
      (network_name : String) (l : SignedTransactions) (left time : ℕ)
      → AreNodes l
      → Triple Free (handle_nodes network_name l height left time) Small
  unfolding handle_nodes handle_node
  handle_nodes-Small network_name SignedTransactions.nil left time a =
      Triple-give _ (λ s p. omega arith)
  handle_nodes-Small network_name
        (SignedTransactions.cons (TransactionData.bulk_node_v1 d) signature rest) left time a =
      let node = TransactionData.bulk_node_v1 d in
      let later = λ (n : ℕ). handle_nodes network_name rest height n time in
      Triple-if (is_foreign (get_network node) network_name height) (stop _)
        (known_node node height left time later)
        (λ foreign. Triple-give _ (λ s p. one_result 0 (omega arith)))
        (λ known.
          known_node-Small node left time later (λ caller db. node_without_fuel d left caller db)
            (λ n. handle_nodes-Small network_name rest n time a))
  handle_nodes-Small network_name (SignedTransactions.cons (TransactionData.v1 d) signature rest)
        left time a =
      absurd a
  handle_nodes-Small network_name
        (SignedTransactions.cons (TransactionData.bulk_root_v1 d) signature rest) left time a =
      absurd a
  handle_nodes-Small network_name
        (SignedTransactions.cons (TransactionData.bulk_v1 r ns) signature rest) left time a =
      absurd a
  handle_nodes-Small network_name
        (SignedTransactions.cons (TransactionData.bulk_empty_root d) signature rest) left time a =
      absurd a

  pub nodes-Small :
      (network_name : String) (ns : BulkNodes) (left time : ℕ)
      → AreBulkNodes ns
      → Triple Free (handle_bulk_nodes_execution network_name ns height left time) Small
  unfolding handle_bulk_nodes_execution
  nodes-Small network_name BulkNodes.no_nodes left time a = Triple-give _ (λ s p. omega arith)
  nodes-Small network_name (BulkNodes.nodes l) left time a =
      handle_nodes-Small network_name l left time a
