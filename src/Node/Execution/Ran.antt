-- ===== src/Node/Execution/Ran.antt =====
-- What a bulk transaction runs: its root, then its nodes in order, up to the first that fails.
use trinci.Base.{
  &&-eq-true, ℕ, true, false, ◌≡◌, refl, ◌⊎◌, inl, inr, List, [], ◌∷◌, map, String, all,
}
use trinci.Base.Result.{Result, ok, err}
use trinci.Crypto.Hash.{Hash}
use trinci.Node.Identity.{Identity}
use trinci.Node.Database.{SmartContractEvent}
use trinci.Node.Errors.{WasmError}
use trinci.Node.Transactions.{BulkNodes, SignedTransactions, TransactionData, get_network}
use trinci.Node.Execution.State.{BulkResult, Run, Setting, World, app_hash_check, call, reads}
use trinci.Node.Execution.Triples.{
  Triple, Triple-any, Triple-bind, Triple-give, Triple-if, Triple-lift, Triple-weaken,
}
use trinci.Node.Execution.Units.{is_foreign}
use trinci.Node.Execution.Bulks.{
  NodesReturns, call_node, handle_bulk_nodes_execution, handle_node, handle_nodes, known_node,
  refused_node, settle, stop, text_of,
}

module _ ⦃i : Identity⦄ ⦃e : Setting⦄ where
  abbrev pub Free : World e → Type 0
  Free s = Unit {0}

  -- Each result is of the next node, the last one may be a failure, and without one all nodes are there.
  abbrev pub Ran : SignedTransactions → List (String × BulkResult) → Type 0
  Ran SignedTransactions.nil results = results ≡ []
  Ran (SignedTransactions.cons node signature rest) [] = ⊥
  Ran (SignedTransactions.cons node signature rest) (r ∷ results) =
      (r.0 ≡ e.hex (e.codec.primary_hash node))
      × (((r.1.success ≡ true) × Ran rest results) ⊎ ((r.1.success ≡ false) × (results ≡ [])))

  abbrev NodesRan : SignedTransactions → NodesReturns → World e → Type 0
  NodesRan l v s = Ran l v.0

  -- A run of the first node, where the runs of the rest are right.
  abbrev Runs : SignedTransactions → Run e NodesReturns → Type 0
  Runs l m = Triple Free m (NodesRan l)

  module _ (node : TransactionData) (signature : List ℕ) (rest : SignedTransactions) where
    Runs-settle :
        (burnt : ℕ) (r : Result WasmError (List ℕ)) (events : List SmartContractEvent)
        (later : Run e NodesReturns)
        → Runs rest later
        → Runs (SignedTransactions.cons node signature rest) (settle node burnt r events later)
    unfolding settle
    Runs-settle burnt (ok rcpt) events later h =
        Triple-bind (NodesRan rest) later _ h (λ v. Triple-give _ (λ s p. (refl, inl (refl, p))))
    Runs-settle burnt (err error) events later h =
        Triple-bind (λ a s. Unit) (text_of error) _ (Triple-any (text_of error))
          (λ text. Triple-give _ (λ s p. (refl, inr (refl, refl))))

    Runs-call_node :
        (caller : String) (app_hash : Hash) (limit height left time : ℕ)
        (later : ℕ → Run e NodesReturns)
        → ((n : ℕ) → Runs rest (later n))
        → Runs
            (SignedTransactions.cons node signature rest)
            (call_node node caller app_hash limit height left time later)
    unfolding call_node
    Runs-call_node caller app_hash limit height left time later h = Triple-lift _ _ (λ method.
        Triple-lift _ _ (λ args.
          Triple-bind (λ a s. Unit) (call _) _ (Triple-any (call _))
            (λ called. Runs-settle _ called.result called.events _ (h _))))

    Runs-refused_node :
        (error : WasmError)
        → Runs (SignedTransactions.cons node signature rest) (refused_node node error)
    unfolding refused_node
    Runs-refused_node error =
        Triple-bind (λ a s. Unit) (text_of error) _ (Triple-any (text_of error))
          (λ text. Triple-give _ (λ s p. (refl, inr (refl, refl))))

    Runs-checked :
        (caller : String) (limit height left time : ℕ) (later : ℕ → Run e NodesReturns)
        (r : Result WasmError Hash)
        → ((n : ℕ) → Runs rest (later n))
        → Runs (SignedTransactions.cons node signature rest) (elim r [
          | ok app_hash ↦ call_node node caller app_hash limit height left time later
          | err error ↦ refused_node node error
        ])
    Runs-checked caller limit height left time later (ok app_hash) h =
        Runs-call_node caller app_hash limit height left time later h
    Runs-checked caller limit height left time later (err error) h = Runs-refused_node error

    Runs-known_node :
        (height left time : ℕ) (later : ℕ → Run e NodesReturns)
        → ((n : ℕ) → Runs rest (later n))
        → Runs
            (SignedTransactions.cons node signature rest)
            (known_node node height left time later)
    unfolding known_node
    Runs-known_node height left time later h = Triple-lift _ _ (λ caller.
        Triple-bind (λ a s. Unit) (reads _) _ (Triple-any (reads _))
          (λ limit. Triple-lift _ _ (λ contract.
            Triple-bind (λ a s. Unit) (app_hash_check _ _ _) _ (Triple-any (app_hash_check _ _ _))
              (λ r. Runs-checked caller limit height left time later r h))))

  Runs-handle_nodes :
      (network_name : String) (l : SignedTransactions) (height left time : ℕ)
      → Runs l (handle_nodes network_name l height left time)
  unfolding handle_nodes handle_node
  Runs-handle_nodes network_name SignedTransactions.nil height left time =
      Triple-give _ (λ s p. refl)
  Runs-handle_nodes network_name (SignedTransactions.cons node signature rest) height left time =
      let later = λ (n : ℕ). handle_nodes network_name rest height n time in
      Triple-if (is_foreign (get_network node) network_name height) (stop _)
        (known_node node height left time later)
        (λ foreign. Triple-give _ (λ s p. (refl, inr (refl, refl))))
        (λ known.
          Runs-known_node node signature rest height left time later
            (λ n. Runs-handle_nodes network_name rest height n time))

  abbrev pub hashes_of : SignedTransactions → List String
  hashes_of SignedTransactions.nil = []
  hashes_of (SignedTransactions.cons node signature rest) =
      e.hex (e.codec.primary_hash node) ∷ hashes_of rest

  abbrev pub node_hashes : BulkNodes → List String
  node_hashes BulkNodes.no_nodes = []
  node_hashes (BulkNodes.nodes l) = hashes_of l

  -- Without a failure every node is there.
  Ran-all :
      (l : SignedTransactions) (results : List (String × BulkResult))
      → Ran l results
      → all (λ r. r.1.success) results ≡ true
      → map (λ r. r.0) results ≡ hashes_of l
  Ran-all SignedTransactions.nil results h good = rw h refl
  Ran-all (SignedTransactions.cons node signature rest) [] h good = absurd h
  Ran-all (SignedTransactions.cons node signature rest) (r ∷ results) (k, inl (s, h)) good =
      let later = Ran-all rest results h (&&-eq-true r.1.success _ good).1 in cc
  Ran-all (SignedTransactions.cons node signature rest) (r ∷ results) (k, inr (s, h)) good =
      let f = (&&-eq-true r.1.success _ good).0 in cc

  abbrev pub RanAll : BulkNodes → NodesReturns → World e → Type 0
  RanAll ns v s = all (λ r. r.1.success) v.0 ≡ true → map (λ r. r.0) v.0 ≡ node_hashes ns

  pub nodes-RanAll :
      (network_name : String) (ns : BulkNodes) (height left time : ℕ)
      → Triple Free (handle_bulk_nodes_execution network_name ns height left time) (RanAll ns)
  unfolding handle_bulk_nodes_execution
  nodes-RanAll network_name BulkNodes.no_nodes height left time = Triple-give _ (λ s p good. refl)
  nodes-RanAll network_name (BulkNodes.nodes l) height left time =
      Triple-weaken _ (Runs-handle_nodes network_name l height left time)
        (λ v s h good. Ran-all l v.0 h good)
