-- ===== src/Node/Execution/Saves.antt =====
-- No step of a bulk transaction moves the checkpoint of the fork.
use trinci.Base.{◌∙◌, ℕ, Option, List, String, String_eq}
use trinci.Base.Result.{Result, ok, err}
use trinci.Crypto.Hash.{Hash}
use trinci.Node.Identity.{Identity}
use trinci.Node.Database.{Database, SmartContractEvent}
use trinci.Node.Errors.{WasmError}
use trinci.Node.Transactions.{BulkNodes, SignedTransactions, TransactionData, get_network}
use trinci.Node.Execution.State.{Run, Setting, app_hash_check, call, reads}
use trinci.Node.Execution.Triples.{
  Triple-text_of, Triple, Triple-bind, Triple-give, Triple-if, Triple-lift,
}
use trinci.Node.Execution.Units.{is_foreign}
use trinci.Node.Execution.Bulks.{
  NodesReturns, call_node, handle_bulk_nodes_execution, handle_node, handle_nodes, known_node,
  refused_node, settle, stop, text_of,
}
use trinci.Node.Execution.Rollback.{IsSaved, Triple-call, Triple-reads}

module _ ⦃i : Identity⦄ ⦃e : Setting⦄ (D : Database e.indexes) where
  abbrev pub Saves : {A : Type 0} → Run e A → Type 0
  Saves m = Triple (IsSaved D) m (λ a. IsSaved D)

  Saves-settle :
      (node : TransactionData) (burnt : ℕ) (r : Result WasmError (List ℕ))
      (events : List SmartContractEvent) (rest : Run e NodesReturns)
      → Saves rest
      → Saves (settle node burnt r events rest)
  unfolding settle
  Saves-settle node burnt (ok rcpt) events rest h =
      Triple-bind (λ a. IsSaved D) rest _ h (λ later. Triple-give _ (λ s p. p))
  Saves-settle node burnt (err error) events rest h =
      Triple-bind (λ a. IsSaved D) (text_of error) _ (Triple-text_of (IsSaved D) error)
        (λ text. Triple-give _ (λ s p. p))

  Saves-call_node :
      (node : TransactionData) (caller : String) (app_hash : Hash) (limit height left time : ℕ)
      (rest : ℕ → Run e NodesReturns)
      → ((n : ℕ) → Saves (rest n))
      → Saves (call_node node caller app_hash limit height left time rest)
  unfolding call_node
  Saves-call_node node caller app_hash limit height left time rest h = Triple-lift _ _ (λ method.
      Triple-lift _ _ (λ args.
        Triple-bind (λ a. IsSaved D) (call _) _ (Triple-call D _)
          (λ called. Saves-settle node _ called.result called.events _ (h _))))

  Saves-check :
      (hash : Option Hash) (owner : String) (caller : String) (time : ℕ)
      → Saves
          (app_hash_check hash (record { origin = caller; owner = owner; caller = caller }) time)
  unfolding app_hash_check
  Saves-check hash owner caller time = record {
    at = λ s p. e.wm.saved-check hash _ time s.machine s.fork ∙ p;
  }

  Saves-refused_node :
      (node : TransactionData) (error : WasmError) → Saves (refused_node node error)
  unfolding refused_node
  Saves-refused_node node error =
      Triple-bind (λ a. IsSaved D) (text_of error) _ (Triple-text_of (IsSaved D) error)
        (λ text. Triple-give _ (λ s p. p))

  checked_node :
      (node : TransactionData) (caller : String) (limit height left time : ℕ)
      (rest : ℕ → Run e NodesReturns) (r : Result WasmError Hash)
      → ((n : ℕ) → Saves (rest n))
      → Saves (elim r [
        | ok app_hash ↦ call_node node caller app_hash limit height left time rest
        | err error ↦ refused_node node error
      ])
  checked_node node caller limit height left time rest (ok app_hash) h =
      Saves-call_node node caller app_hash limit height left time rest h
  checked_node node caller limit height left time rest (err error) h = Saves-refused_node node error

  Saves-known_node :
      (node : TransactionData) (height left time : ℕ) (rest : ℕ → Run e NodesReturns)
      → ((n : ℕ) → Saves (rest n))
      → Saves (known_node node height left time rest)
  unfolding known_node
  Saves-known_node node height left time rest h = Triple-lift _ _ (λ caller.
      Triple-bind (λ a. IsSaved D) (reads _) _ (Triple-reads D _ (IsSaved D))
        (λ limit. Triple-lift _ _ (λ contract.
          Triple-bind (λ a. IsSaved D) (app_hash_check _ _ _) _ (Saves-check _ _ _ _)
            (λ r. checked_node node caller limit height left time rest r h))))

  Saves-handle_nodes :
      (network_name : String) (l : SignedTransactions) (height left time : ℕ)
      → Saves (handle_nodes network_name l height left time)
  unfolding handle_nodes handle_node
  Saves-handle_nodes network_name SignedTransactions.nil height left time = Triple-give _ (λ s p. p)
  Saves-handle_nodes network_name (SignedTransactions.cons node signature rest) height left time =
      let later = λ (n : ℕ). handle_nodes network_name rest height n time in
      Triple-if (is_foreign (get_network node) network_name height) (stop _)
        (known_node node height left time later) (λ foreign. Triple-give _ (λ s p. p))
        (λ known.
          Saves-known_node node height left time later
            (λ n. Saves-handle_nodes network_name rest height n time))

  pub Saves-nodes :
      (network_name : String) (ns : BulkNodes) (height left time : ℕ)
      → Saves (handle_bulk_nodes_execution network_name ns height left time)
  unfolding handle_bulk_nodes_execution
  Saves-nodes network_name BulkNodes.no_nodes height left time = Triple-give _ (λ s p. p)
  Saves-nodes network_name (BulkNodes.nodes l) height left time =
      Saves-handle_nodes network_name l height left time
