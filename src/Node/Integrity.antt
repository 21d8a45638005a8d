-- ===== src/Node/Integrity.antt =====
-- trinci-node/src/artifacts/models.rs: `check_integrity` and `verify` of transactions.
use trinci.Base.{
  Bool, true, false, not, none, some, List, ◌==◌, ℕ, String, String_eq, if◌then◌else◌,
}
use trinci.Base.Outcome.{Outcome, returns, ◌>>=◌}
use trinci.Crypto.Hash.{Hash, Hash_eq}
use trinci.Node.Identity.{Identity}
use trinci.Node.Transactions.{
  BulkNodes, DataCodec, SignedTransactions, Transaction, TransactionData, check_v1, get_caller,
  get_dependency, get_network,
}

module _ ⦃i : Identity⦄ where
  -- The loop over the nodes of `TransactionDataBulkV1::check_integrity`.
  unfoldable pub check_nodes : Hash → String → SignedTransactions → Outcome Bool
  unfolding get_dependency get_network ◌>>=◌
  check_nodes root_hash network SignedTransactions.nil = returns true
  check_nodes root_hash network (SignedTransactions.cons node signature rest) =
      let later = check_nodes root_hash network rest in
      do
        dependency ← get_dependency node
        elim dependency [
          | none ↦ returns false
          | some dep_hash ↦
              if not (dep_hash == root_hash)
              then returns false
              else (if not (get_network node == network) then returns false else later)
        ]

  abbrev pub data_of : Transaction → TransactionData
  data_of (Transaction.unit_transaction d signature) = d
  data_of (Transaction.bulk_transaction d signature) = d

  abbrev pub signature_of : Transaction → List ℕ
  signature_of (Transaction.unit_transaction d signature) = signature
  signature_of (Transaction.bulk_transaction d signature) = signature

module _ ⦃i : Identity⦄ (k : DataCodec) where
  unfoldable pub check_bulk : TransactionData → BulkNodes → Outcome Bool
  unfolding check_nodes
  check_bulk root BulkNodes.no_nodes = returns false
  check_bulk root (BulkNodes.nodes SignedTransactions.nil) = returns false
  check_bulk root (BulkNodes.nodes (SignedTransactions.cons node signature rest)) =
      check_nodes (k.primary_hash root) (get_network root)
        (SignedTransactions.cons node signature rest)

  unfoldable pub check_data : TransactionData → Outcome Bool
  unfolding check_bulk check_v1
  check_data (TransactionData.bulk_v1 root ns) = check_bulk root ns
  check_data (TransactionData.v1 d) = returns (check_v1 d)
  check_data _ = returns false

  unfoldable pub check_integrity : Transaction → Outcome Bool
  unfolding check_data
  check_integrity (Transaction.unit_transaction d signature) = check_data d
  check_integrity (Transaction.bulk_transaction d signature) = check_data d

  unfoldable pub get_hash : Transaction → Hash
  get_hash tx = k.primary_hash (data_of tx)

  unfoldable pub verify : Transaction → Outcome Bool
  unfolding check_integrity get_caller ◌>>=◌
  verify tx = do
    intact ← check_integrity tx
    returns (
        if intact
        then i.verify (get_caller (data_of tx)) (k.rmp (data_of tx)) (signature_of tx)
        else false)
