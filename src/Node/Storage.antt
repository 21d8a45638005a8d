-- ===== src/Node/Storage.antt =====
-- trinci-node/src/artifacts/rocks_db.rs: transactions and full blocks. A bulk transaction is stored under
-- its hash, and the hashes of its root and its nodes refer to it.
use trinci.Base.{ℕ, ℕ_eq, not, Option, none, some, List, [], ◌∷◌, ◌==◌, if◌then◌else◌, length}
use trinci.Crypto.Hash.{Hash, Hash_eq}
use trinci.Node.Identity.{Identity}
use trinci.Node.Models.{Block, Confirmation}
use trinci.Node.Transactions.{
  BulkNodes, DataCodec, SignedTransactions, Transaction, TransactionData,
}
use trinci.Node.Database.{
  Database, Indexes, load_attachment, load_block, load_confirmations, load_transactions_hashes,
}

infixl 5 ◌>>=◌
abbrev pub ◌>>=◌ : {A B : Type 0} → Option A → (A → Option B) → Option B
none >>= next = none
some a >>= next = next a

module _ ⦃i : Identity⦄ (x : Indexes) (k : DataCodec) where
  open x use {Map}

  -- `nodes_tx.iter().find(..)`, as a unit transaction.
  unfoldable pub find_node : Hash → SignedTransactions → Option Transaction
  find_node hash SignedTransactions.nil = none
  find_node hash (SignedTransactions.cons node signature rest) =
      let later = find_node hash rest in
      if k.primary_hash node == hash
      then some (Transaction.unit_transaction node signature)
      else later

  -- The node with this hash, of a bulk transaction.
  abbrev pub node_of : Hash → Option Transaction → Option Transaction
  node_of hash
        (some (Transaction.bulk_transaction (TransactionData.bulk_v1 root (BulkNodes.nodes l)) s)) =
      find_node hash l
  node_of hash _ = none

  unfoldable pub load_transaction : Database x → Hash → Option Transaction
  unfolding find_node load_attachment
  load_transaction db hash = elim (x.get db.transactions hash) [
    | some tx ↦ some tx
    | none ↦ elim (load_attachment x db hash) [
      | none ↦ none
      | some parent_tx ↦ node_of hash (x.get db.transactions parent_tx)
    ]
  ]

  abbrev pub attach_nodes : Hash → SignedTransactions → Map Hash Hash → Map Hash Hash
  attach_nodes hash SignedTransactions.nil m = m
  attach_nodes hash (SignedTransactions.cons node signature rest) m =
      attach_nodes hash rest (x.put (k.primary_hash node) hash m)

  abbrev pub attach_all : Hash → BulkNodes → Map Hash Hash → Map Hash Hash
  attach_all hash BulkNodes.no_nodes m = m
  attach_all hash (BulkNodes.nodes l) m = attach_nodes hash l m

  -- The attachments of a bulk transaction are its root and its nodes.
  abbrev pub attach : Hash → Transaction → Map Hash Hash → Map Hash Hash
  attach hash (Transaction.bulk_transaction (TransactionData.bulk_v1 root ns) s) m =
      attach_all hash ns (x.put (k.primary_hash root) hash m)
  attach hash _ m = m

  unfoldable pub store_transaction : Hash → Transaction → Database x → Database x
  store_transaction hash transaction db = record db {
    attachments = attach hash transaction db.attachments;
    transactions = x.put hash transaction db.transactions;
  }

  -- The transactions that are found.
  unfoldable pub load_all : Database x → List Hash → List Transaction
  unfolding load_transaction
  load_all db [] = []
  load_all db (hash ∷ hashes) =
      let rest = load_all db hashes in
      elim (load_transaction db hash) [ none ↦ rest | some tx ↦ tx ∷ rest ]

  -- `load_full_block`: the block, its confirmations, its transactions.
  unfoldable pub load_full_block :
      Database x → ℕ → Option (Block × List Confirmation × List Transaction)
  unfolding load_all load_block load_confirmations load_transactions_hashes
  load_full_block db height = do
    block ← load_block x db height
    confirmations ← load_confirmations x db height
    hashes ← load_transactions_hashes x db block.content.height
    let txs = load_all db hashes
    if not (length txs == length hashes) then none else some (block, confirmations, txs)
