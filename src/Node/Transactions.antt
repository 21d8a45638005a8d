-- ===== src/Node/Transactions.antt =====
-- trinci-node/src/artifacts/models.rs: `TransactionData` with its variants, and `Transaction`. The data of
-- a bulk transaction holds the data of its root, an unsigned transaction, and the nodes, which are
-- signed transactions. Serialization and the hash of an object are parameters; a `panics` stands for
-- `unreachable!`.
use trinci.Base.{ℕ, Bool, not, ◌&&◌, Option, some, List, ◌==◌, String, String_eq, length, ℕ_eq}
use trinci.Base.Outcome.{Outcome, returns, panics}
use trinci.Crypto.Hash.{Hash, Hash_eq}
use trinci.Node.Identity.{Identity}

module _ ⦃i : Identity⦄ where
  open i use {PublicKey}

  pub record TransactionDataV1 : Type 0 where
    pub account : String
    pub fuel_limit : ℕ
    pub nonce : List ℕ
    pub network : String
    pub contract : Option Hash
    pub method : String
    pub caller : PublicKey
    pub args : List ℕ

  pub record EmptyTransactionDataV1 : Type 0 where
    pub fuel_limit : ℕ
    pub nonce : List ℕ
    pub network : String
    pub caller : PublicKey

  -- The fields of `TransactionDataV1`, and the hash of the transaction that the node depends on.
  pub record TransactionDataBulkNodeV1 : Type 0 where
    pub account : String
    pub fuel_limit : ℕ
    pub nonce : List ℕ
    pub network : String
    pub contract : Option Hash
    pub method : String
    pub caller : PublicKey
    pub args : List ℕ
    pub depends_on : Hash

  -- `BulkTransactions` is the two arguments of `bulk_v1`: `root`, and `nodes`, which `no_nodes` is the
  -- `None` of. A `SignedTransactions` is a vector of `SignedTransaction`, data and signature.
  mutual
    pub data TransactionData : Type 0 where
      v1 : TransactionDataV1 → TransactionData
      bulk_node_v1 : TransactionDataBulkNodeV1 → TransactionData
      bulk_root_v1 : TransactionDataV1 → TransactionData
      bulk_v1 : TransactionData → BulkNodes → TransactionData
      bulk_empty_root : EmptyTransactionDataV1 → TransactionData

    pub data BulkNodes : Type 0 where
      no_nodes : BulkNodes
      nodes : SignedTransactions → BulkNodes

    pub data SignedTransactions : Type 0 where
      nil : SignedTransactions
      cons : TransactionData → List ℕ → SignedTransactions → SignedTransactions

  -- `rmp_serialize` and `primary_hash` of the data of a transaction.
  pub record DataCodec : Type 0 where
    pub rmp : TransactionData → List ℕ
    pub primary_hash : TransactionData → Hash

  pub data Transaction : Type 0 where
    unit_transaction : TransactionData → List ℕ → Transaction
    bulk_transaction : TransactionData → List ℕ → Transaction

  abbrev pub is_empty : String → Bool
  is_empty s = s == ""

  -- `TransactionDataV1::check_integrity`
  unfoldable pub check_v1 : TransactionDataV1 → Bool
  check_v1 d =
      not (is_empty d.account)
      && (not (length d.nonce == 0) && (not (is_empty d.network) && not (is_empty d.method)))

  unfoldable pub get_caller : TransactionData → PublicKey
  get_caller (TransactionData.v1 d) = d.caller
  get_caller (TransactionData.bulk_node_v1 d) = d.caller
  get_caller (TransactionData.bulk_root_v1 d) = d.caller
  get_caller (TransactionData.bulk_v1 root ns) = get_caller root
  get_caller (TransactionData.bulk_empty_root d) = d.caller

  unfoldable pub get_network : TransactionData → String
  get_network (TransactionData.v1 d) = d.network
  get_network (TransactionData.bulk_node_v1 d) = d.network
  get_network (TransactionData.bulk_root_v1 d) = d.network
  get_network (TransactionData.bulk_v1 root ns) = get_network root
  get_network (TransactionData.bulk_empty_root d) = d.network

  unfoldable pub get_account : TransactionData → String
  get_account (TransactionData.v1 d) = d.account
  get_account (TransactionData.bulk_node_v1 d) = d.account
  get_account (TransactionData.bulk_root_v1 d) = d.account
  get_account (TransactionData.bulk_v1 root ns) = get_account root
  get_account (TransactionData.bulk_empty_root d) = ""

  unfoldable pub get_method : TransactionData → Outcome String
  get_method (TransactionData.v1 d) = returns d.method
  get_method (TransactionData.bulk_node_v1 d) = returns d.method
  get_method (TransactionData.bulk_root_v1 d) = returns d.method
  get_method (TransactionData.bulk_v1 root ns) = get_method root
  get_method (TransactionData.bulk_empty_root d) = panics

  unfoldable pub get_args : TransactionData → Outcome (List ℕ)
  get_args (TransactionData.v1 d) = returns d.args
  get_args (TransactionData.bulk_node_v1 d) = returns d.args
  get_args (TransactionData.bulk_root_v1 d) = returns d.args
  get_args (TransactionData.bulk_v1 root ns) = get_args root
  get_args (TransactionData.bulk_empty_root d) = panics

  -- The limit of the root of a bulk transaction.
  abbrev pub root_fuel_limit : TransactionData → ℕ
  root_fuel_limit (TransactionData.bulk_root_v1 d) = d.fuel_limit
  root_fuel_limit (TransactionData.bulk_empty_root d) = d.fuel_limit
  root_fuel_limit _ = 0

  unfoldable pub get_fuel_limit : TransactionData → ℕ
  get_fuel_limit (TransactionData.v1 d) = d.fuel_limit
  get_fuel_limit (TransactionData.bulk_v1 root ns) = root_fuel_limit root
  get_fuel_limit _ = 0

  unfoldable pub get_contract : TransactionData → Outcome (Option Hash)
  get_contract (TransactionData.v1 d) = returns d.contract
  get_contract (TransactionData.bulk_node_v1 d) = returns d.contract
  get_contract (TransactionData.bulk_root_v1 d) = returns d.contract
  get_contract (TransactionData.bulk_v1 root ns) = get_contract root
  get_contract (TransactionData.bulk_empty_root d) = panics

  unfoldable pub get_dependency : TransactionData → Outcome (Option Hash)
  get_dependency (TransactionData.bulk_node_v1 d) = returns (some d.depends_on)
  get_dependency _ = panics

  -- A setter goes through to the root of a bulk transaction.
  unfoldable pub in_bulk : BulkNodes → Outcome TransactionData → Outcome TransactionData
  in_bulk ns (returns root) = returns (TransactionData.bulk_v1 root ns)
  in_bulk ns panics = panics

  unfoldable pub set_contract : Option Hash → TransactionData → Outcome TransactionData
  unfolding in_bulk
  set_contract contract (TransactionData.v1 d) =
      returns (TransactionData.v1 (record d { contract = contract }))
  set_contract contract (TransactionData.bulk_node_v1 d) =
      returns (TransactionData.bulk_node_v1 (record d { contract = contract }))
  set_contract contract (TransactionData.bulk_root_v1 d) =
      returns (TransactionData.bulk_root_v1 (record d { contract = contract }))
  set_contract contract (TransactionData.bulk_v1 root ns) = in_bulk ns (set_contract contract root)
  set_contract contract (TransactionData.bulk_empty_root d) = panics

  unfoldable pub set_account : String → TransactionData → Outcome TransactionData
  unfolding in_bulk
  set_account account (TransactionData.v1 d) =
      returns (TransactionData.v1 (record d { account = account }))
  set_account account (TransactionData.bulk_node_v1 d) =
      returns (TransactionData.bulk_node_v1 (record d { account = account }))
  set_account account (TransactionData.bulk_root_v1 d) =
      returns (TransactionData.bulk_root_v1 (record d { account = account }))
  set_account account (TransactionData.bulk_v1 root ns) = in_bulk ns (set_account account root)
  set_account account (TransactionData.bulk_empty_root d) = panics

  unfoldable pub set_nonce : List ℕ → TransactionData → TransactionData
  set_nonce nonce (TransactionData.v1 d) = TransactionData.v1 (record d { nonce = nonce })
  set_nonce nonce (TransactionData.bulk_node_v1 d) =
      TransactionData.bulk_node_v1 (record d { nonce = nonce })
  set_nonce nonce (TransactionData.bulk_root_v1 d) =
      TransactionData.bulk_root_v1 (record d { nonce = nonce })
  set_nonce nonce (TransactionData.bulk_v1 root ns) =
      TransactionData.bulk_v1 (set_nonce nonce root) ns
  set_nonce nonce (TransactionData.bulk_empty_root d) =
      TransactionData.bulk_empty_root (record d { nonce = nonce })
