-- ===== src/Node/Setters.antt =====
-- The setters of the data of a transaction, against the getters.
use trinci.Base.{◌∙◌, ◌≡◌, refl, Option, String, Bool, true, false}
use trinci.Base.Outcome.{returns}
use trinci.Crypto.Hash.{Hash}
use trinci.Node.Identity.{Identity}
use trinci.Node.Transactions.{
  TransactionData, get_account, get_caller, get_contract, get_network, set_account, set_contract,
}

module _ ⦃i : Identity⦄ where
  -- The transaction at the end of the roots is not the empty one.
  abbrev pub has_root : TransactionData → Bool
  has_root (TransactionData.bulk_v1 root ns) = has_root root
  has_root (TransactionData.bulk_empty_root d) = false
  has_root _ = true

  -- A change that a contract or an account alone undergoes.
  abbrev pub IsSame : TransactionData → TransactionData → Type 0
  IsSame d e = (get_caller e ≡ get_caller d) × (get_network e ≡ get_network d)

  set_contract-get :
      (contract : Option Hash) (d : TransactionData)
      → has_root d ≡ true
      → (e : TransactionData) × (set_contract contract d ≡ returns e)
        × (get_contract e ≡ returns contract)
        × (get_account e ≡ get_account d)
        × (has_root e ≡ true)
        × IsSame d e
  unfolding set_contract get_contract get_account get_caller get_network
  set_contract-get contract (TransactionData.v1 d) h = (_, refl, refl, refl, h, (refl, refl))
  set_contract-get contract (TransactionData.bulk_node_v1 d) h =
      (_, refl, refl, refl, h, (refl, refl))
  set_contract-get contract (TransactionData.bulk_root_v1 d) h =
      (_, refl, refl, refl, h, (refl, refl))
  set_contract-get contract (TransactionData.bulk_v1 root ns) h =
      let (e, done, same, other, rooted, kept) = set_contract-get contract root h in
      (TransactionData.bulk_v1 e ns, rw done refl, same, other, rooted, kept)
  set_contract-get contract (TransactionData.bulk_empty_root d) h = cc

  set_account-get :
      (account : String) (d : TransactionData)
      → has_root d ≡ true
      → (e : TransactionData) × (set_account account d ≡ returns e)
        × (get_account e ≡ account)
        × (get_contract e ≡ get_contract d)
        × (has_root e ≡ true)
        × IsSame d e
  unfolding set_account get_contract get_account get_caller get_network
  set_account-get account (TransactionData.v1 d) h = (_, refl, refl, refl, h, (refl, refl))
  set_account-get account (TransactionData.bulk_node_v1 d) h =
      (_, refl, refl, refl, h, (refl, refl))
  set_account-get account (TransactionData.bulk_root_v1 d) h =
      (_, refl, refl, refl, h, (refl, refl))
  set_account-get account (TransactionData.bulk_v1 root ns) h =
      let (e, done, same, other, rooted, kept) = set_account-get account root h in
      (TransactionData.bulk_v1 e ns, rw done refl, same, other, rooted, kept)
  set_account-get account (TransactionData.bulk_empty_root d) h = cc

  -- Where the root at the end of the roots is not empty, setting a contract and then an account does not
  -- panic: the getters give back both, and the caller and the network are those of before.
  pub setters_lem :
      (contract : Option Hash) (account : String) (d : TransactionData)
      → has_root d ≡ true
      → (e : TransactionData) × (f : TransactionData) × (set_contract contract d ≡ returns e)
        × (set_account account e ≡ returns f)
        × (get_contract f ≡ returns contract)
        × (get_account f ≡ account)
        × IsSame d f
  setters_lem contract account d h =
      let (e, done, given, same, rooted, kept) = set_contract-get contract d h in
      let (f, done', given', same', rooted', kept') = set_account-get account e rooted in
      (e, f, done, done', same' ∙ given, given', (kept'.0 ∙ kept.0, kept'.1 ∙ kept.1))
