-- ===== src/Tests/Nodes.antt =====
-- Accounts, blocks and transactions of a node whose keys are the ids of their accounts, and where the
-- signature of bytes is the bytes.
use trinci.Base.{
  ℕ, ◌≡◌, ◌↔◌, refl, true, some, none, List, [], ◌∷◌, list_eq, list_eq_iff, ℕ_eq, String, String_eq,
  Option,
}
use trinci.Base.Outcome.{returns, panics}
use trinci.Crypto.Hash
use trinci.Crypto.Hash.{Hash}
use trinci.Node.Account.{AssetOp}
use trinci.Node.Identity.{Identity}
use trinci.Node.Transactions.{
  get_network, BulkNodes, DataCodec, SignedTransactions, Transaction, TransactionData,
}
use trinci.Node.Integrity.{verify, check_data}
use trinci.Node.Models.{
  get_player_id, new_confirmation, sign_confirmation, verify_confirmation, get_block_hash,
  get_builder_id, new_block, sign_block, verify_block, Codec,
}
use trinci.Node.Coherent.{verify-IsBulk_iff, check_data-panics_iff, IsBulk, IsBroken}
use trinci.Node.Signed.{signed_lem}

pub same-bytes : (a b : List ℕ) → Path (Option (List ℕ)) (some a) (some b) → list_eq a b ≡ true
same-bytes a b e = (list_eq_iff a b).1 cc

instance abbrev pub plain : Identity
plain = record {
  PublicKey = String;
  KeyPair = String;
  public_key = λ k. k;
  key_eq = String_eq;
  to_account_id = λ p. some p;
  sign = λ k bytes. some bytes;
  verify = λ p bytes signature. list_eq bytes signature;
  verify-sign = λ k bytes signature e. same-bytes bytes signature e;
}

abbrev ops : List AssetOp
ops = AssetOp.store "coin" (5 ∷ []) ∷ AssetOp.store "gold" (7 ∷ []) ∷ AssetOp.remove "coin" ∷ []

abbrev pub codec : DataCodec
codec = record { rmp = λ d. 1 ∷ 2 ∷ []; primary_hash = λ d. Hash.default }

abbrev root : TransactionData
root =
    TransactionData.bulk_empty_root
      (record { fuel_limit = 100; nonce = 1 ∷ []; network = "net"; caller = "a" })

abbrev pub payload : TransactionData
payload = TransactionData.v1 (record {
  account = "a";
  fuel_limit = 100;
  nonce = 1 ∷ [];
  network = "net";
  contract = none;
  method = "transfer";
  caller = "a";
  args = [];
})

abbrev one_node : SignedTransactions
one_node =
    SignedTransactions.cons
      (TransactionData.bulk_node_v1 (record {
        account = "a";
        fuel_limit = 0;
        nonce = 2 ∷ [];
        network = "net";
        contract = none;
        method = "transfer";
        caller = "a";
        args = [];
        depends_on = Hash.default;
      }))
      (3 ∷ []) SignedTransactions.nil

verify-IsBulk_iff_example :
    (verify codec (
        Transaction.bulk_transaction
          (TransactionData.bulk_v1 root (BulkNodes.nodes one_node))
          (1 ∷ 2 ∷ []))
      ≡ returns true)
    ↔ (IsBulk codec root (BulkNodes.nodes one_node)
        × (list_eq {A = ℕ} (1 ∷ 2 ∷ []) (1 ∷ 2 ∷ []) ≡ true))
verify-IsBulk_iff_example = verify-IsBulk_iff codec root (BulkNodes.nodes one_node) (1 ∷ 2 ∷ [])

check_data-panics_example :
    (check_data codec (
        TransactionData.bulk_v1 root
          (BulkNodes.nodes (SignedTransactions.cons payload [] SignedTransactions.nil)))
      ≡ panics)
    ↔ IsBroken Hash.default
        (get_network root)
        (SignedTransactions.cons payload [] SignedTransactions.nil)
check_data-panics_example =
    check_data-panics_iff codec root (SignedTransactions.cons payload [] SignedTransactions.nil)

abbrev blocks : Codec
blocks = record {
  rmp_block = λ b. b.height ∷ [];
  primary_hash = λ b. Hash.default;
  rmp_confirmation = λ x. x.block_height ∷ [];
}

signed_example :
    (verify_block blocks (sign_block blocks (new_block 9 "a" [] 4 Hash.default) "a") ≡ true)
    × (get_builder_id (sign_block blocks (new_block 9 "a" [] 4 Hash.default) "a") ≡ some "a")
    × (get_block_hash blocks (sign_block blocks (new_block 9 "a" [] 4 Hash.default) "a")
        ≡ get_block_hash blocks (new_block 9 "a" [] 4 Hash.default))
    × (verify_confirmation blocks
          (sign_confirmation blocks (new_confirmation Hash.default 4 0 "a") "a")
        ≡ true)
    × (get_player_id (sign_confirmation blocks (new_confirmation Hash.default 4 0 "a") "a") ≡ "a")
signed_example = signed_lem blocks "a" 9 [] 4 0 Hash.default Hash.default _ _ "a" refl refl refl
