-- ===== src/Node/Requests.antt =====
-- trinci-node/src/services/db_service.rs: what `DBService` responds to the requests of other services and does for
-- a message, with the database as it is read. A read lock is always got; the response of the transaction
-- service to `GetTxs` is an argument, `none` where it does not come.
pub mod Answered
use trinci.Base.{
  ℕ, ◌+◌, ◌-◌, ◌%◌, ◌^◌, Bool, true, false, not, ◌==◌, ltb, Option, none, some, List, [], ◌∷◌, ◌++◌,
  map, String, String_eq, if◌then◌else◌, is_some, length,
}
use trinci.Base.Words.{u64_mod}
use trinci.Base.Outcome.{Outcome, returns, panics, expect, ◌>>=◌}
use trinci.Artifacts.Messages.{BlockInfo}
use trinci.Crypto.Hash
use trinci.Crypto.Hash.{Hash, Hash_eq}
use trinci.Node.Identity.{Identity}
use trinci.Node.Comm.{DbReq, DbRes}
use trinci.Node.Account.{Account}
use trinci.Node.Models.{Block, Codec, Confirmation, get_block_hash}
use trinci.Node.Database.{
  Database, Indexes, Receipt, contains_transaction, load_account, load_account_data,
  load_account_keys, load_block, load_confirmations, load_receipt, load_transactions_hashes,
}
use trinci.Node.Storage.{load_full_block, load_transaction}
use trinci.Node.Transactions.{DataCodec, Transaction}
use trinci.Node.Validators.{Player, ValidatorsCodec, get_players}

-- `rmp_serialize` of keys, and `rmp_deserialize` of a text and of the validators.
pub record RequestsCodec : Type 0 where
  pub rmp_keys : List String → List ℕ
  pub read_string : List ℕ → Option String
  pub validators : ValidatorsCodec

module _ ⦃i : Identity⦄ (x : Indexes) (k : DataCodec) (b : Codec) (r : RequestsCodec) where
  -- The greatest `u64` stands for the last block.
  abbrev last_block : Database x → Option Block
  last_block db = load_block x db (u64_mod - 1)

  abbrev height_of : Option Block → ℕ
  height_of none = 0
  height_of (some block) = block.content.height

  abbrev hash_of : Option Block → Hash
  hash_of none = Hash.default
  hash_of (some block) = get_block_hash b block

  abbrev state_of : Option Block → Hash
  state_of none = Hash.default
  state_of (some block) = block.content.state_hash

  abbrev read_account : Option (List ℕ) → Option String
  read_account none = none
  read_account (some bytes) = r.read_string bytes

  -- The block goes with the confirmations where it is asked for or is not the expected one.
  unfoldable pub confirmations_of : Database x → ℕ → Hash → Bool → Option Block → Outcome DbRes
  unfolding ◌>>=◌ expect load_confirmations load_transactions_hashes get_block_hash
  confirmations_of db height hash ask none = returns (DbRes.confirmations none none)
  confirmations_of db height hash ask (some block) =
      let found = load_confirmations x db height in
      let with_block = (do
        hashes ← expect (load_transactions_hashes x db height)
        returns (DbRes.confirmations found (some (block, hashes)))) in
      if get_block_hash b block == hash
      then (if ask then with_block else returns (DbRes.confirmations found none))
      else with_block

  -- The transactions that the database has, and the hashes of the others.
  unfoldable pub collect : Database x → List Hash → List Transaction × List Hash
  unfolding load_transaction
  collect db [] = ([], [])
  collect db (hash ∷ hashes) =
      let rest = collect db hashes in
      elim (load_transaction x k db hash) [
        | some tx ↦ (tx ∷ rest.0, rest.1)
        | none ↦ (rest.0, hash ∷ rest.1)
      ]

  abbrev responded : Option (List Transaction) → List Transaction
  responded none = []
  responded (some txs) = txs

  -- `ask` is the response of the transaction service to the hashes that remain.
  unfoldable pub collect_txs :
      Database x → (List Hash → Option (List Transaction)) → List Hash → List Transaction
  unfolding collect
  collect_txs db ask hashes =
      let (found, remaining) = collect db hashes in
      if ltb (length found) (length hashes) then found ++ responded (ask remaining) else found

  -- `none` for a request that the service does not expect: it sends no response.
  unfoldable pub handle_requests :
      String → (List Hash → Option (List Transaction)) → Database x → DbReq → Outcome (Option DbRes)
  unfolding ◌>>=◌ load_account load_account_data load_account_keys load_block confirmations_of
      load_full_block get_players load_receipt collect_txs contains_transaction
  handle_requests node_id ask db (DbReq.get_account id) =
      returns (some (DbRes.account (load_account x db id)))
  handle_requests node_id ask db (DbReq.get_account_data id key) = returns (
      some (
        DbRes.account_data (
          if key == "*"
          then some (r.rmp_keys (load_account_keys x db id))
          else load_account_data x db id key)))
  handle_requests node_id ask db (DbReq.get_confirmations height hash wanted) = do
    answer ← confirmations_of db height hash wanted (load_block x db height)
    returns (some answer)
  handle_requests node_id ask db (DbReq.get_full_block height) =
      returns (some (DbRes.full_block (load_full_block x k db height) node_id))
  handle_requests node_id ask db DbReq.get_height =
      returns (some (DbRes.height (height_of (last_block db))))
  handle_requests node_id ask db DbReq.get_last_block_info = returns (
      some (
        DbRes.last_block_info
          (record { height = height_of (last_block db); hash = hash_of (last_block db) })))
  handle_requests node_id ask db DbReq.get_mining_account =
      returns
        (some (DbRes.mining_account (read_account (load_account_data x db "TRINCI" "stake_coin"))))
  handle_requests node_id ask db DbReq.get_players_req = do
    players ← get_players x r.validators db
    returns (some (DbRes.players (some players)))
  handle_requests node_id ask db (DbReq.get_rx hash) =
      returns (some (DbRes.rx (load_receipt x db hash)))
  handle_requests node_id ask db DbReq.get_status =
      returns (some (DbRes.status (height_of (last_block db)) (state_of (last_block db))))
  handle_requests node_id ask db (DbReq.get_txs hashes) =
      returns (some (DbRes.txs (collect_txs db ask hashes)))
  handle_requests node_id ask db (DbReq.has_block height) =
      returns (some (DbRes.block_is_there (is_some (load_block x db height))))
  handle_requests node_id ask db (DbReq.has_tx hash) =
      returns (some (DbRes.tx_is_there (contains_transaction x db hash)))
  handle_requests node_id ask db (DbReq.has_txs hashes) =
      returns (some (DbRes.txs_mask (map (λ hash. contains_transaction x db hash) hashes)))
  handle_requests node_id ask db DbReq.other = returns none

  -- `VerifyIfConsolidated`: the height and the round of the `BlockElectionFailed` that is sent, where it is. A
  -- round has 8 bits.
  unfoldable pub verify_if_consolidated : Database x → ℕ → ℕ → Option (ℕ × ℕ)
  unfolding load_block
  verify_if_consolidated db height round =
      if is_some (load_block x db height) then none else some (height, (round + 1) % 2 ^ 8)
