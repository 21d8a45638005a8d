-- ===== src/Node/Comm.antt =====
-- trinci-node/src/artifacts/messages.rs: the requests that the service of the database answers, and its responses.
use trinci.Base.{ℕ, Bool, Option, List, String}
use trinci.Artifacts.Messages.{BlockInfo}
use trinci.Crypto.Hash.{Hash}
use trinci.Node.Identity.{Identity}
use trinci.Node.Account.{Account}
use trinci.Node.Models.{Block, Confirmation}
use trinci.Node.Database.{Receipt}
use trinci.Node.Transactions.{Transaction}
use trinci.Node.Validators.{Player}

module _ ⦃i : Identity⦄ where
  pub data DbReq : Type 0 where
    get_account : String → DbReq
    get_account_data : String → String → DbReq
    get_confirmations : ℕ → Hash → Bool → DbReq
    get_full_block : ℕ → DbReq
    get_height get_last_block_info get_mining_account get_players_req get_status : DbReq
    get_rx : Hash → DbReq
    get_txs : List Hash → DbReq
    has_block : ℕ → DbReq
    has_tx : Hash → DbReq
    has_txs : List Hash → DbReq
    other : DbReq

  pub data DbRes : Type 0 where
    account : Option Account → DbRes
    account_data : Option (List ℕ) → DbRes
    confirmations : Option (List Confirmation) → Option (Block × List Hash) → DbRes
    full_block : Option (Block × List Confirmation × List Transaction) → String → DbRes
    height : ℕ → DbRes
    last_block_info : BlockInfo → DbRes
    mining_account : Option String → DbRes
    players : Option (List Player) → DbRes
    rx : Option Receipt → DbRes
    status : ℕ → Hash → DbRes
    txs : List Transaction → DbRes
    block_is_there : Bool → DbRes
    tx_is_there : Bool → DbRes
    txs_mask : List Bool → DbRes
