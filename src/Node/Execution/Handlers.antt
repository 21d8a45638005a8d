-- ===== src/Node/Execution/Handlers.antt =====
-- wasm_service.rs: `handle_messages` and `handle_requests`. An error is only logged.
use trinci.Base.{some, ℕ, Bool, Option, List, [], ◌∷◌, String}
use trinci.Base.Outcome.{Outcome, returns, panics, expect, ◌>>=◌}
use trinci.Base.Result.{ok, err}
use trinci.Crypto.Hash.{Hash}
use trinci.Node.Identity.{Identity}
use trinci.Node.Models.{Block, Confirmation}
use trinci.Node.Database.{load_account_data, store_configuration}
use trinci.Node.Storage.{store_transaction}
use trinci.Node.Transactions.{Transaction}
use trinci.Node.Execution.State.{Setting}
use trinci.Node.Execution.Transactions.{service_account_id}
use trinci.Node.Execution.Blocks.{Handled, WasmService, consolidate_block, execute_block}

module _ ⦃i : Identity⦄ where
  pub data WasmMsg : Type 0 where
    execute_block_msg : Block → ℕ → List Transaction → WasmMsg
    start_block_consolidation : Block → List Confirmation → List Hash → WasmMsg
    other : WasmMsg

pub record BlockchainSettings : Type 0 where
  pub accept_broadcast : Bool
  pub block_threshold : ℕ
  pub block_timeout : ℕ
  pub burning_fuel_method : String
  pub network_name : Option String
  pub is_production : Bool
  pub min_node_version : String

-- `rmp_deserialize` and `rmp_serialize` of the settings.
pub record SettingsCodec : Type 0 where
  pub read : List ℕ → Option BlockchainSettings
  pub rmp : BlockchainSettings → List ℕ

abbrev pub settings_key : String
settings_key = "blockchain:settings"

module _ ⦃i : Identity⦄ ⦃e : Setting⦄ where
  abbrev settled : Handled e → Outcome (WasmService e)
  settled (returns (result, s)) = returns s
  settled panics = panics

  unfoldable pub handle_messages : Option String → WasmMsg → WasmService e → Outcome (WasmService e)
  unfolding execute_block consolidate_block
  handle_messages leader (WasmMsg.execute_block_msg block round txs) s =
      settled (execute_block leader block round txs s)
  handle_messages leader (WasmMsg.start_block_consolidation block confirmations txs_hashes) s =
      settled (consolidate_block block confirmations txs_hashes s)
  handle_messages leader WasmMsg.other s = returns s

  abbrev store_bootstrap : List Transaction → e.forks.Fork → e.forks.Fork
  unfolding store_transaction
  store_bootstrap [] fork = fork
  store_bootstrap (tx ∷ txs) fork =
      store_bootstrap txs
        (e.forks.write (store_transaction e.indexes e.codec (e.tx_primary_hash tx) tx) fork)

  -- After the genesis block: the settings with the network name, and the transactions under their hashes.
  unfoldable pub configure :
      SettingsCodec → List Transaction → String → WasmService e → Outcome (WasmService e)
  unfolding ◌>>=◌ expect load_account_data store_configuration store_transaction
  configure k bootstrap_txs network_name s = do
    bytes ← expect (load_account_data e.indexes s.db service_account_id settings_key)
    settings ← expect (k.read bytes)
    let config = record settings { network_name = some network_name }
    let configured =
        e.forks.write (store_configuration e.indexes settings_key (k.rmp config))
          (e.forks.create s.db)
    db ← expect (e.forks.merge (store_bootstrap bootstrap_txs configured) s.db)
    returns (record s { db = db; burning_fuel_method = config.burning_fuel_method })

  abbrev configured :
      SettingsCodec → List Transaction → String → Handled e → Outcome (WasmService e)
  unfolding configure
  configured k txs network_name (returns (ok done, s)) = configure k txs network_name s
  configured k txs network_name (returns (err error, s)) = returns s
  configured k txs network_name panics = panics

  -- `ExecuteGenesisBlock`
  unfoldable pub handle_genesis :
      SettingsCodec
      → Option String
      → Block
      → List Transaction
      → String
      → WasmService e
      → Outcome (WasmService e)
  unfolding execute_block configure
  handle_genesis k leader block bootstrap_txs network_name s =
      configured k bootstrap_txs network_name (execute_block leader block 0 bootstrap_txs s)
