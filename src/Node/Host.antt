-- ===== src/Node/Host.antt =====
-- trinci-node/src/services/wm/host_func.rs: the functions of the host that a contract calls. `HostContext` is what
-- is fixed during the call of a contract, `Host` what changes.
pub mod Isolated
pub mod Confined
pub mod Guest
use trinci.Base.{
  ℕ, ◌+◌, ◌%◌, ◌^◌, Bool, true, false, not, ◌||◌, ◌==◌, String_eq, Option, none, some, List, [],
  ◌∷◌, ◌++◌, String, if◌then◌else◌, is_some, retain,
}
use trinci.Base.Result.{Result, ok, err}
use trinci.Crypto.Hash
use trinci.Crypto.Hash.{Hash}
use trinci.Artifacts.Messages.{Req}
use trinci.Node.Identity.{Identity}
use trinci.Node.Account.{Account, load_asset, new_account, remove_asset, store_asset}
use trinci.Node.Database.{
  Database, SmartContractEvent, load_account, load_account_data, load_account_keys,
  remove_account_data, store_account, store_account_data,
}
use trinci.Node.Errors.{WasmError}
use trinci.Node.Machine.{CallArgs, Called, CtxArgs}
use trinci.Node.Validators.{strip_prefix}
use trinci.Node.Execution.State.{Setting}
use trinci.Node.Execution.Units.{fuel_burnt_for_error}

pub record HostContext : Type 0 where
  pub owner : String
  pub depth : ℕ
  pub network : String
  pub origin : String
  pub initial_fuel : ℕ
  pub block_timestamp : ℕ
  pub method : String

-- `rmp_serialize` of `StoreAssetData`, and SHA-256.
pub record HostCodec : Type 0 where
  pub rmp_asset : String → List ℕ → List ℕ
  pub sha256 : List ℕ → List ℕ

abbrev bytes_or_empty : Option (List ℕ) → List ℕ
bytes_or_empty none = []
bytes_or_empty (some bytes) = bytes

abbrev pub account_or_new : String → Option Account → Account
account_or_new id none = new_account id none
account_or_new id (some account) = account

abbrev pub contract_in : Option Account → Option Hash
contract_in none = none
contract_in (some account) = account.contract

abbrev hash_or_default : Option Hash → Hash
hash_or_default none = Hash.default
hash_or_default (some hash) = hash

module _ ⦃i : Identity⦄ (e : Setting) where
  pub record Host : Type 0 where
    pub wm : Option e.wm.State
    pub db : e.forks.Fork
    pub data_updated : Bool
    pub events : List SmartContractEvent

module _ ⦃i : Identity⦄ ⦃e : Setting⦄ (c : HostContext) (k : HostCodec) where
  abbrev reading : Host e → Database e.indexes
  reading h = e.forks.view h.db

  abbrev writing : (Database e.indexes → Database e.indexes) → Host e → Host e
  writing f h = record h { db = e.forks.write f h.db }

  unfoldable pub get_account_contract : Host e → String → Option Hash
  get_account_contract h account_id = contract_in (load_account e.indexes (reading h) account_id)

  unfoldable pub get_smartcontract_hash : Host e → Hash
  get_smartcontract_hash h =
      hash_or_default (contract_in (load_account e.indexes (reading h) c.owner))

  unfoldable pub emit : String → List ℕ → Host e → Host e
  emit event_name event_data h = record h {
    events =
        h.events
        ++ record {
          event_tx = Hash.default;
          emitter_account = c.owner;
          emitter_smart_contract = get_smartcontract_hash h;
          event_name = event_name;
          event_data = event_data;
        }
          ∷ [];
  }

  unfoldable pub load_data : Host e → String → List ℕ
  load_data h key = bytes_or_empty (load_account_data e.indexes (reading h) c.owner key)

  unfoldable pub store_data : String → List ℕ → Host e → Host e
  store_data key bytes h = record (writing (store_account_data e.indexes c.owner key bytes) h) {
    data_updated = true;
  }

  unfoldable pub remove_data : String → Host e → Host e
  remove_data key h = record (writing (remove_account_data e.indexes c.owner key) h) {
    data_updated = true;
  }

  -- The value of the asset of the owner; an account that is not there has none.
  unfoldable pub load_host_asset : Host e → String → List ℕ
  load_host_asset h account_id = elim (load_account e.indexes (reading h) account_id) [
    | none ↦ []
    | some account ↦ load_asset account c.owner
  ]

  -- The account is made where it is not there.
  abbrev pub put_asset : String → List ℕ → Database e.indexes → Database e.indexes
  put_asset account_id value db =
      store_account e.indexes
        (store_asset c.owner value
          (account_or_new account_id (load_account e.indexes db account_id)))
        db

  abbrev pub drop_asset : String → Database e.indexes → Database e.indexes
  drop_asset account_id db =
      store_account e.indexes
        (remove_asset c.owner (account_or_new account_id (load_account e.indexes db account_id))) db

  unfoldable pub store_host_asset : String → List ℕ → Host e → Host e
  store_host_asset account_id value h =
      if account_id == ""
      then h
      else emit "STORE_ASSET" (k.rmp_asset account_id value)
          (writing (put_asset account_id value) h)

  unfoldable pub remove_host_asset : String → Host e → Host e
  remove_host_asset account_id h = writing (drop_asset account_id) h

  -- The keys that start with the pattern.
  unfoldable pub matching : String → List String → List String
  matching pattern keys = retain (λ key. pattern == "" || is_some (strip_prefix pattern key)) keys

  unfoldable pub get_keys : Host e → String → List String
  get_keys h pattern = matching pattern (load_account_keys e.indexes (reading h) c.owner)

  abbrev nested : String → Hash → String → List ℕ → ℕ → CallArgs e.indexes
  nested owner app_hash method args initial_fuel = record {
    depth = (c.depth + 1) % 2 ^ 16;
    network = c.network;
    origin = c.origin;
    owner = owner;
    caller = c.owner;
    contract = app_hash;
    method = method;
    args = args;
    initial_fuel = initial_fuel;
    block_timestamp = c.block_timestamp;
  }

  abbrev asking : String → CtxArgs e.indexes
  asking owner = record { origin = c.origin; owner = owner; caller = c.owner }

  abbrev called :
      Host e
      → Called e.indexes × e.wm.State × e.forks.Fork
      → (ℕ × Result WasmError (List ℕ)) × Host e
  called h (r, m, f) =
      ((r.burnt_wm_fuel, r.result), record h { wm = some m; db = f; events = h.events ++ r.events })

  abbrev after_check :
      Host e
      → String
      → String
      → List ℕ
      → ℕ
      → Result WasmError Hash × e.wm.State × e.forks.Fork
      → (ℕ × Result WasmError (List ℕ)) × Host e
  after_check h owner method args fuel (ok app_hash, m, f) =
      called h (e.wm.call (nested owner app_hash method args fuel) m f)
  after_check h owner method args fuel (err error, m, f) =
      ((0, err error), record h { wm = some m; db = f })

  unfoldable pub call_by :
      Option e.wm.State
      → String
      → Option Hash
      → String
      → List ℕ
      → ℕ
      → Host e
      → (ℕ × Result WasmError (List ℕ)) × Host e
  call_by none owner contract method args fuel h =
      ((fuel_burnt_for_error, err (WasmError.wasm_machine_fault "nested calls not implemented")), h)
  call_by (some m) owner contract method args fuel h =
      after_check h owner method args fuel
        (e.wm.app_hash_check contract (asking owner) c.block_timestamp m h.db)

  -- A call of another contract: the fuel, the result, and what follows.
  unfoldable pub call :
      String → Option Hash → String → List ℕ → ℕ → Host e → (ℕ × Result WasmError (List ℕ)) × Host e
  call owner contract method args fuel h = call_by h.wm owner contract method args fuel h

  abbrev answered :
      Host e
      → (ℕ × Result WasmError ℕ × List SmartContractEvent) × e.wm.State × e.forks.Fork
      → (ℕ × Result WasmError ℕ) × Host e
  answered h ((fuel, result, events), m, f) =
      ((fuel, result), record h { wm = some m; db = f; events = h.events ++ events })

  abbrev asked :
      Host e
      → String
      → String
      → List ℕ
      → ℕ
      → Result WasmError Hash × e.wm.State × e.forks.Fork
      → (ℕ × Result WasmError ℕ) × Host e
  asked h owner method args fuel (ok app_hash, m, f) =
      answered h (e.wm.callable_call (nested owner app_hash method args fuel) m f)
  asked h owner method args fuel (err error, m, f) =
      ((0, err error), record h { wm = some m; db = f })

  unfoldable pub is_callable_by :
      Option e.wm.State
      → String
      → Option Hash
      → String
      → ℕ
      → Host e
      → (ℕ × Result WasmError ℕ) × Host e
  is_callable_by wm account none method fuel h = ((0, ok 0), h)
  is_callable_by none account (some hash) method fuel h =
      ((fuel_burnt_for_error, err (WasmError.wasm_machine_fault "is_callable not implemented")), h)
  is_callable_by (some m) account (some hash) method fuel h =
      asked h account method (e.utf8 method) fuel
        (e.wm.app_hash_check (some hash) (asking account) c.block_timestamp m h.db)

  unfoldable pub is_callable : String → String → ℕ → Host e → (ℕ × Result WasmError ℕ) × Host e
  is_callable account method fuel h =
      is_callable_by h.wm account (get_account_contract h account) method fuel h

  -- `pk.verify` as a number.
  unfoldable pub verify : i.PublicKey → List ℕ → List ℕ → ℕ
  verify pk bytes sign = if i.verify pk bytes sign then 1 else 0

  unfoldable pub sha256 : List ℕ → List ℕ
  sha256 bytes = k.sha256 bytes

  -- The request to the DRand service; `send_req` gives the number of its response, `none` for an error or a
  -- response of another kind.
  unfoldable pub drand : (Req → Option ℕ) → ℕ → Option ℕ
  drand send_req max = send_req (Req.get_drand_num max)

  unfoldable pub get_block_time : ℕ
  get_block_time = c.block_timestamp
