-- ===== src/Node/Checks.antt =====
-- trinci-node/src/services/wm/local.rs: `contract_updatable` and `app_hash_check` of `WmLocal`, over the call of a
-- contract, which is a parameter.
pub mod Bound
use trinci.Base.{
  ℕ, Bool, true, false, ◌==◌, Option, none, some, List, [], String, if◌then◌else◌, PartialEq,
}
use trinci.Base.Result.{Result, err, ok}
use trinci.Crypto.Hash
use trinci.Crypto.Hash.{Hash, Hash_eq, as_bytes}
use trinci.Node.Identity.{Identity}
use trinci.Node.Account.{Account, new_account}
use trinci.Node.Database.{Database, Indexes, load_account, store_account}
use trinci.Node.Errors.{WasmError}
use trinci.Node.Fuel.{max_wm_fuel}
use trinci.Node.Host.{account_or_new}
use trinci.Node.Machine.{CallArgs, Called, CtxArgs, Forks}

-- `rmp_serialize` of the account, the current and the new contract, and `rmp_deserialize` of the answer.
pub record UpdatableCodec : Type 0 where
  pub rmp_args : String → List ℕ → List ℕ → List ℕ
  pub read_bool : List ℕ → Option Bool

abbrev pub hash_bytes : Option Hash → List ℕ
hash_bytes none = []
hash_bytes (some hash) = as_bytes hash

abbrev pub is_bound : Option Hash → Hash → Bool
is_bound none hash = false
is_bound (some current) hash = current == hash

module _ ⦃i : Identity⦄ (x : Indexes) (f : Forks x) (k : UpdatableCodec) {M : Type 0}
    (call : CallArgs x → M → f.Fork → Called x × M × f.Fork) where
  -- The contract of the account of the service.
  abbrev pub service_contract : Database x → Option Hash
  service_contract db = elim (load_account x db "TRINCI") [
    | none ↦ none
    | some account ↦ account.contract
  ]

  abbrev pub says_yes : Result WasmError (List ℕ) → Bool
  says_yes (ok value) = elim (k.read_bool value) [ none ↦ false | some answer ↦ answer ]
  says_yes (err error) = false

  abbrev pub ask_args : String → Option Hash → Option Hash → CtxArgs x → ℕ → Hash → CallArgs x
  ask_args account current_hash new_hash ctx_args block_timestamp contract = record {
    depth = 0;
    network = "";
    origin = ctx_args.origin;
    owner = "TRINCI";
    caller = ctx_args.caller;
    contract = contract;
    method = "contract_updatable";
    args = k.rmp_args account (hash_bytes current_hash) (hash_bytes new_hash);
    initial_fuel = max_wm_fuel;
    block_timestamp = block_timestamp;
  }

  unfoldable pub contract_updatable :
      String → Option Hash → Option Hash → CtxArgs x → ℕ → M → f.Fork → Bool × M × f.Fork
  unfolding load_account
  contract_updatable account current_hash new_hash ctx_args block_timestamp m fork =
      elim (service_contract (f.view fork)) [
        | none ↦ (false, m, fork)
        | some contract ↦
            (let (called, m', fork') =
                call (ask_args account current_hash new_hash ctx_args block_timestamp contract) m
                  fork in
              (says_yes called.result, m', fork'))
      ]

  -- The account is stored with the contract, as it was loaded before.
  abbrev pub bind : Account → Hash → f.Fork → f.Fork
  bind account hash fork = f.write (store_account x (record account { contract = some hash })) fork

  -- The answer of the service about another contract.
  unfoldable pub rebind : Account → Hash → Bool × M × f.Fork → Result WasmError Hash × M × f.Fork
  rebind account hash (true, m, fork) = (ok hash, m, bind account hash fork)
  rebind account hash (false, m, fork) =
      (err (WasmError.invalid_contract "cannot bind the contract to the account"), m, fork)

  -- Where none is asked for, the contract of the account is taken.
  unfoldable pub take_current :
      Account → Option Hash → M → f.Fork → Result WasmError Hash × M × f.Fork
  take_current account none m fork =
      (err (WasmError.resource_not_found "smart contract not specified"), m, fork)
  take_current account (some current) m fork = (ok current, m, bind account current fork)

  unfoldable pub check_account :
      Account → Option Hash → CtxArgs x → ℕ → M → f.Fork → Result WasmError Hash × M × f.Fork
  unfolding contract_updatable rebind take_current
  check_account account (some hash) ctx_args block_timestamp m fork =
      if is_bound account.contract hash
      then (ok hash, m, fork)
      else rebind account hash (
          contract_updatable ctx_args.owner account.contract (some hash) ctx_args block_timestamp m
            fork)
  check_account account none ctx_args block_timestamp m fork =
      take_current account account.contract m fork

  unfoldable pub app_hash_check :
      Option Hash → CtxArgs x → ℕ → M → f.Fork → Result WasmError Hash × M × f.Fork
  unfolding check_account load_account
  app_hash_check app_hash ctx_args block_timestamp m fork =
      check_account (account_or_new ctx_args.owner (load_account x (f.view fork) ctx_args.owner))
        app_hash ctx_args block_timestamp m fork
