-- ===== src/Tests/Runs.antt =====
-- The run of a contract that stores under a key, over the forks that are pairs of databases.
use trinci.Base.{
  List, sym, ap, ◌∙◌, ◌≡◌, refl, ℕ, ◌==◌, String_eq, true, none, some, [], ◌∷◌, Bool-cases, eq→≡,
  inl, inr,
}
use trinci.Base.Outcome.{◌>>=◌, Outcome, returns, panics}
use trinci.Base.Result.{Result, ok, err}
use trinci.Crypto.Hash
use trinci.Crypto.Hash.{Hash}
use trinci.Node.Account.{Account}
use trinci.Node.Database.{store_data, Database, load_account, store_account_data, store_account}
use trinci.Node.Errors.{WasmError}
use trinci.Node.Machine.{CallArgs}
use trinci.Node.Host.{HostContext}
use trinci.Node.Host.Isolated.{IsKeyed}
use trinci.Node.Host.Guest.{bytes_at, slice_from, mem_from, Caller}
use trinci.Node.Host.Guest.Contained.{GuestCall, invoke}
use trinci.Node.Host.Guest.Sandboxed.{AllocPerforms-IsConfined}
use trinci.Node.Runs.{function_named, host_functions_register, Export, Failure, Instance, Runtime}
use trinci.Node.Runs.Instances.{
  result_at, update_data_hash, write_mem, instance_of, prepare, run_contract,
}
use trinci.Node.Runs.Calls.{context_of, input_of, new_store}
use trinci.Node.Runs.Steps.{Runs, RunsGuest, RunsTo}
use trinci.Node.Runs.Hashed.{IsHashed, run_contract-IsHashed}
use trinci.Tests.Executions.{small}
use trinci.Tests.Hosts.{assets, guest, guest-AllocPerforms}
use trinci.Tests.Nodes.{plain}
use trinci.Tests.Locals.{taking}
use trinci.Tests.Stores.{empty_database, lists}
use trinci.Node.Host.Guest.Trampolines.{hf_store_data}
use trinci.Node.Local.{wslice_split, sign_extended}

abbrev answered :
    Outcome (Result WasmError Unit × Caller small) → Outcome (Result Failure ℕ × Caller small)
answered (returns (ok done, s)) = returns (ok 1, s)
answered (returns (err error, s)) = returns (err (record { text = "wasm trap"; trap = none }), s)
answered panics = panics

abbrev store_note : GuestCall
store_note = GuestCall.store_data 0 1 1 2

abbrev storing : HostContext → Export small ℕ
storing c s = answered (invoke guest c assets store_note s)

abbrev exports : HostContext → Instance small
exports c = record {
  alloc = ok (λ n s. returns (ok 0, s));
  run = ok (λ p q x y s. storing c s);
  is_callable = ok (λ p q x y s. returns (ok 1, s));
}

abbrev runtime : Runtime small
runtime = record {
  compiler = taking;
  cached = λ m. record { cache = []; cache_max = 1 };
  with_cache = λ cache m. m;
  now = λ m. 0;
  imports = λ code. "hf_store_data" ∷ [];
  instantiate =
      λ c code funcs s. returns (ok (exports c), record s { memory = some (1 ∷ 2 ∷ 3 ∷ []) });
  write = λ mem address bytes. ok mem;
  rmp_input = λ input. ok [];
  rmp_output = λ bytes. ok (record { success = true; data_ = bytes });
  from_utf8_lossy = λ bytes. "";
  replace = λ text from to. text;
}

answered-RunsTo :
    (c : HostContext) (s : Caller small) (o : Outcome (Result WasmError Unit × Caller small))
    → invoke guest c assets store_note s ≡ o
    → RunsTo guest c assets s (answered o)
answered-RunsTo c s (returns (ok done, s')) h = Runs.invokes store_note s s' (ok done) h
answered-RunsTo c s (returns (err error, s')) h = Runs.invokes store_note s s' (err error) h
answered-RunsTo c s panics h = tt

runtime-RunsGuest : (c : HostContext) (code : List ℕ) → RunsGuest guest c assets runtime code
runtime-RunsGuest c code = record {
  starts = λ funcs s. (
    Runs.computes s _ refl,
    record {
      alloc_runs = λ n s. Runs.computes s s refl;
      run_runs = λ p q x y s. answered-RunsTo c s _ refl;
      is_callable_runs = λ p q x y s. Runs.computes s s refl;
    },
  );
}

abbrev owner : Account
owner = record { id = "a"; assets = []; contract = some Hash.default; data_hash = none }

abbrev deployed : Database lists
deployed = record empty_database {
  accounts = ("a", owner) ∷ [];
  account_data = λ id. ("contracts:code:", 7 ∷ []) ∷ [];
}

deployed-IsKeyed : IsKeyed deployed
unfolding load_account
deployed-IsKeyed = record {
  keyed = λ id account h. elim (Bool-cases ("a" == id)) [
    | inl same ↦
        let found : some owner ≡ some account = rw same at h in
        let is_owner : owner ≡ account = cc in sym (ap (λ a. a.id) is_owner) ∙ eq→≡ "a" id same
    | inr other ↦ absurd cc
  ];
}

abbrev arguments : CallArgs lists
arguments = record {
  depth = 0;
  network = "net";
  origin = "b";
  owner = "a";
  caller = "b";
  contract = Hash.default;
  method = "note";
  args = [];
  initial_fuel = 1000;
  block_timestamp = 9;
}

abbrev context : HostContext
context = context_of arguments

abbrev started : Caller small
started = new_store arguments (deployed, deployed)

-- What the run leaves: the note, and the hash of the data in the account.
abbrev noted : Database lists
noted =
    store_account lists (record owner { data_hash = some Hash.default })
      (store_account_data lists "a" "b" (2 ∷ 3 ∷ []) deployed)

abbrev finished : Caller small
finished = record {
  memory = some (1 ∷ 2 ∷ 3 ∷ []);
  fuel = 1000;
  host = record { wm = some 0; db = (noted, deployed); data_updated = true; events = [] };
}

ran :
    run_contract runtime context (input_of arguments) [] (7 ∷ []) 0 started
    ≡ returns (ok (1 ∷ []), finished)
unfolding run_contract prepare instance_of host_functions_register function_named write_mem
    update_data_hash result_at store_data invoke hf_store_data mem_from slice_from bytes_at
    sign_extended wslice_split ◌>>=◌ load_account store_account_data store_account
ran = refl

run_contract-IsHashed_example : IsHashed "a" noted
run_contract-IsHashed_example =
    run_contract-IsHashed context (λ db db' h. refl) runtime guest assets (7 ∷ [])
      (runtime-RunsGuest context (7 ∷ []))
      (AllocPerforms-IsConfined context assets guest.alloc (guest-AllocPerforms context))
      (input_of arguments) [] 0 started finished (1 ∷ []) deployed-IsKeyed ran refl
