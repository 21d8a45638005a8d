-- ===== src/Tests/Hosts.antt =====
-- What a contract does by the functions of the host, and the responses of the service of the database, over the
-- forks that are pairs of databases.
use trinci.Base.{some, ◌≡◌, ◌↔◌, none, List, [], ◌∷◌, false, true}
use trinci.Base.Outcome.{panics}
use trinci.Crypto.Hash
use trinci.Crypto.Hash.{Hash}
use trinci.Artifacts.Models.Players.{Players}
use trinci.Node.Comm.{DbReq}
use trinci.Node.Database.{load_data}
use trinci.Node.Host.{Host, store_host_asset, HostCodec, HostContext}
use trinci.Base.{refl}
use trinci.Base.Result.{Result, ok, err}
use trinci.Node.Errors.{WasmError}
use trinci.Node.Host.Guest.{Alloc, Caller, GuestCodec}
use trinci.Node.Host.Guest.Contained.{GuestCall}
use trinci.Node.Host.Confined.{perform_all}
use trinci.Node.Requests.{RequestsCodec, handle_requests}
use trinci.Node.Requests.Answered.{Fails, get_confirmations-panics_iff}
use trinci.Tests.Executions.{no_validators, small}
use trinci.Tests.Nodes.{codec, plain}
use trinci.Tests.Stores.{empty_database, lists}
use trinci.Node.Host.Guest.Sandboxed.{AllocPerforms}

abbrev transfer : HostContext
transfer = record {
  owner = "a";
  depth = 0;
  network = "net";
  origin = "b";
  initial_fuel = 1000;
  block_timestamp = 9;
  method = "transfer";
}

abbrev pub assets : HostCodec
assets = record { rmp_asset = λ name value. value; sha256 = λ bytes. [] }

abbrev untouched : Host small
untouched = record {
  wm = none;
  db = (empty_database, empty_database);
  data_updated = false;
  events = [];
}

abbrev responses : RequestsCodec
responses = record {
  rmp_keys = λ keys. [];
  read_string = λ bytes. none;
  validators = no_validators;
}

get_confirmations-panics_iff_example :
    (handle_requests lists codec small.block_codec responses "n"
        (λ hashes. none)
        empty_database
        (DbReq.get_confirmations 3 Hash.default true)
      ≡ panics)
    ↔ Fails lists codec small.block_codec responses empty_database 3 Hash.default true
get_confirmations-panics_iff_example =
    get_confirmations-panics_iff lists codec small.block_codec responses "n" (λ hashes. none)
      empty_database 3 Hash.default true

abbrev pub guest : GuestCodec small
guest = record {
  alloc = Alloc.function (λ size s. (some 0, record s { fuel = 50 }));
  write = λ mem address bytes. some mem;
  from_utf8 = λ bytes. ok "b";
  from_utf8_lossy = λ bytes. "b";
  rmp_output = λ success bytes. bytes;
  rmp_keys = λ keys. [];
  hash_error = λ error. "";
  read_public_key = λ bytes. err "";
}

abbrev calling : Caller small
calling = record { memory = some (1 ∷ 2 ∷ 3 ∷ []); fuel = 100; host = untouched }

pub guest-AllocPerforms : (c : HostContext) → AllocPerforms c assets guest.alloc
unfolding perform_all
guest-AllocPerforms c = λ size s. ([], refl)

-- The last but one reads outside of the memory.
abbrev calls : List GuestCall
calls =
    GuestCall.load_data 0 1
    ∷ GuestCall.store_asset 0 1 1 2
    ∷ GuestCall.store_data 2 1 3 1
    ∷ GuestCall.emit 0 1 0 1
    ∷ []

abbrev stored : Caller small
stored = record calling {
  fuel = 50;
  host = store_host_asset transfer assets "b" (2 ∷ 3 ∷ []) untouched;
}

abbrev no_slice : Result WasmError Unit
no_slice = err (WasmError.wasm_machine_fault "Problems to get a slice from wasm memory")
