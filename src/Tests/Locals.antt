-- ===== src/Tests/Locals.antt =====
-- The machine: slices, the cache of modules over a compiler that takes every code, and the check of a contract by
-- a machine that always says yes.
use trinci.Base.{
  drop, take, ◌+◌, true, ℕ, suc, ◌≤◌, ◌≡◌, refl, none, some, List, [], ◌∷◌, arith, length,
}
use trinci.Base.Result.{ok}
use trinci.Crypto.Hash
use trinci.Crypto.Hash.{Hash}
use trinci.Node.Account.{Account, new_account}
use trinci.Node.Database.{Database, load_account, store_account}
use trinci.Node.Machine.{CallArgs, Called, CtxArgs}
use trinci.Node.Host.Guest.{bytes_at}
use trinci.Node.Host.Guest.Slice.{bytes_at_lem}
use trinci.Node.Local.{sign_extended, Compiler, wslice_create, wslice_split}
use trinci.Node.Local.Slices.{wslice_split-wslice_create}
use trinci.Node.Checks.{UpdatableCodec, app_hash_check, check_account, contract_updatable, rebind}
use trinci.Node.Checks.Bound.{HoldsContract, IsAllowed, app_hash_check-HoldsContract}
use trinci.Tests.Executions.{pairs}
use trinci.Tests.Nodes.{plain}
use trinci.Tests.Stores.{empty_database, lists}

-- An address with the sign bit.
wslice_split-wslice_create_example : wslice_split (wslice_create 4026531840 17) ≡ (4026531840, 17)
wslice_split-wslice_create_example =
    wslice_split-wslice_create 4026531840 17 (omega arith) (omega arith)

abbrev pub taking : Compiler
taking = record { Module = List ℕ; compile = λ code. ok code }

abbrev loaded : Database lists
loaded = record empty_database { account_data = λ id. ("contracts:code:", 7 ∷ []) ∷ [] }

abbrev requests : List (ℕ × Hash)
requests = (5, Hash.default) ∷ (9, Hash.default) ∷ []

abbrev willing :
    CallArgs lists
    → ℕ
    → Database lists × Database lists
    → Called lists × ℕ × (Database lists × Database lists)
willing a m f = (record { burnt_wm_fuel = 5; result = ok (195 ∷ []); events = [] }, suc m, f)

abbrev answers_yes : UpdatableCodec
answers_yes = record { rmp_args = λ account current new. []; read_bool = λ bytes. some true }

abbrev service : Account
service = record (new_account "TRINCI" none) { contract = some Hash.default }

abbrev served : Database lists
served = record empty_database { accounts = ("TRINCI", service) ∷ [] }

abbrev from_service : CtxArgs lists
from_service = record { origin = "a"; owner = "b"; caller = "a" }

abbrev bound_database : Database lists
bound_database =
    store_account lists (record (new_account "b" none) { contract = some Hash.default }) served

no_account : (a : Account) → load_account lists served "b" ≡ some a → a.id ≡ "b"
unfolding load_account new_account
no_account a h = cc

checked :
    app_hash_check lists pairs answers_yes willing
      (some Hash.default)
      from_service
      9
      0
      (served, served)
    ≡ (ok Hash.default, 1, (bound_database, served))
unfolding app_hash_check check_account contract_updatable rebind load_account store_account
    new_account
checked = refl

app_hash_check-HoldsContract_example :
    HoldsContract lists pairs answers_yes willing bound_database "b" Hash.default
    × IsAllowed lists pairs answers_yes willing
        (some Hash.default)
        from_service
        9
        0
        (served, served)
        Hash.default
app_hash_check-HoldsContract_example =
    app_hash_check-HoldsContract lists pairs answers_yes willing (some Hash.default) from_service 9
      0 1 (served, served) (bound_database, served) Hash.default no_account checked

abbrev five_bytes : List ℕ
five_bytes = 1 ∷ 2 ∷ 3 ∷ 4 ∷ 5 ∷ []

two_read : bytes_at five_bytes 1 2 ≡ some (2 ∷ 3 ∷ [])
unfolding bytes_at sign_extended
two_read = refl

bytes_at_example : (1 + 2 ≤ length five_bytes) × ((2 ∷ 3 ∷ []) ≡ take 2 (drop 1 five_bytes))
bytes_at_example =
    bytes_at_lem five_bytes (2 ∷ 3 ∷ []) 1 2 (omega arith) (omega arith) (omega arith) two_read
