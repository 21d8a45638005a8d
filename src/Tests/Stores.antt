-- ===== src/Tests/Stores.antt =====
-- The database over association lists and lists, empty, and a first block in it.
use trinci.Base.{
  min, map, ◌≤◌, ◌<◌, ◌≡◌, refl, Option, none, some, List, [], ◌∷◌, ◌++◌, ◌==◌, if◌then◌else◌,
  PartialEq, arith, retain, not,
}
use trinci.Crypto.Hash
use trinci.Crypto.Hash.{Hash}
use trinci.Node.Database.{load_account, Database, Indexes}
use trinci.Node.Models.{new_block}
use trinci.Node.Stored.{load_full_block-stored, store_executed}
use trinci.Node.Transactions.{Transaction}
use trinci.Tests.Nodes.{codec, payload, plain}
use trinci.Node.Storage.{load_full_block}
use trinci.Node.Account.{Account}
use trinci.Node.Fuel.{trinci_asset, bitbell_to_wm_fuel, wm_fuel_to_bitbell, calculate_wm_fuel_limit}
use trinci.Node.Priced.{calculate_wm_fuel_limit-le, saturation_price}

module _ {K V : Type 0} ⦃e : PartialEq K⦄ where
  abbrev pub find_entry : List (K × V) → K → Option V
  find_entry [] j = none
  find_entry ((k, v) ∷ rest) j = if k == j then some v else find_entry rest j

abbrev pub lists : Indexes
lists = record {
  Map = λ K V. List (K × V);
  Vec = λ V. List V;
  get = λ {K} {V} ⦃e⦄ m j. find_entry ⦃e = e⦄ m j;
  put = λ {K} {V} ⦃e⦄ k v m. (k, v) ∷ m;
  remove = λ {K} {V} ⦃e⦄ k m. retain (λ p. not (e.eq p.0 k)) m;
  keys = λ {K} {V} ⦃e⦄ m. map (λ p. p.0) m;
  entries = λ {V} l. l;
  push = λ {V} v l. l ++ v ∷ [];
  get-put = λ {K} {V} ⦃e⦄ k j v m. refl;
  entries-push = λ {V} v l. refl;
}

abbrev pub empty_database : Database lists
empty_database = record {
  accounts = [];
  account_data = λ id. [];
  attachments = [];
  blocks = [];
  config = [];
  confirmations = [];
  internal_db = [];
  receipts = [];
  receipts_hash = λ h. [];
  transactions = [];
  transactions_hash = λ h. [];
}

abbrev first_tx : Hash × Transaction
first_tx = (Hash.default, Transaction.unit_transaction payload (1 ∷ []))

load_full_block-stored_example :
    load_full_block lists codec
      (store_executed lists codec
        (new_block 9 "a" [] 0 Hash.default)
        []
        (first_tx ∷ [])
        empty_database)
      (new_block 9 "a" [] 0 Hash.default).content.height
    ≡ some (new_block 9 "a" [] 0 Hash.default, [], first_tx.1 ∷ [])
unfolding new_block
load_full_block-stored_example =
    load_full_block-stored lists codec (new_block 9 "a" [] 0 Hash.default) [] first_tx []
      empty_database (tt, tt) refl refl refl (omega arith)

abbrev rich : Account
rich = record { id = "a"; assets = ("TRINCI", 9 ∷ []) ∷ []; contract = none; data_hash = none }

abbrev rich_database : Database lists
rich_database = record empty_database { accounts = ("a", rich) ∷ [] }

rich_asset : trinci_asset (load_account lists rich_database "a") ≡ some (9 ∷ [])
unfolding load_account
rich_asset = refl

some_fuel : 400000 ≤ calculate_wm_fuel_limit lists (λ bytes. 5000) "a" rich_database 30000 2000
unfolding calculate_wm_fuel_limit
some_fuel = omega arith

calculate_wm_fuel_limit-le_example : wm_fuel_to_bitbell 400000 ≤ min 2000 5000
calculate_wm_fuel_limit-le_example =
    calculate_wm_fuel_limit-le lists (λ bytes. 5000) "a" rich_database 30000 2000 400000 (9 ∷ [])
      (omega arith) rich_asset (omega arith) (omega arith) some_fuel

saturation_price_example :
    (95000000000 < wm_fuel_to_bitbell 100001000)
    × (wm_fuel_to_bitbell (bitbell_to_wm_fuel 4691000) ≡ 4691000)
saturation_price_example = saturation_price 100001000 (omega arith) (omega arith)
