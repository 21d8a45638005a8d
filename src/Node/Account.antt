-- ===== src/Node/Account.antt =====
-- trinci-node/src/artifacts/models.rs: `Account`. The map of assets is an association list with one entry
-- for an asset.
use cubical.Cubical.Foundations.Prelude.{fun_ext}
use trinci.Base.{
  ap, ◌∙◌, ℕ, not, ◌≡◌, refl, List, [], ◌∷◌, ◌==◌, if◌then◌else◌, Option, none, String, String_eq,
  retain, arith,
}
use trinci.Crypto.Hash.{Hash}

pub record Account : Type 0 where
  pub id : String
  pub assets : List (String × List ℕ)
  pub contract : Option Hash
  pub data_hash : Option Hash

-- `Account::new`
unfoldable pub new_account : String → Option Hash → Account
new_account id contract = record { id = id; assets = []; contract = contract; data_hash = none }

abbrev pub insert : String → List ℕ → List (String × List ℕ) → List (String × List ℕ)
insert k v [] = (k, v) ∷ []
insert k v ((i, w) ∷ rest) = if i == k then (i, v) ∷ rest else (i, w) ∷ insert k v rest

-- The default of bytes is the empty sequence.
abbrev pub value_of : String → List (String × List ℕ) → List ℕ
value_of k [] = []
value_of k ((i, w) ∷ rest) = if i == k then w else value_of k rest

unfoldable pub load_asset : Account → String → List ℕ
load_asset a asset = value_of asset a.assets

unfoldable pub store_asset : String → List ℕ → Account → Account
store_asset asset value a = record a { assets = insert asset value a.assets }

unfoldable pub remove_asset : String → Account → Account
remove_asset asset a = record a { assets = retain (λ e. not (e.0 == asset)) a.assets }

pub value_of-insert :
    (k j : String) (v : List ℕ) (l : List (String × List ℕ))
    → value_of j (insert k v l) ≡ (if k == j then v else value_of j l)
value_of-insert k j v [] = refl
value_of-insert k j v ((i, w) ∷ rest) = ground (
  arith,
  value_of-insert k j v rest,
  String_eq.eq_iff i k,
  String_eq.eq_iff i j,
  String_eq.eq_iff k j,
)

pub value_of-retain :
    (k j : String) (l : List (String × List ℕ))
    → value_of j (retain (λ e. not (e.0 == k)) l) ≡ (if k == j then [] else value_of j l)
value_of-retain k j [] = ground arith
value_of-retain k j ((i, w) ∷ rest) = ground (
  arith,
  value_of-retain k j rest,
  String_eq.eq_iff i k,
  String_eq.eq_iff i j,
  String_eq.eq_iff k j,
)

-- The operations on the assets of an account.
pub data AssetOp : Type 0 where
  store : String → List ℕ → AssetOp
  remove : String → AssetOp

unfoldable pub apply_ops : List AssetOp → Account → Account
unfolding store_asset remove_asset
apply_ops [] a = a
apply_ops (store k v ∷ ops) a = apply_ops ops (store_asset k v a)
apply_ops (remove k ∷ ops) a = apply_ops ops (remove_asset k a)

-- The same operations on a function from assets to values, where a missing asset is empty.
unfoldable pub replay : List AssetOp → (String → List ℕ) → String → List ℕ
replay [] f = f
replay (store k v ∷ ops) f = replay ops (λ j. if k == j then v else f j)
replay (remove k ∷ ops) f = replay ops (λ j. if k == j then [] else f j)

-- After any stores and removals, an account reads at every asset as the function that was updated in the
-- same way, and its id, its contract and its data hash are as they were.
pub load_asset-apply_ops :
    (ops : List AssetOp) (a : Account)
    → (load_asset (apply_ops ops a) ≡ replay ops (load_asset a))
      × ((apply_ops ops a).id ≡ a.id)
      × ((apply_ops ops a).contract ≡ a.contract)
      × ((apply_ops ops a).data_hash ≡ a.data_hash)
unfolding load_asset apply_ops replay
load_asset-apply_ops [] a = (refl, refl, refl, refl)
load_asset-apply_ops (store k v ∷ ops) a =
    let read : load_asset (store_asset k v a) ≡ (λ j. if k == j then v else load_asset a j) =
      fun_ext (λ j. value_of-insert k j v a.assets) in
    let (same, id, contract, data_hash) = load_asset-apply_ops ops (store_asset k v a) in
    (same ∙ ap (replay ops) read, id, contract, data_hash)
load_asset-apply_ops (remove k ∷ ops) a =
    let read : load_asset (remove_asset k a) ≡ (λ j. if k == j then [] else load_asset a j) =
      fun_ext (λ j. value_of-retain k j a.assets) in
    let (same, id, contract, data_hash) = load_asset-apply_ops ops (remove_asset k a) in
    (same ∙ ap (replay ops) read, id, contract, data_hash)
