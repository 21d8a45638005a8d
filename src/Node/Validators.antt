-- ===== src/Node/Validators.antt =====
-- The players that the service account holds, as trinci-node/src/services/wasm_service.rs and db_service.rs
-- collect them. The second form of the data is that of the version T2: one key for each validator.
use Prim.Native.Char.{code}
use Prim.Native.String
use trinci.Base.{
  ℕ, Bool, true, false, ◌==◌, ℕ_eq, Option, none, some, List, [], ◌∷◌, map, String, if◌then◌else◌,
}
use trinci.Base.Outcome.{Outcome, returns, panics, expect, ◌>>=◌}
use trinci.Artifacts.Models.Players.{Players}
use trinci.Node.Identity.{Identity}
use trinci.Node.Database.{Database, Indexes, load_account_data, load_account_keys}

pub record Player : Type 0 where
  pub account_id : String
  pub units_in_stake : ℕ
  pub life_points : ℕ

pub data ValidatorDbValue : Type 0 where
  player : Player → ValidatorDbValue
  bool : Bool → ValidatorDbValue

-- `rmp_deserialize` of the ids and of the value of a validator.
pub record ValidatorsCodec : Type 0 where
  pub read_ids : List ℕ → Option (Option (List String))
  pub read_value : List ℕ → Option ValidatorDbValue

abbrev pub validators_key : String
validators_key = "blockchain:validators"

-- `strip_prefix`
unfoldable pub strip_prefix : String → String → Option String
strip_prefix String.[] s = some s
strip_prefix (String.◌∷◌ c prefix) String.[] = none
strip_prefix (String.◌∷◌ c prefix) (String.◌∷◌ d s) =
    if code c == code d then strip_prefix prefix s else none

-- The keys under the prefix of the validators, without it.
unfoldable pub validators_of : List String → List String
unfolding strip_prefix
validators_of [] = []
validators_of (key ∷ keys) =
    let rest = validators_of keys in
    elim (strip_prefix "blockchain:validators:" key) [ none ↦ rest | some id ↦ id ∷ rest ]

-- The player under an id: a `false` is unreachable.
unfoldable pub player_of : String → ValidatorDbValue → Outcome Player
player_of id (ValidatorDbValue.player p) = returns p
player_of id (ValidatorDbValue.bool true) =
    returns (record { account_id = id; units_in_stake = 1; life_points = 3 })
player_of id (ValidatorDbValue.bool false) = panics

module _ ⦃i : Identity⦄ (x : Indexes) (k : ValidatorsCodec) where
  unfoldable pub load_player : Database x → String → Outcome Player
  unfolding load_account_data expect player_of ◌>>=◌
  load_player db id = do
    bytes ←
        expect (load_account_data x db "TRINCI" (String.◌++◌ (String.◌++◌ validators_key ":") id))
    value ← expect (k.read_value bytes)
    player_of id value

  unfoldable pub load_players : Database x → List String → Outcome (List Player)
  unfolding load_player ◌>>=◌
  load_players db [] = returns []
  load_players db (id ∷ ids) = do p ← load_player db id; ps ← load_players db ids; returns (p ∷ ps)

  -- The ids under the key of the validators, where it is there.
  unfoldable pub load_ids : Database x → Outcome (Option (List String))
  unfolding load_account_data expect ◌>>=◌
  load_ids db = elim (load_account_data x db "TRINCI" validators_key) [
    | none ↦ returns none
    | some bytes ↦ expect (k.read_ids bytes)
  ]

  abbrev of_t2 : String → Player
  of_t2 id = record { account_id = id; units_in_stake = 1; life_points = 3 }

  -- The players for the requests, db_service.rs.
  unfoldable pub get_players : Database x → Outcome (List Player)
  unfolding load_ids load_players load_account_keys validators_of ◌>>=◌
  get_players db = do
    ids ← load_ids db
    elim ids [
      | some l ↦ load_players db l
      | none ↦ returns (map of_t2 (validators_of (load_account_keys x db "TRINCI")))
    ]

  -- The players for the next height, wasm_service.rs.
  unfoldable pub collect_players : Database x → Outcome Players
  unfolding load_ids load_players load_account_keys validators_of ◌>>=◌
  collect_players db = do
    ids ← load_ids db
    elim ids [
      | some l ↦ (do
        players ← load_players db l
        returns (record { players_ids = l; weights = map (λ p. p.units_in_stake) players }))
      | none ↦
          (let l = validators_of (load_account_keys x db "TRINCI") in
            returns (record { players_ids = l; weights = map (λ id. 1) l }))
    ]
