-- ===== src/Node/Fuel.antt =====
-- trinci-node/src/utils.rs and consts.rs: what fuel costs. An `i64` is the `u64` with the same bits, as the
-- casts of the code make it, and its operations wrap as in a release build.
use trinci.Base.{
  ◌==◌, ◌∷◌, [], min, some, none, List, String, Option, ℕ, ◌-◌, ◌*◌, ◌/◌, ◌%◌, ◌^◌, if◌then◌else◌,
  ltb, leb, String_eq,
}
use trinci.Base.Words.{u64_mod, wrapping_add, wrapping_sub}
use trinci.Node.Identity.{Identity}
use trinci.Node.Account.{Account}
use trinci.Node.Database.{Database, load_account, Indexes}

abbrev pub wrapping_mul : ℕ → ℕ → ℕ
wrapping_mul a b = a * b % u64_mod

-- Signed division by a positive number, which rounds to zero.
abbrev pub i64_div : ℕ → ℕ → ℕ
i64_div a d = if ltb a (2 ^ 63) then a / d else (u64_mod - (u64_mod - a) / d) % u64_mod

abbrev minus : ℕ → ℕ
minus n = u64_mod - n

-- A slope is a numerator and a denominator.
abbrev slow_growth_range_slope : ℕ × ℕ
slow_growth_range_slope = (2, 100)

abbrev fast_growth_range_slope : ℕ × ℕ
fast_growth_range_slope = (5, 100)

abbrev saturation_range_slope : ℕ × ℕ
saturation_range_slope = (1, 1000)

abbrev slow_growth_range_intercept : ℕ
slow_growth_range_intercept = minus 9000

abbrev fast_growth_range_intercept : ℕ
fast_growth_range_intercept = minus 309000

abbrev saturation_range_intercept : ℕ
saturation_range_intercept = 4591000

abbrev pub max_wm_fuel : ℕ
max_wm_fuel = 1000000000

abbrev pub activate_fuel_consumption : ℕ
activate_fuel_consumption = 20000

abbrev pub retrieve_x : ℕ → ℕ × ℕ → ℕ → ℕ
retrieve_x y m q =
    wrapping_sub (i64_div (wrapping_mul y m.1) m.0) (i64_div (wrapping_mul q m.1) m.0)

abbrev pub retrieve_y : ℕ → ℕ × ℕ → ℕ → ℕ
retrieve_y x m q = wrapping_add (i64_div (wrapping_mul x m.0) m.1) q

unfoldable pub bitbell_to_wm_fuel : ℕ → ℕ
unfolding wrapping_sub
bitbell_to_wm_fuel bitbell =
    if leb bitbell 999
    then 0
    else if leb bitbell 191000
    then retrieve_x bitbell slow_growth_range_slope slow_growth_range_intercept
    else if leb bitbell 4691000
    then retrieve_x bitbell fast_growth_range_slope fast_growth_range_intercept
    else retrieve_x bitbell saturation_range_slope saturation_range_intercept

-- The last range calls `retrieve_x` in the code too.
unfoldable pub wm_fuel_to_bitbell : ℕ → ℕ
unfolding wrapping_sub wrapping_add
wm_fuel_to_bitbell burnt_wm_fuel =
    if leb burnt_wm_fuel 500000
    then 1000
    else if leb burnt_wm_fuel 10000000
    then retrieve_y burnt_wm_fuel slow_growth_range_slope slow_growth_range_intercept
    else if leb burnt_wm_fuel 100000000
    then retrieve_y burnt_wm_fuel fast_growth_range_slope fast_growth_range_intercept
    else retrieve_x burnt_wm_fuel saturation_range_slope saturation_range_intercept

abbrev asset_of : String → List (String × List ℕ) → Option (List ℕ)
asset_of k [] = none
asset_of k ((i, w) ∷ rest) = if i == k then some w else asset_of k rest

abbrev pub trinci_asset : Option Account → Option (List ℕ)
trinci_asset none = none
trinci_asset (some account) = asset_of "TRINCI" account.assets

module _ ⦃i : Identity⦄ (x : Indexes) (units_of : List ℕ → ℕ) where
  -- `units_of` is `rmp_deserialize` with the default 0 for bytes that it does not read.
  abbrev pub limit_for : ℕ → Option (List ℕ) → ℕ
  limit_for tx_fuel_limit none = 0
  limit_for tx_fuel_limit (some assets) =
      min (bitbell_to_wm_fuel (min tx_fuel_limit (units_of assets))) max_wm_fuel

  unfoldable pub calculate_wm_fuel_limit : String → Database x → ℕ → ℕ → ℕ
  unfolding load_account bitbell_to_wm_fuel
  calculate_wm_fuel_limit caller_account_id fork height tx_fuel_limit =
      if ltb activate_fuel_consumption height
      then limit_for tx_fuel_limit (trinci_asset (load_account x fork caller_account_id))
      else max_wm_fuel
