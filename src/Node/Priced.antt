-- ===== src/Node/Priced.antt =====
-- The prices of fuel, range by range, against the limits that a transaction is given.
use trinci.Base.{
  ◌⊎◌, inr, leb→le, inl, ◌∙◌, leb, ap, Bool-cases, ℕ, ◌+◌, ◌-◌, ◌*◌, ◌/◌, ◌≤◌, ◌<◌, ◌≡◌, some, List,
  String, min, arith, lt→ltb,
}
use trinci.Node.Database.{Database, Indexes, load_account}
use trinci.Node.Identity.{Identity}
use trinci.Node.Fuel.{
  activate_fuel_consumption, bitbell_to_wm_fuel, calculate_wm_fuel_limit, trinci_asset,
  wm_fuel_to_bitbell,
}

bitbell_slow : (b : ℕ) → 1000 ≤ b → b ≤ 191000 → bitbell_to_wm_fuel b ≡ 50 * b + 450000
unfolding bitbell_to_wm_fuel
bitbell_slow b h k = ground arith

bitbell_fast : (b : ℕ) → 191000 < b → b ≤ 4691000 → bitbell_to_wm_fuel b ≡ 20 * b + 6180000
unfolding bitbell_to_wm_fuel
bitbell_fast b h k = ground arith

fuel_base : (x : ℕ) → x ≤ 500000 → wm_fuel_to_bitbell x ≡ 1000
unfolding wm_fuel_to_bitbell
fuel_base x h = ground arith

fuel_slow : (x : ℕ) → 500000 < x → x ≤ 10000000 → wm_fuel_to_bitbell x ≡ x * 2 / 100 - 9000
unfolding wm_fuel_to_bitbell
fuel_slow x h k = ground arith

fuel_fast : (x : ℕ) → 10000000 < x → x ≤ 100000000 → wm_fuel_to_bitbell x ≡ x * 5 / 100 - 309000
unfolding wm_fuel_to_bitbell
fuel_fast x h k = ground arith

fuel_saturation :
    (x : ℕ) → 100000000 < x → x ≤ 1000000000 → wm_fuel_to_bitbell x ≡ x * 1000 - 4591000000
unfolding wm_fuel_to_bitbell
fuel_saturation x h k = ground arith

-- From 100,000,001 units of fuel on, up to the greatest limit, the price is above 95 billion, while all
-- the fuel that 4,691,000 pay for costs that much.
pub saturation_price :
    (x : ℕ)
    → 100000000 < x
    → x ≤ 1000000000
    → (95000000000 < wm_fuel_to_bitbell x)
      × (wm_fuel_to_bitbell (bitbell_to_wm_fuel 4691000) ≡ 4691000)
saturation_price x h k = (
  omega (arith, fuel_saturation x h k),
  ap wm_fuel_to_bitbell (bitbell_fast 4691000 (omega arith) (omega arith))
      ∙ fuel_fast 100000000 (omega arith) (omega arith),
)

-- The price is the 1,000 of the base range, or read off one of the two lines.
price_cases :
    (x : ℕ)
    → x ≤ 100000000
    → (wm_fuel_to_bitbell x ≡ 1000)
      ⊎ (((x ≤ 10000000) × (wm_fuel_to_bitbell x ≡ x * 2 / 100 - 9000))
          ⊎ ((10000000 < x) × (wm_fuel_to_bitbell x ≡ x * 5 / 100 - 309000)))
price_cases x h = elim (Bool-cases (leb x 500000)) [
  | inl base ↦ inl (fuel_base x (leb→le x 500000 base))
  | inr more ↦ elim (Bool-cases (leb x 10000000)) [
    | inl slow ↦
        let below = leb→le x 10000000 slow in inr (inl (below, fuel_slow x (ground arith) below))
    | inr fast ↦ let above : 10000000 < x = ground arith in inr (inr (above, fuel_fast x above h))
  ]
]

price_within :
    (b x : ℕ) → 1000 ≤ b → b ≤ 4691000 → x ≤ bitbell_to_wm_fuel b → wm_fuel_to_bitbell x ≤ b
price_within b x low high h = elim (Bool-cases (leb b 191000)) [
  | inl small ↦
      let e = bitbell_slow b low (leb→le b 191000 small) in
      let less : b ≤ 191000 = leb→le b 191000 small in
      elim (price_cases x (omega (arith, e, h))) [
        | inl base ↦ omega (arith, base)
        | inr (inl slow) ↦ omega (arith, slow.1, e, h)
        | inr (inr fast) ↦ absurd (omega (arith, fast.0, e, h))
      ]
  | inr large ↦
      let above : 191000 < b = ground arith in
      let e = bitbell_fast b above high in
      elim (price_cases x (omega (arith, e, h))) [
        | inl base ↦ omega (arith, base)
        | inr (inl slow) ↦ omega (arith, slow.0, slow.1)
        | inr (inr fast) ↦ omega (arith, fast.1, e, h)
      ]
]

module _ ⦃i : Identity⦄ (db : Indexes) (units_of : List ℕ → ℕ) where
  -- Above the height that activates the consumption of fuel, where the account of the caller has an asset
  -- in TRINCI, and the lesser of its units and the fuel limit of the transaction is between 1,000 and
  -- 4,691,000, no fuel within the limit of the machine costs more than that.
  pub calculate_wm_fuel_limit-le :
      (caller : String) (fork : Database db) (height limit fuel : ℕ) (assets : List ℕ)
      → activate_fuel_consumption < height
      → trinci_asset (load_account db fork caller) ≡ some assets
      → 1000 ≤ min limit (units_of assets)
      → min limit (units_of assets) ≤ 4691000
      → fuel ≤ calculate_wm_fuel_limit db units_of caller fork height limit
      → wm_fuel_to_bitbell fuel ≤ min limit (units_of assets)
  unfolding calculate_wm_fuel_limit
  calculate_wm_fuel_limit-le caller fork height limit fuel assets active there low high h =
      price_within (min limit (units_of assets)) fuel low high (
        let within = rw (lt→ltb activate_fuel_consumption height active, there) at h in omega arith)
