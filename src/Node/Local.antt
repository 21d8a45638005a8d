-- ===== src/Node/Local.antt =====
-- trinci-node/src/services/wm/local.rs: the slices that pass between a contract and the host, and the cache of
-- compiled modules of `WmLocal`. The modules and `Module::new` of the crate wasmtime are parameters.
pub mod Slices
pub mod Cached
pub mod Served
use Prim.Native.String
use trinci.Base.{
  ℕ, ◌+◌, ◌-◌, ◌*◌, ◌/◌, ◌%◌, ◌^◌, not, ◌==◌, ltb, Option, none, some, List, [], ◌∷◌, map, String,
  if◌then◌else◌, find, is_some, length, retain,
}
use trinci.Base.Outcome.{Outcome, expect, returns, ◌>>=◌}
use trinci.Base.Result.{Result, err, ok}
use trinci.Crypto.Hash.{Hash, Hash_eq}
use trinci.Node.Identity.{Identity}
use trinci.Node.Database.{Database, Indexes, load_account_data}
use trinci.Node.Errors.{WasmError}

-- An `i32` is its bits, a number below 2 ^ 32; `as u64` extends the sign.
unfoldable pub sign_extended : ℕ → ℕ
sign_extended a = if ltb a (2 ^ 31) then a else a + (2 ^ 64 - 2 ^ 32)

-- `|` of a multiple of 2 ^ 32 and a number below it is the sum.
unfoldable pub wslice_create : ℕ → ℕ → ℕ
unfolding sign_extended
wslice_create offset length =
    (sign_extended offset * 2 ^ 32) % 2 ^ 64 + sign_extended length % 2 ^ 32

unfoldable pub wslice_split : ℕ → ℕ × ℕ
wslice_split wslice = ((wslice / 2 ^ 32) % 2 ^ 32, wslice % 2 ^ 32)

-- `compile` is `Module::new`, with the text of its error.
pub record Compiler : Type 1 where
  pub Module : Type 0
  pub compile : List ℕ → Result String Module

module _ (w : Compiler) where
  pub record CachedModule : Type 0 where
    pub module_ : w.Module
    pub last_used : ℕ

  pub record WmLocal : Type 0 where
    pub cache : List (Hash × CachedModule)
    pub cache_max : ℕ

  unfoldable pub new_local : ℕ → WmLocal
  new_local cache_max = record { cache = []; cache_max = cache_max }

  -- The entry that was used least recently, from `older` on.
  unfoldable pub oldest : Hash × CachedModule → List (Hash × CachedModule) → Hash × CachedModule
  oldest older [] = older
  oldest older (curr ∷ iter) =
      oldest (if ltb curr.1.last_used older.1.last_used then curr else older) iter

  -- An empty cache is never over its maximum: there the code would panic.
  unfoldable pub evict : WmLocal → Outcome WmLocal
  unfolding oldest
  evict m =
      if ltb m.cache_max (length m.cache)
      then elim m.cache [
        | [] ↦ Outcome.panics
        | first ∷ iter ↦
            (let older = oldest first iter in
              returns (record m { cache = retain (λ p. not (p.0 == older.0)) (first ∷ iter) }))
      ]
      else returns m

  unfoldable pub insert_module : Hash → CachedModule → WmLocal → WmLocal
  insert_module target entry m = record m {
    cache = (target, entry) ∷ retain (λ p. not (p.0 == target)) m.cache;
  }

  -- `last_used` of the entry is set to the clock.
  unfoldable pub touch : ℕ → Hash → WmLocal → WmLocal
  touch now target m = record m {
    cache = map (λ p. if p.0 == target then (p.0, record p.1 { last_used = now }) else p) m.cache;
  }

  module _ ⦃i : Identity⦄ (x : Indexes) (hex : Hash → String) where
    -- The code of a contract, compiled.
    unfoldable pub fetch : Database x → Hash → Result WasmError w.Module
    unfolding load_account_data
    fetch db target =
        elim (load_account_data x db "TRINCI" (String.◌++◌ "contracts:code:" (hex target))) [
          | none ↦ err (WasmError.resource_not_found "smart contract not found")
          | some wasm_bin ↦ elim (w.compile wasm_bin) [
            | ok m ↦ ok m
            | err text ↦ err (WasmError.resource_not_found text)
          ]
        ]

    unfoldable pub load_module :
        Database x → Hash → WmLocal → Outcome (Result WasmError Unit × WmLocal)
    unfolding evict fetch insert_module ◌>>=◌
    load_module db target m = do
      room ← evict m
      elim (fetch db target) [
        | ok code ↦
            returns (ok tt, insert_module target (record { module_ = code; last_used = 0 }) room)
        | err error ↦ returns (err error, room)
      ]

    -- The module in the cache, which is used now.
    unfoldable pub take_module : ℕ → Hash → WmLocal → Outcome (Result WasmError w.Module × WmLocal)
    unfolding touch expect ◌>>=◌
    take_module now target m = do
      entry ← expect (find (λ p. p.0 == target) m.cache)
      returns (ok entry.1.module_, touch now target m)

    -- `now` is the clock.
    unfoldable pub get_module :
        ℕ → Database x → Hash → WmLocal → Outcome (Result WasmError w.Module × WmLocal)
    unfolding load_module take_module ◌>>=◌
    get_module now db target m =
        if is_some (find (λ p. p.0 == target) m.cache) then take_module now target m else (do
          loaded ← load_module db target m
          elim loaded.0 [
            | ok done ↦ take_module now target loaded.1
            | err error ↦ returns (err error, loaded.1)
          ])
