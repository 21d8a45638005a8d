-- ===== src/Node/Local/Served.antt =====
-- A run of requests to the cache of compiled modules.
use trinci.Base.{◌==◌, not, not, retain, ◌<◌, ◌⊎◌, All, ℕ, ◌≤◌, ◌≡◌, List, [], ◌∷◌, String, length}
use trinci.Base.Outcome.{Outcome, returns, ◌>>=◌}
use trinci.Base.Result.{Result}
use trinci.Crypto.Hash.{Hash, Hash_eq}
use trinci.Node.Identity.{Identity}
use trinci.Node.Database.{Database, Indexes}
use trinci.Node.Errors.{WasmError}
use trinci.Node.Local.{evict, CachedModule, Compiler, WmLocal, get_module}

module _ (w : Compiler) where
  abbrev pub IsListed : Hash × CachedModule w → List (Hash × CachedModule w) → Type 0
  IsListed p [] = ⊥
  IsListed p (q ∷ l) = (p ≡ q) ⊎ IsListed p l

  abbrev NoLater : Hash × CachedModule w → List (Hash × CachedModule w) → Type 0
  NoLater p l = All (λ q. p.1.last_used ≤ q.1.last_used) l

  -- A cache up to its maximum stays; from a larger one a module goes that was used no later than any other.
  abbrev pub EvictsOldest : WmLocal w → Type 0
  EvictsOldest m =
      ((length m.cache ≤ m.cache_max) × (evict w m ≡ returns m))
      ⊎ ((p : Hash × CachedModule w) × (m.cache_max < length m.cache)
          × IsListed p m.cache
          × NoLater p m.cache
          × (evict w m ≡ returns (record m { cache = retain (λ q. not (q.0 == p.0)) m.cache })))

module _ (w : Compiler) ⦃i : Identity⦄ (x : Indexes) (hex : Hash → String) (db : Database x) where
  -- The requests of a run, each with the clock.
  unfoldable pub serve :
      List (ℕ × Hash) → WmLocal w → Outcome (List (Result WasmError w.Module) × WmLocal w)
  unfolding get_module ◌>>=◌
  serve [] m = returns ([], m)
  serve ((now, target) ∷ rest) m = do
    first ← get_module w x hex now db target m
    later ← serve rest first.1
    returns (first.0 ∷ later.0, later.1)
