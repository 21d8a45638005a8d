-- ===== src/Artifacts/Models/Players.antt =====
-- trinci-core-new/src/artifacts/models.rs: `Players`, the account ids of the players with their weights
-- in two vectors that run in step.
pub mod Weighted
use trinci.Base.{
  ℕ, zero, suc, ◌+◌, List, [], ◌∷◌, ◌++◌, String, Option, none, some, String_eq, ◌==◌, contains,
  if◌then◌else◌, get_elem?, replicate,
}
use trinci.Base.Outcome.{Outcome, returns, panics, ◌>>=◌, expect}

pub record Players : Type 0 where
  pub players_ids : List String
  pub weights : List ℕ

-- `iter().position(|id| id.eq(id_to_find))`
pub position : String → List String → Option ℕ
position id_to_find [] = none
position id_to_find (id ∷ ids) =
    if id == id_to_find
    then some 0
    else elim (position id_to_find ids) [ none ↦ none | some i ↦ some (suc i) ]

-- Indexing panics out of range.
pub get_player_by_id : Players → String → Outcome (Option (String × ℕ))
unfolding position
get_player_by_id p id_to_find = elim (position id_to_find p.players_ids) [
  | none ↦ returns none
  | some i ↦ (do
    id ← expect (get_elem? p.players_ids i)
    weight ← expect (get_elem? p.weights i)
    returns (some (id, weight)))
]

-- The loop over the zipped vectors; each round pushes the id `weight` times.
pub repeat_ids : List String → List ℕ → List String
repeat_ids [] weights = []
repeat_ids (id ∷ ids) [] = []
repeat_ids (id ∷ ids) (weight ∷ weights) = replicate weight id ++ repeat_ids ids weights

pub get_weighted_player_ids : Players → List String
unfolding repeat_ids
get_weighted_player_ids p = repeat_ids p.players_ids p.weights

pub push_player : Players → String → ℕ → Players
push_player p id weight =
    if contains p.players_ids id
    then p
    else record { players_ids = p.players_ids ++ id ∷ []; weights = p.weights ++ weight ∷ [] }

-- `weights.iter().sum()`
abbrev pub sum : List ℕ → ℕ
sum [] = 0
sum (w ∷ ws) = w + sum ws
