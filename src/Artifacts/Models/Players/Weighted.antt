-- ===== src/Artifacts/Models/Players/Weighted.antt =====
-- The weighted list from which a leader is drawn, and the lookup of a player.
use trinci.Base.{
  eq_refl, ◌||◌, ◌<◌, true, ℕ, zero, suc, ◌+◌, ◌≡◌, refl, List, [], ◌∷◌, ◌++◌, String, false,
  String_eq, ◌==◌, contains, if◌then◌else◌, replicate, length, length-append, length-replicate,
  arith, Bool-cases, inl, inr,
}
use trinci.Base.{some, none, get_elem?}
use trinci.Base.Outcome.{◌>>=◌, returns}
use trinci.Artifacts.Models.Players.{
  push_player, position, get_player_by_id, Players, repeat_ids, get_weighted_player_ids, sum,
}

-- The vectors run in step, and no id is listed twice.
abbrev pub IsDistinct : List String → Type 0
IsDistinct [] = Unit
IsDistinct (id ∷ ids) = (contains ids id ≡ false) × IsDistinct ids

pub record IsValid (p : Players) : Type 0 where
  pub in_step : length p.players_ids ≡ length p.weights
  pub distinct : IsDistinct p.players_ids

-- How often `id` stands in a list.
abbrev pub count : String → List String → ℕ
count id [] = 0
count id (x ∷ xs) = if x == id then suc (count id xs) else count id xs

-- The weight of `id`: that of its first place, 0 where it is no player.
abbrev pub weight_of : String → List String → List ℕ → ℕ
weight_of id [] ws = 0
weight_of id (x ∷ xs) [] = 0
weight_of id (x ∷ xs) (w ∷ ws) = if x == id then w else weight_of id xs ws

length-repeat_ids :
    (ids : List String) (ws : List ℕ) → length ids ≡ length ws → length (repeat_ids ids ws) ≡ sum ws
unfolding repeat_ids
length-repeat_ids [] [] h = refl
length-repeat_ids [] (w ∷ ws) h = cc
length-repeat_ids (id ∷ ids) [] h = cc
length-repeat_ids (id ∷ ids) (w ∷ ws) h = omega (
  arith,
  length-append (replicate w id) (repeat_ids ids ws),
  length-replicate w id,
  length-repeat_ids ids ws (omega arith),
)

count-append : (id : String) (xs ys : List String) → count id (xs ++ ys) ≡ count id xs + count id ys
count-append id [] ys = omega arith
count-append id (x ∷ xs) ys = ground (arith, count-append id xs ys)

count-replicate : (id x : String) (n : ℕ) → count id (replicate n x) ≡ (if x == id then n else 0)
count-replicate id x zero = ground arith
count-replicate id x (suc n) = ground (arith, count-replicate id x n)

count-absent :
    (id : String) (ids : List String) (ws : List ℕ)
    → contains ids id ≡ false
    → count id (repeat_ids ids ws) ≡ 0
unfolding repeat_ids
count-absent id [] ws h = refl
count-absent id (x ∷ xs) [] h = refl
count-absent id (x ∷ xs) (w ∷ ws) h = ground (
  arith,
  count-append id (replicate w x) (repeat_ids xs ws),
  count-replicate id x w,
  count-absent id xs ws,
)

count-repeat_ids :
    (id : String) (ids : List String) (ws : List ℕ)
    → IsDistinct ids
    → count id (repeat_ids ids ws) ≡ weight_of id ids ws
unfolding repeat_ids
count-repeat_ids id [] ws h = refl
count-repeat_ids id (x ∷ xs) [] h = refl
count-repeat_ids id (x ∷ xs) (w ∷ ws) h = elim (Bool-cases (x == id)) [
  | inl same ↦ ground (
    arith,
    count-append id (replicate w x) (repeat_ids xs ws),
    count-replicate id x w,
    count-absent id xs ws,
    String_eq.eq_iff x id,
  )
  | inr other ↦ ground (
    arith,
    count-append id (replicate w x) (repeat_ids xs ws),
    count-replicate id x w,
    count-repeat_ids id xs ws h.1,
  )
]

-- With distinct ids in step with their weights, the weighted list has as many entries as the weights
-- add up to, and holds each id exactly as often as its weight says.
pub get_weighted_player_ids_lem :
    (p : Players)
    → IsValid p
    → (length (get_weighted_player_ids p) ≡ sum p.weights)
      × ((id : String)
          → count id (get_weighted_player_ids p) ≡ weight_of id p.players_ids p.weights)
unfolding get_weighted_player_ids
get_weighted_player_ids_lem p v = (
  length-repeat_ids p.players_ids p.weights v.in_step,
  λ id. count-repeat_ids id p.players_ids p.weights v.distinct,
)

contains-append :
    (xs ys : List String) (id : String)
    → contains (xs ++ ys) id ≡ (contains xs id || contains ys id)
contains-append [] ys id = refl
contains-append (x ∷ xs) ys id = ground (arith, contains-append xs ys id)

push-IsDistinct :
    (ids : List String) (id : String)
    → IsDistinct ids
    → contains ids id ≡ false
    → IsDistinct (ids ++ id ∷ [])
push-IsDistinct [] id d h = (refl, tt)
push-IsDistinct (x ∷ xs) id d h = (
  ground (arith, contains-append xs (id ∷ []) x, String_eq.eq_iff id x, String_eq.eq_iff x id),
  push-IsDistinct xs id d.1 (ground arith),
)

-- `push_player` keeps the vectors in step and the ids distinct.
pub push_player-IsValid :
    (p : Players) (id : String) (w : ℕ) → IsValid p → IsValid (push_player p id w)
unfolding push_player
push_player-IsValid p id w v = elim (Bool-cases (contains p.players_ids id)) [
  | inl old ↦ rw old v
  | inr new ↦ rw new (record {
    in_step =
        omega (
          arith,
          length-append p.players_ids (id ∷ []),
          length-append p.weights (w ∷ []),
          v.in_step,
        );
    distinct = push-IsDistinct p.players_ids id v.distinct new;
  })
]

get_elem?-weighted :
    (ids : List String) (ws : List ℕ) (i : ℕ)
    → i < length ids
    → (x : String) × (get_elem? ids i ≡ some x) × (contains ids x ≡ true)
get_elem?-weighted [] ws i h = elim h [ ]
get_elem?-weighted (x ∷ xs) ws zero h = (x, refl, rw (eq_refl x))
get_elem?-weighted (x ∷ xs) ws (suc i) h =
    let (y, at, known) = get_elem?-weighted xs ws i (omega arith) in (y, at, ground arith)

contains-replicate : (n : ℕ) (x id : String) → contains (replicate n x) id ≡ true → x ≡ id
contains-replicate zero x id h = cc
contains-replicate (suc n) x id h = ground (arith, contains-replicate n x id, String_eq.eq_iff x id)

contains-repeat_ids :
    (ids : List String) (ws : List ℕ) (id : String)
    → contains (repeat_ids ids ws) id ≡ true
    → contains ids id ≡ true
unfolding repeat_ids
contains-repeat_ids [] ws id h = h
contains-repeat_ids (x ∷ xs) [] id h = cc
contains-repeat_ids (x ∷ xs) (w ∷ ws) id h = ground (
  arith,
  contains-append (replicate w x) (repeat_ids xs ws) id,
  contains-replicate w x id,
  contains-repeat_ids xs ws id,
  String_eq.eq_iff x id,
)

-- With distinct ids in step with their weights, every index below the total weight draws a player:
-- the weighted list has an entry there, and it is the id of a player.
pub draw_in_range :
    (p : Players) (i : ℕ)
    → IsValid p
    → i < sum p.weights
    → (id : String) × (get_elem? (get_weighted_player_ids p) i ≡ some id)
      × (contains p.players_ids id ≡ true)
unfolding get_weighted_player_ids
draw_in_range p i v h =
    let (id, at, there) =
      get_elem?-weighted (repeat_ids p.players_ids p.weights) p.weights i
        (omega (arith, length-repeat_ids p.players_ids p.weights v.in_step)) in
    (id, at, contains-repeat_ids p.players_ids p.weights id there)

lookup_at :
    (id : String) (ids : List String) (ws : List ℕ)
    → length ids ≡ length ws
    → contains ids id ≡ true
    → (i : ℕ) × (position id ids ≡ some i)
      × (get_elem? ids i ≡ some id)
      × (get_elem? ws i ≡ some (weight_of id ids ws))
unfolding position
lookup_at id [] ws h k = cc
lookup_at id (x ∷ xs) [] h k = cc
lookup_at id (x ∷ xs) (w ∷ ws) h k = elim (Bool-cases (x == id)) [
  | inl same ↦ (0, rw same, ground (arith, String_eq.eq_iff x id), rw same)
  | inr other ↦
      let (i, at, ids_at, ws_at) = lookup_at id xs ws (omega arith) (ground arith) in
      (suc i, rw other (rw at), ids_at, rw other ws_at)
]

position-absent :
    (id : String) (ids : List String) → contains ids id ≡ false → position id ids ≡ none
unfolding position
position-absent id [] h = refl
position-absent id (x ∷ xs) h = ground (arith, position-absent id xs)

-- With distinct ids in step with their weights, `get_player_by_id` never panics: it finds exactly
-- the ids of players, with their weights.
pub get_player_by_id_lem :
    (p : Players) (id : String)
    → IsValid p
    → get_player_by_id p id
      ≡ returns (
          if contains p.players_ids id
          then some (id, weight_of id p.players_ids p.weights)
          else none)
unfolding get_player_by_id ◌>>=◌
get_player_by_id_lem p id v = elim (Bool-cases (contains p.players_ids id)) [
  | inl known ↦
      let (i, at, ids_at, ws_at) = lookup_at id p.players_ids p.weights v.in_step known in
      ground arith
  | inr unknown ↦ ground (arith, position-absent id p.players_ids)
]
