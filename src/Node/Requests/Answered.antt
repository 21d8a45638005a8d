-- ===== src/Node/Requests/Answered.antt =====
-- The responses of `DBService` that matter to the core: confirmations, transactions, players.
use trinci.Base.{
  ℕ, Bool, true, false, ◌≡◌, refl, ap, ◌∙◌, ◌⊎◌, inl, inr, ◌↔◌, ◌==◌, Option, none, some, List, [],
  ◌∷◌, map, String, arith, Option-cases, Bool-cases,
}
use trinci.Base.Outcome.{Outcome, returns, panics, ◌>>=◌}
use trinci.Artifacts.Models.Players.{Players}
use trinci.Crypto.Hash.{Hash, Hash_eq}
use trinci.Node.Identity.{Identity}
use trinci.Node.Comm.{DbReq, DbRes}
use trinci.Node.Models.{Block, Codec, get_block_hash}
use trinci.Node.Database.{Database, Indexes, load_block, load_transactions_hashes}
use trinci.Node.Transactions.{DataCodec, Transaction}
use trinci.Node.Validators.{load_player, Player, ValidatorsCodec, collect_players, get_players}
use trinci.Node.Requests.{RequestsCodec, confirmations_of, handle_requests}

module _ ⦃i : Identity⦄ (x : Indexes) (k : DataCodec) (b : Codec) (r : RequestsCodec) where
  -- The block is sent where it is asked for or its hash is another.
  abbrev pub IsWanted : Block → Hash → Bool → Type 0
  IsWanted block hash ask = (ask ≡ true) ⊎ ((get_block_hash b block == hash) ≡ false)

  -- The request panics.
  abbrev pub Fails : Database x → ℕ → Hash → Bool → Type 0
  Fails db height hash ask =
      (block : Block) × (load_block x db height ≡ some block)
      × (load_transactions_hashes x db height ≡ none)
      × IsWanted block hash ask

  fails_when :
      (db : Database x) (height : ℕ) (hash : Hash) (ask : Bool) (block : Block)
      → load_transactions_hashes x db height ≡ none
      → IsWanted block hash ask
      → confirmations_of x k b r db height hash ask (some block) ≡ panics
  unfolding confirmations_of
  fails_when db height hash ask block empty wanted = ground arith

  only_fails_when :
      (db : Database x) (height : ℕ) (hash : Hash) (ask : Bool) (o : Option Block)
      → confirmations_of x k b r db height hash ask o ≡ panics
      → (block : Block) × (o ≡ some block)
        × (load_transactions_hashes x db height ≡ none)
        × IsWanted block hash ask
  unfolding confirmations_of
  only_fails_when db height hash ask none h = cc
  only_fails_when db height hash ask (some block) h =
      elim (Option-cases (load_transactions_hashes x db height)) [
        | inr (l, there) ↦ absurd (ground arith)
        | inl empty ↦ elim (Bool-cases ask) [
          | inl on ↦ (block, refl, empty, inl on)
          | inr off ↦ elim (Bool-cases (get_block_hash b block == hash)) [
            | inl same ↦ absurd (ground arith)
            | inr differs ↦ (block, refl, empty, inr differs)
          ]
        ]
      ]

  answer_panics : (m : Outcome DbRes) → ((m >>= (λ a. returns (some a))) ≡ panics) ↔ (m ≡ panics)
  unfolding ◌>>=◌
  answer_panics (returns a) = (λ h. cc, λ h. cc)
  answer_panics panics = (λ h. refl, λ h. refl)

  -- A request for confirmations panics exactly where there is a block at the height which is asked for, or
  -- whose hash is not the expected one, and no hash of a transaction is stored for the height, as for a
  -- block without transactions.
  pub get_confirmations-panics_iff :
      (node_id : String) (ask_txs : List Hash → Option (List Transaction)) (db : Database x)
      (height : ℕ) (hash : Hash) (ask : Bool)
      → (handle_requests x k b r node_id ask_txs db (DbReq.get_confirmations height hash ask)
          ≡ panics)
        ↔ Fails db height hash ask
  unfolding handle_requests
  get_confirmations-panics_iff node_id ask_txs db height hash ask = (
    λ h. only_fails_when db height hash ask (load_block x db height) ((answer_panics _).0 h),
    λ h. (answer_panics _).1 (
        ap (λ o. confirmations_of x k b r db height hash ask o) h.1
        ∙ fails_when db height hash ask h.0 h.2 h.3),
  )

module _ ⦃i : Identity⦄ (x : Indexes) (k : ValidatorsCodec) where
  -- The weights are the units in stake.
  abbrev pub weights_of : List Player → List ℕ
  weights_of players = map (λ p. p.units_in_stake) players

  -- The player under an id: what is stored for it, or, where the id is that of a key, one unit in stake.
  abbrev pub IsStored : Database x → String → Player → Type 0
  IsStored db id p =
      (load_player x k db id ≡ returns p)
      ⊎ (p ≡ record { account_id = id; units_in_stake = 1; life_points = 3 })

  abbrev pub AllStored : Database x → List String → List Player → Type 0
  AllStored db [] [] = Unit
  AllStored db (id ∷ ids) (p ∷ players) = IsStored db id p × AllStored db ids players
  AllStored db [] (p ∷ players) = ⊥
  AllStored db (id ∷ ids) [] = ⊥

  -- Both collections go on alike from the ids.
  abbrev Alike : Database x → Type 0
  Alike db =
      ((get_players x k db ≡ panics) × (collect_players x k db ≡ panics))
      ⊎ ((players : List Player) × (next : Players) × (get_players x k db ≡ returns players)
          × (collect_players x k db ≡ returns next)
          × (next.weights ≡ weights_of players)
          × AllStored db next.players_ids players)
