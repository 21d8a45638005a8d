-- ===== src/Node/Stored.antt =====
-- A block that was stored with its transactions, read back as a full block.
use trinci.Base.{
  inr, inl, Option-cases, length-map, append_assoc, append_nil, ℕ, ◌-◌, ◌<◌, ◌≡◌, refl, sym, ap,
  ◌∙◌, true, false, none, some, List, [], ◌∷◌, ◌++◌, ◌==◌, ℕ_eq, length, map, All, get_elem?, arith,
  eq_refl,
}
use trinci.Base.Words.{u64_mod}
use trinci.Crypto.Hash.{Hash, Hash_eq}
use trinci.Node.Identity.{Identity}
use trinci.Node.Models.{Block, Confirmation}
use trinci.Node.Transactions.{DataCodec, Transaction}
use trinci.Node.Database.{
  Database, Indexes, at_height, load_block, load_confirmations, load_transactions_hashes, push_all,
  store_block, store_transactions_hashes, unless_empty,
}
use trinci.Node.Storage.{load_all, load_full_block, load_transaction, store_transaction}

-- No hash stands twice.
abbrev pub IsDistinct : {A : Type 0} → List (Hash × A) → Type 0
IsDistinct [] = Unit
IsDistinct (p ∷ rest) = All (λ q. (q.0 == p.0) ≡ false) rest × IsDistinct rest

get_elem?-push :
    {A : Type 0} (l : List A) (a : A) (n : ℕ) → length l ≡ n → get_elem? (l ++ a ∷ []) n ≡ some a
get_elem?-push [] a n e = rw (← e) refl
get_elem?-push (b ∷ l) a n e = rw (← e) (get_elem?-push l a (length l) refl)

at-push :
    {A : Type 0} (l : List A) (a : A) (height : ℕ)
    → length l ≡ height
    → height < u64_mod - 1
    → at_height (l ++ a ∷ []) height ≡ some a
at-push l a height e h =
    let low : (height == u64_mod - 1) ≡ false = ground arith in rw low (get_elem?-push l a height e)

module _ ⦃i : Identity⦄ (x : Indexes) (k : DataCodec) where
  unfoldable pub store_all : List (Hash × Transaction) → Database x → Database x
  store_all [] db = db
  store_all (p ∷ rest) db = store_all rest (store_transaction x k p.0 p.1 db)

  get-store_all :
      (l : List (Hash × Transaction)) (db : Database x) (hash : Hash)
      → All (λ q. (q.0 == hash) ≡ false) l
      → x.get (store_all l db).transactions hash ≡ x.get db.transactions hash
  unfolding store_all store_transaction
  get-store_all [] db hash a = refl
  get-store_all (p ∷ rest) db hash a =
      get-store_all rest (store_transaction x k p.0 p.1 db) hash a.1
      ∙ x.get-put p.0 hash p.1 db.transactions
      ∙ rw a.0 refl

  stored :
      (l : List (Hash × Transaction)) (db : Database x)
      → IsDistinct l
      → All (λ p. x.get (store_all l db).transactions p.0 ≡ some p.1) l
  unfolding store_all store_transaction
  stored [] db d = tt
  stored (p ∷ rest) db d = (
    get-store_all rest (store_transaction x k p.0 p.1 db) p.0 d.0
        ∙ x.get-put p.0 p.0 p.1 db.transactions
        ∙ rw (eq_refl ⦃e = Hash_eq⦄ p.0) refl,
    stored rest (store_transaction x k p.0 p.1 db) d.1,
  )

  load_transaction-stored :
      (db : Database x) (hash : Hash) (tx : Transaction)
      → x.get db.transactions hash ≡ some tx
      → load_transaction x k db hash ≡ some tx
  unfolding load_transaction
  load_transaction-stored db hash tx e = rw (load_transaction, e) refl

  load_all-cons :
      (db : Database x) (hash : Hash) (hashes : List Hash) (tx : Transaction)
      → load_transaction x k db hash ≡ some tx
      → load_all x k db (hash ∷ hashes) ≡ tx ∷ load_all x k db hashes
  unfolding load_all
  load_all-cons db hash hashes tx e = rw (load_all, e) refl

  load_all-stored :
      (l : List (Hash × Transaction)) (db : Database x)
      → All (λ p. x.get db.transactions p.0 ≡ some p.1) l
      → load_all x k db (map (λ p. p.0) l) ≡ map (λ p. p.1) l
  unfolding load_all
  load_all-stored [] db a = refl
  load_all-stored (p ∷ rest) db a =
      load_all-cons db p.0 _ p.1 (load_transaction-stored db p.0 p.1 a.0)
      ∙ ap (λ l. p.1 ∷ l) (load_all-stored rest db a.1)

  entries-push_all :
      (hashes : List Hash) (l : x.Vec Hash)
      → x.entries (push_all x hashes l) ≡ x.entries l ++ hashes
  entries-push_all [] l = append_nil (x.entries l)
  entries-push_all (h ∷ hashes) l =
      entries-push_all hashes (x.push h l)
      ∙ ap (λ e. e ++ hashes) (x.entries-push h l)
      ∙ append_assoc (x.entries l) (h ∷ []) hashes

  store_all-kept :
      (l : List (Hash × Transaction)) (db : Database x)
      → ((store_all l db).blocks ≡ db.blocks)
        × ((store_all l db).confirmations ≡ db.confirmations)
        × ((store_all l db).transactions_hash ≡ db.transactions_hash)
  unfolding store_all store_transaction
  store_all-kept [] db = (refl, refl, refl)
  store_all-kept (p ∷ rest) db = store_all-kept rest (store_transaction x k p.0 p.1 db)

  -- A block as it is stored: its transactions, then their hashes, then the block with its confirmations.
  abbrev pub store_executed :
      Block → List Confirmation → List (Hash × Transaction) → Database x → Database x
  store_executed block confirmations txs db =
      store_block x block confirmations
        (store_transactions_hashes x block.content.height (map (λ p. p.0) txs) (store_all txs db))

  block-stored :
      (b : Block) (cs : List Confirmation) (txs : List (Hash × Transaction)) (db : Database x)
      → length (x.entries db.blocks) ≡ b.content.height
      → b.content.height < u64_mod - 1
      → load_block x (store_executed b cs txs db) b.content.height ≡ some b
  unfolding load_block store_block store_transactions_hashes
  block-stored b cs txs db e h =
      ap (λ l. at_height l b.content.height) (x.entries-push b (store_all txs db).blocks)
      ∙ at-push (x.entries (store_all txs db).blocks) b b.content.height
          (ap (λ l. length (x.entries l)) (store_all-kept txs db).0 ∙ e) h

  confirmations-stored :
      (b : Block) (cs : List Confirmation) (txs : List (Hash × Transaction)) (db : Database x)
      → length (x.entries db.confirmations) ≡ b.content.height
      → b.content.height < u64_mod - 1
      → load_confirmations x (store_executed b cs txs db) b.content.height ≡ some cs
  unfolding load_confirmations store_block store_transactions_hashes
  confirmations-stored b cs txs db e h =
      ap (λ l. at_height l b.content.height) (x.entries-push cs (store_all txs db).confirmations)
      ∙ at-push (x.entries (store_all txs db).confirmations) cs b.content.height
          (ap (λ l. length (x.entries l)) (store_all-kept txs db).1 ∙ e) h

  hashes-stored :
      (b : Block) (cs : List Confirmation) (txs : List (Hash × Transaction)) (db : Database x)
      → x.entries (db.transactions_hash b.content.height) ≡ []
      → load_transactions_hashes x (store_executed b cs txs db) b.content.height
        ≡ unless_empty x (map (λ p. p.0) txs)
  unfolding load_transactions_hashes store_block store_transactions_hashes
  hashes-stored b cs txs db e =
      let h = b.content.height in
      let hs = map (λ p. p.0) txs in
      rw (eq_refl h) (
        ap (unless_empty x) (
          entries-push_all hs ((store_all txs db).transactions_hash h)
          ∙ ap (λ f. x.entries (f h) ++ hs) (store_all-kept txs db).2
          ∙ ap (λ l. l ++ hs) e))

  kept :
      (b : Block) (cs : List Confirmation) (txs : List (Hash × Transaction)) (db : Database x)
      → All (λ p. x.get (store_all txs db).transactions p.0 ≡ some p.1) txs
      → All (λ p. x.get (store_executed b cs txs db).transactions p.0 ≡ some p.1) txs
  unfolding store_block store_transactions_hashes
  kept b cs txs db a = a

  same_length :
      (p : Hash × Transaction) (rest : List (Hash × Transaction))
      → (length (map (λ q. q.1) (p ∷ rest)) == length (map (λ q. q.0) (p ∷ rest))) ≡ true
  same_length p rest =
      (ℕ_eq.eq_iff (length (map (λ q. q.1) (p ∷ rest))) (length (map (λ q. q.0) (p ∷ rest)))).1
        (length-map (p ∷ rest) (λ q. q.1) ∙ sym (length-map (p ∷ rest) (λ q. q.0)))

  -- Where the database has as many blocks and confirmations as the height of a block says and no hashes at
  -- this height yet, which is below the greatest `u64`, a block that is stored with one or more
  -- transactions under different hashes is read back at its height as the full block: the block, its
  -- confirmations, and all its transactions in their order.
  pub load_full_block-stored :
      (b : Block) (cs : List Confirmation) (p : Hash × Transaction)
      (rest : List (Hash × Transaction)) (db : Database x)
      → IsDistinct (p ∷ rest)
      → length (x.entries db.blocks) ≡ b.content.height
      → length (x.entries db.confirmations) ≡ b.content.height
      → x.entries (db.transactions_hash b.content.height) ≡ []
      → b.content.height < u64_mod - 1
      → load_full_block x k (store_executed b cs (p ∷ rest) db) b.content.height
        ≡ some (b, cs, map (λ q. q.1) (p ∷ rest))
  unfolding load_full_block
  load_full_block-stored b cs p rest db d blocks confirmations empty low =
      let txs = p ∷ rest in
      let all =
        load_all-stored txs (store_executed b cs txs db) (kept b cs txs db (stored txs db d)) in
      rw
        (
          block-stored b cs txs db blocks low,
          confirmations-stored b cs txs db confirmations low,
          hashes-stored b cs txs db empty,
          all,
          same_length p rest,
        )
        refl

  -- A block without transactions is never read back as a full block, whatever was stored.
  pub load_full_block-empty :
      (b : Block) (db : Database x) (height : ℕ)
      → load_block x db height ≡ some b
      → x.entries (db.transactions_hash b.content.height) ≡ []
      → load_full_block x k db height ≡ none
  unfolding load_full_block load_transactions_hashes
  load_full_block-empty b db height e empty = elim (Option-cases (load_confirmations x db height)) [
    | inl lost ↦ rw (e, lost) refl
    | inr (cs, there) ↦ rw (e, there, empty) refl
  ]
