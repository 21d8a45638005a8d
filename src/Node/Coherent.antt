-- ===== src/Node/Coherent.antt =====
-- Which bulk transactions pass the check, and which make it panic.
use trinci.Base.{
  if◌then◌else◌, ◌⊎◌, ◌∙◌, sym, Bool, true, false, ◌≡◌, ◌↔◌, refl, Bool-cases, inl, inr, some,
  String, ◌==◌, String_eq, eq→≡, eq_refl, List, ℕ,
}
use trinci.Base.Outcome.{Outcome, returns, panics, ◌>>=◌, returns-injective}
use trinci.Crypto.Hash.{Hash, Hash_eq}
use trinci.Node.Identity.{Identity}
use trinci.Node.Transactions.{
  BulkNodes, DataCodec, SignedTransactions, Transaction, TransactionData, get_caller,
  get_dependency, get_network,
}
use trinci.Node.Integrity.{check_bulk, check_data, check_nodes, verify}

module _ ⦃i : Identity⦄ where
  -- A node that depends on the root and stands in its network.
  pub data IsCoherent (root_hash : Hash) (network : String) : TransactionData → Type 0 where
    coherent :
        (d : TransactionData)
        → get_dependency d ≡ returns (some root_hash)
        → get_network d ≡ network
        → IsCoherent root_hash network d

  pub data AllCoherent (root_hash : Hash) (network : String) : SignedTransactions → Type 0 where
    none_left : AllCoherent root_hash network SignedTransactions.nil
    one_more :
        (d : TransactionData) (signature : List ℕ) (rest : SignedTransactions)
        → IsCoherent root_hash network d
        → AllCoherent root_hash network rest
        → AllCoherent root_hash network (SignedTransactions.cons d signature rest)

  -- Coherent nodes, and then one of another variant.
  pub data IsBroken (root_hash : Hash) (network : String) : SignedTransactions → Type 0 where
    broken :
        (d : TransactionData) (signature : List ℕ) (rest : SignedTransactions)
        → get_dependency d ≡ panics
        → IsBroken root_hash network (SignedTransactions.cons d signature rest)
    later :
        (d : TransactionData) (signature : List ℕ) (rest : SignedTransactions)
        → IsCoherent root_hash network d
        → IsBroken root_hash network rest
        → IsBroken root_hash network (SignedTransactions.cons d signature rest)

  round-coherent :
      (h : Hash) (n : String) (d : TransactionData) (s : List ℕ) (rest : SignedTransactions)
      → IsCoherent h n d
      → check_nodes h n (SignedTransactions.cons d s rest) ≡ check_nodes h n rest
  unfolding check_nodes
  round-coherent h n _ s rest (IsCoherent.coherent d dep net) =
      rw (dep, net, eq_refl ⦃e = Hash_eq⦄ h, eq_refl n) refl

  round-broken :
      (h : Hash) (n : String) (d : TransactionData) (s : List ℕ) (rest : SignedTransactions)
      → get_dependency d ≡ panics
      → check_nodes h n (SignedTransactions.cons d s rest) ≡ panics
  unfolding check_nodes
  round-broken h n d s rest e = rw e refl

  dependency-cases :
      (d : TransactionData)
      → ((h : Hash) × (get_dependency d ≡ returns (some h))) ⊎ (get_dependency d ≡ panics)
  unfolding get_dependency
  dependency-cases (TransactionData.bulk_node_v1 d) = inl (d.depends_on, refl)
  dependency-cases _ = inr refl

  -- A round goes on, panics, or ends the loop with `false`.
  round-cases :
      (h : Hash) (n : String) (d : TransactionData) (s : List ℕ) (rest : SignedTransactions)
      → IsCoherent h n d
        ⊎ ((get_dependency d ≡ panics)
            ⊎ (check_nodes h n (SignedTransactions.cons d s rest) ≡ returns false))
  unfolding check_nodes
  round-cases h n d s rest = elim (dependency-cases d) [
    | inr broken' ↦ inr (inl broken')
    | inl (h', dep) ↦ elim (Bool-cases (h' == h)) [
      | inr other ↦ inr (inr (rw (dep, other) refl))
      | inl same ↦ elim (Bool-cases (get_network d == n)) [
        | inr other ↦ inr (inr (rw (dep, same, other) refl))
        | inl net ↦
            inl (IsCoherent.coherent d (rw (eq→≡ h' h same) at dep) (eq→≡ (get_network d) n net))
      ]
    ]
  ]

  passed :
      (h : Hash) (n : String) (l : SignedTransactions)
      → check_nodes h n l ≡ returns true
      → AllCoherent h n l
  passed h n SignedTransactions.nil e = AllCoherent.none_left
  passed h n (SignedTransactions.cons d s rest) e = elim (round-cases h n d s rest) [
    | inl c ↦
        AllCoherent.one_more d s rest c (passed h n rest (sym (round-coherent h n d s rest c) ∙ e))
    | inr (inl p) ↦ let b = round-broken h n d s rest p in cc
    | inr (inr f) ↦ cc
  ]

  pass :
      (h : Hash) (n : String) (l : SignedTransactions)
      → AllCoherent h n l
      → check_nodes h n l ≡ returns true
  unfolding check_nodes
  pass h n _ AllCoherent.none_left = refl
  pass h n _ (AllCoherent.one_more d s rest c a) = round-coherent h n d s rest c ∙ pass h n rest a

  panicked :
      (h : Hash) (n : String) (l : SignedTransactions) → check_nodes h n l ≡ panics → IsBroken h n l
  unfolding check_nodes
  panicked h n SignedTransactions.nil e = cc
  panicked h n (SignedTransactions.cons d s rest) e = elim (round-cases h n d s rest) [
    | inl c ↦
        IsBroken.later d s rest c (panicked h n rest (sym (round-coherent h n d s rest c) ∙ e))
    | inr (inl p) ↦ IsBroken.broken d s rest p
    | inr (inr f) ↦ cc
  ]

  panic :
      (h : Hash) (n : String) (l : SignedTransactions) → IsBroken h n l → check_nodes h n l ≡ panics
  panic h n _ (IsBroken.broken d s rest p) = round-broken h n d s rest p
  panic h n _ (IsBroken.later d s rest c b) = round-coherent h n d s rest c ∙ panic h n rest b

  module _ (k : DataCodec) where
    -- The nodes are there, and every one is coherent with the root.
    pub data IsBulk (root : TransactionData) : BulkNodes → Type 0 where
      bulk :
          (d : TransactionData) (s : List ℕ) (rest : SignedTransactions)
          → AllCoherent (k.primary_hash root) (get_network root) (SignedTransactions.cons d s rest)
          → IsBulk root (BulkNodes.nodes (SignedTransactions.cons d s rest))

    IsBulk-passed :
        (root : TransactionData) (ns : BulkNodes)
        → check_bulk k root ns ≡ returns true
        → IsBulk root ns
    unfolding check_bulk
    IsBulk-passed root BulkNodes.no_nodes e = cc
    IsBulk-passed root (BulkNodes.nodes SignedTransactions.nil) e = cc
    IsBulk-passed root (BulkNodes.nodes (SignedTransactions.cons d s rest)) e =
        IsBulk.bulk d s rest (passed _ _ (SignedTransactions.cons d s rest) e)

    pass-IsBulk :
        (root : TransactionData) (ns : BulkNodes)
        → IsBulk root ns
        → check_bulk k root ns ≡ returns true
    unfolding check_bulk
    pass-IsBulk root _ (IsBulk.bulk d s rest a) = pass _ _ (SignedTransactions.cons d s rest) a

    check_panicked :
        (root : TransactionData) (l : SignedTransactions)
        → check_data k (TransactionData.bulk_v1 root (BulkNodes.nodes l)) ≡ panics
        → IsBroken (k.primary_hash root) (get_network root) l
    unfolding check_data
    check_panicked root SignedTransactions.nil e = cc
    check_panicked root (SignedTransactions.cons d s rest) e =
        panicked _ _ (SignedTransactions.cons d s rest) e

    check_panics :
        (root : TransactionData) (l : SignedTransactions)
        → IsBroken (k.primary_hash root) (get_network root) l
        → check_data k (TransactionData.bulk_v1 root (BulkNodes.nodes l)) ≡ panics
    unfolding check_data
    check_panics root _ (IsBroken.broken d s rest p) = round-broken _ _ d s rest p
    check_panics root _ (IsBroken.later d s rest c b) = panic _ _ _ (IsBroken.later d s rest c b)

    accepted :
        (m : Outcome Bool) (valid : Bool)
        → (m >>= λ intact. returns (if intact then valid else false)) ≡ returns true
        → (m ≡ returns true) × (valid ≡ true)
    unfolding ◌>>=◌
    accepted (returns true) valid e = (refl, returns-injective e)
    accepted (returns false) valid e = cc
    accepted panics valid e = cc

    accept :
        (m : Outcome Bool) (valid : Bool)
        → m ≡ returns true
        → valid ≡ true
        → (m >>= λ intact. returns (if intact then valid else false)) ≡ returns true
    unfolding ◌>>=◌
    accept m valid e h = rw (e, h) refl

    -- A bulk transaction verifies exactly where it has nodes, each of which depends on the hash of the root
    -- and names its network, and the signature is one of the caller of the root for the data.
    pub verify-IsBulk_iff :
        (root : TransactionData) (ns : BulkNodes) (signature : List ℕ)
        → let d = TransactionData.bulk_v1 root ns in
          (verify k (Transaction.bulk_transaction d signature) ≡ returns true)
          ↔ (IsBulk root ns × (i.verify (get_caller root) (k.rmp d) signature ≡ true))
    unfolding verify
    verify-IsBulk_iff root ns signature =
        let d = TransactionData.bulk_v1 root ns in
        let valid = i.verify (get_caller root) (k.rmp d) signature in
        (
          λ e.
              let (intact, signed) = accepted (check_bulk k root ns) valid e in
              (IsBulk-passed root ns intact, signed),
          λ h. accept (check_bulk k root ns) valid (pass-IsBulk root ns h.0) h.1,
        )

    -- The check of a bulk transaction panics exactly where, after coherent nodes, there is one that is
    -- not a bulk node.
    pub check_data-panics_iff :
        (root : TransactionData) (l : SignedTransactions)
        → (check_data k (TransactionData.bulk_v1 root (BulkNodes.nodes l)) ≡ panics)
          ↔ IsBroken (k.primary_hash root) (get_network root) l
    check_data-panics_iff root l = (check_panicked root l, check_panics root l)
