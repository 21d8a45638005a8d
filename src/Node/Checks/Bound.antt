-- ===== src/Node/Checks/Bound.antt =====
-- The contract that an account is bound to by `app_hash_check`.
use trinci.Base.{
  Option-cases, List, ℕ, Bool, true, false, ◌≡◌, refl, ap, ◌∙◌, ◌⊎◌, inl, inr, Option, none, some,
  String, String_eq, Bool-cases, eq_refl, eq→≡, subst,
}
use trinci.Base.Result.{err, Result, ok}
use trinci.Crypto.Hash.{Hash, Hash_eq, as_bytes}
use trinci.Node.Identity.{Identity}
use trinci.Node.Account.{Account, new_account}
use trinci.Node.Database.{Database, Indexes, load_account, store_account}
use trinci.Node.Errors.{WasmError}
use trinci.Node.Machine.{CallArgs, Called, CtxArgs, Forks}
use trinci.Node.Host.{account_or_new, contract_in}
use trinci.Node.Checks.{
  service_contract, says_yes, hash_bytes, ask_args, UpdatableCodec, take_current, app_hash_check,
  bind, check_account, contract_updatable, is_bound, rebind,
}

own_id :
    ⦃i : Identity⦄ (id : String) (o : Option Account)
    → ((a : Account) → o ≡ some a → a.id ≡ id)
    → (account_or_new id o).id ≡ id
unfolding new_account
own_id id none keyed = refl
own_id id (some a) keyed = keyed a refl

held :
    ⦃i : Identity⦄ (id : String) (o : Option Account) (hash : Hash)
    → (account_or_new id o).contract ≡ some hash
    → (a : Account) × (o ≡ some a) × (a.contract ≡ some hash)
unfolding new_account
held id none hash h = absurd cc
held id (some a) hash h = (a, refl, h)

is_bound_lem : (o : Option Hash) (hash : Hash) → is_bound o hash ≡ true → o ≡ some hash
is_bound_lem none hash h = cc
is_bound_lem (some current) hash h = ap some (eq→≡ ⦃e = Hash_eq⦄ current hash h)

current_of :
    ⦃i : Identity⦄ (id : String) (o : Option Account)
    → (account_or_new id o).contract ≡ contract_in o
unfolding new_account
current_of id none = refl
current_of id (some a) = refl

module _ ⦃i : Identity⦄ (x : Indexes) (f : Forks x) (k : UpdatableCodec) {M : Type 0}
    (call : CallArgs x → M → f.Fork → Called x × M × f.Fork) where
  -- The account is stored with the contract.
  abbrev pub HoldsContract : Database x → String → Hash → Type 0
  HoldsContract db id hash =
      (account : Account) × (load_account x db id ≡ some account) × (account.contract ≡ some hash)

  -- The account of the service has a contract, and its `contract_updatable`, called on the fork for the account,
  -- its current contract and the new one, has answered with `true`.
  pub record Agreed (ctx_args : CtxArgs x) (current : Option Hash) (hash : Hash) (m : M)
      (fork : f.Fork) : Type 0 where
    pub service : Account
    pub args : CallArgs x
    pub value : List ℕ
    pub stands : load_account x (f.view fork) "TRINCI" ≡ some service
    pub has_contract : service.contract ≡ some args.contract
    pub to_service : args.owner ≡ "TRINCI"
    pub method : args.method ≡ "contract_updatable"
    pub asked : args.args ≡ k.rmp_args ctx_args.owner (hash_bytes current) (as_bytes hash)
    pub answered : (call args m fork).0.result ≡ ok value
    pub says_true : k.read_bool value ≡ some true

  -- The account had the contract, or the contract was asked for and the contract of the service said yes.
  abbrev pub IsAllowed : Option Hash → CtxArgs x → ℕ → M → f.Fork → Hash → Type 0
  IsAllowed app_hash ctx_args time m fork hash =
      HoldsContract (f.view fork) ctx_args.owner hash
      ⊎ ((app_hash ≡ some hash)
          × Agreed ctx_args (contract_in (load_account x (f.view fork) ctx_args.owner)) hash m fork)

  yes-true :
      (r : Result WasmError (List ℕ))
      → says_yes x f k call r ≡ true
      → (value : List ℕ) × (r ≡ ok value) × (k.read_bool value ≡ some true)
  yes-true (err error) h = absurd cc
  yes-true (ok value) h = elim (Option-cases (k.read_bool value)) [
    | inl none_read ↦ let h' = rw (says_yes, none_read) at h in absurd cc
    | inr (answer, there) ↦
        let is_true : answer ≡ true = rw (says_yes, there) at h in
        (value, refl, there ∙ ap some is_true)
  ]

  Agreed-asked :
      (ctx_args : CtxArgs x) (current : Option Hash) (hash : Hash) (time : ℕ) (m : M)
      (fork : f.Fork) (o : Option Account)
      → load_account x (f.view fork) "TRINCI" ≡ o
      → (contract_updatable x f k call ctx_args.owner current (some hash) ctx_args time m fork).0
        ≡ true
      → Agreed ctx_args current hash m fork
  unfolding contract_updatable
  Agreed-asked ctx_args current hash time m fork none there h =
      let h' = rw (contract_updatable, service_contract, there) at h in absurd cc
  Agreed-asked ctx_args current hash time m fork (some service) there h =
      elim (Option-cases service.contract) [
        | inl no_contract ↦
            let h' = rw (contract_updatable, service_contract, there, no_contract) at h in absurd cc
        | inr (contract, held_by) ↦
            let args =
              ask_args x f k call ctx_args.owner current (some hash) ctx_args time contract in
            let (value, answered, says_true) =
              yes-true (call args m fork).0.result
                (rw (contract_updatable, service_contract, there, held_by) at h) in
            record {
              service = service;
              args = args;
              value = value;
              stands = there;
              has_contract = held_by;
              to_service = refl;
              method = refl;
              asked = refl;
              answered = answered;
              says_true = says_true;
            }
      ]

  bind-HoldsContract :
      (account : Account) (id : String) (hash : Hash) (fork : f.Fork)
      → account.id ≡ id
      → HoldsContract (f.view (bind x f k call account hash fork)) id hash
  unfolding load_account store_account
  bind-HoldsContract account id hash fork same = (
    record account { contract = some hash },
    ap (λ db. load_account x db id) (f.view-write _ fork)
        ∙ x.get-put account.id id (record account { contract = some hash }) (f.view fork).accounts
        ∙ rw (same, eq_refl id) refl,
    refl,
  )

  rebind-ok :
      (account : Account) (asked hash : Hash) (r : Bool × M × f.Fork) (m' : M) (fork' : f.Fork)
      → rebind x f k call account asked r ≡ (ok hash, m', fork')
      → (r.0 ≡ true) × (asked ≡ hash) × (bind x f k call account hash r.2 ≡ fork')
  unfolding rebind
  rebind-ok account asked hash (true, m, fork) m' fork' h = (refl, cc, cc)
  rebind-ok account asked hash (false, m, fork) m' fork' h = absurd cc

  take_current-ok :
      (account : Account) (o : Option Hash) (hash : Hash) (m m' : M) (fork fork' : f.Fork)
      → take_current x f k call account o m fork ≡ (ok hash, m', fork')
      → (o ≡ some hash) × (bind x f k call account hash fork ≡ fork')
  unfolding take_current
  take_current-ok account none hash m m' fork fork' h = absurd cc
  take_current-ok account (some current) hash m m' fork fork' h = (cc, cc)

  as_before :
      (asked hash : Hash) (m m' : M) (fork fork' : f.Fork)
      → Path (Result WasmError Hash × M × f.Fork) (ok asked, m, fork) (ok hash, m', fork')
      → (asked ≡ hash) × (fork ≡ fork')
  as_before asked hash m m' fork fork' h = (cc, cc)

  -- Where an account that is there stands under its id, and the check of a contract gives a hash: the
  -- account is then stored with this contract, and it had it before, or the contract was asked for, the
  -- account of the service has a contract, and its `contract_updatable`, called for the account, its current
  -- contract and this one, has answered `true`.
  pub app_hash_check-HoldsContract :
      (app_hash : Option Hash) (ctx_args : CtxArgs x) (time : ℕ) (m m' : M) (fork fork' : f.Fork)
      (hash : Hash)
      → ((a : Account)
          → load_account x (f.view fork) ctx_args.owner ≡ some a
          → a.id ≡ ctx_args.owner)
      → app_hash_check x f k call app_hash ctx_args time m fork ≡ (ok hash, m', fork')
      → HoldsContract (f.view fork') ctx_args.owner hash
        × IsAllowed app_hash ctx_args time m fork hash
  unfolding app_hash_check check_account
  app_hash_check-HoldsContract none ctx_args time m m' fork fork' hash keyed h =
      let account = account_or_new ctx_args.owner (load_account x (f.view fork) ctx_args.owner) in
      let (there, bound) = take_current-ok account account.contract hash m m' fork fork' h in
      (
        subst (λ g. HoldsContract (f.view g) ctx_args.owner hash) bound
            (bind-HoldsContract account ctx_args.owner hash fork (own_id ctx_args.owner _ keyed)),
        inl (held ctx_args.owner _ hash there),
      )
  app_hash_check-HoldsContract (some asked) ctx_args time m m' fork fork' hash keyed h =
      let account = account_or_new ctx_args.owner (load_account x (f.view fork) ctx_args.owner) in
      elim (Bool-cases (is_bound account.contract asked)) [
        | inl same ↦
            let (is_asked, left) = as_before asked hash m m' fork fork' (rw same at h) in
            let there =
              held ctx_args.owner _ hash
                (is_bound_lem account.contract asked same ∙ ap some is_asked) in
            (subst (λ g. HoldsContract (f.view g) ctx_args.owner hash) left there, inl there)
        | inr other ↦
            let (approved, is_asked, bound) =
              rebind-ok account asked hash _ m' fork' (rw other at h) in
            (
              subst (λ g. HoldsContract (f.view g) ctx_args.owner hash) bound
                  (bind-HoldsContract account ctx_args.owner hash _
                    (own_id ctx_args.owner _ keyed)),
              inr (
                ap some is_asked,
                Agreed-asked ctx_args _ hash time m fork _ refl (
                    subst
                      (λ q.
                        (contract_updatable x f k call ctx_args.owner q (some hash) ctx_args time m
                          fork).0
                        ≡ true)
                      (current_of ctx_args.owner (load_account x (f.view fork) ctx_args.owner))
                      (subst
                        (λ q.
                          (contract_updatable x f k call ctx_args.owner account.contract (some q)
                            ctx_args time m fork).0
                          ≡ true)
                        is_asked approved)),
              ),
            )
      ]
