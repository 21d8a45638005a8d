-- ===== src/Node/Runs/Hashed.antt =====
-- The hash of the data of an account, which a run that succeeds brings up to date.
use trinci.Base.{
  ◌≡◌, refl, sym, ap, ◌∙◌, subst, Bool, true, false, String_eq, Option, none, some, List, String, ℕ,
  if◌then◌else◌,
}
use trinci.Base.Outcome.{Outcome, returns, panics}
use trinci.Base.Result.{Result, err, ok}
use trinci.Node.Identity.{Identity}
use trinci.Node.Account.{Account}
use trinci.Node.Database.{Database, load_account, store_account}
use trinci.Node.Errors.{WasmError}
use trinci.Node.Execution.State.{Setting}
use trinci.Node.Host.{Host, HostCodec, HostContext}
use trinci.Node.Host.Isolated.{IsKeyed}
use trinci.Node.Host.Guest.{give, fail, GuestCodec, Caller, Guest, ◌>>=◌, continue}
use trinci.Node.Runs.{AppInput, slice_of, AppOutput, Runtime, rehash, rehashed}
use trinci.Node.Runs.Yields.{Sandboxed-Yields, Gives}
use trinci.Node.Runs.Instances.{trapped, update_data_hash, run_contract, output_of, result_at}
use trinci.Node.Runs.Steps.{traps_as-Sandboxed, EachRuns, RunsGuest}
use trinci.Node.Host.Guest.Sandboxed.{AllocIsConfined}
use trinci.Node.Runs.Contained.{found-Yields, prepare-Yields}

module _ ⦃i : Identity⦄ ⦃e : Setting⦄ (owner : String) where
  -- Where the data has changed, the account stands with the hash of the data.
  pub record IsHashed (db : Database e.indexes) : Type 0 where
    pub account : Account
    pub stands : load_account e.indexes db owner ≡ some account
    pub hashed : account.data_hash ≡ some (e.forks.state_hash db owner)

  -- For an account whose id is not empty, `object_hash` of the map of the data of an account depends on the data
  -- only.
  abbrev pub ReadsData : Type 0
  ReadsData =
      (db db' : Database e.indexes)
      → db.account_data owner ≡ db'.account_data owner
      → e.forks.state_hash db owner ≡ e.forks.state_hash db' owner

module _ ⦃i : Identity⦄ ⦃e : Setting⦄ (c : HostContext) (reads : ReadsData c.owner) where
  rehashed-IsHashed :
      (h : Host e) (account : Account)
      → load_account e.indexes (e.forks.view h.db) c.owner ≡ some account
      → IsKeyed (e.forks.view h.db)
      → IsHashed c.owner (e.forks.view (rehashed account h).db)
  unfolding load_account store_account
  rehashed-IsHashed h account found keyed =
      let db = e.forks.view h.db in
      let same_id : account.id ≡ c.owner = keyed.keyed c.owner account found in
      let new = record account { data_hash = some (e.forks.state_hash db account.id) } in
      subst (IsHashed c.owner) (sym (e.forks.view-write (store_account e.indexes new) h.db))
        (record {
          account = new;
          stands =
              e.indexes.get-put account.id c.owner new db.accounts
              ∙ ap (λ b. if b then some new else load_account e.indexes db c.owner)
                  ((String_eq.eq_iff account.id c.owner).1 same_id);
          hashed = ap (λ x. some (e.forks.state_hash db x)) same_id ∙ ap some (reads _ _ refl);
        })

  -- Where a call succeeds and the data has been changed, the database is hashed.
  abbrev Ends : {A : Type 0} → Outcome (Result WasmError A × Caller e) → Type 0
  Ends (returns (ok a, s)) = s.host.data_updated ≡ true → IsHashed c.owner (e.forks.view s.host.db)
  Ends (returns (err error, s)) = Unit
  Ends panics = Unit

  Ends-continue :
      {A B : Type 0} (k : HostCodec) (P : A → Type 0) (s : Caller e)
      (r : Outcome (Result WasmError A × Caller e)) (next : A → Guest e B)
      → Gives c k P s r
      → ((a : A) (s' : Caller e) → P a → IsKeyed (e.forks.view s'.host.db) → Ends (next a s'))
      → Ends (continue r next)
  Ends-continue k P s (returns (ok a, s')) next (h, p) rest = rest a s' p h.1
  Ends-continue k P s (returns (err error, s')) next h rest = tt
  Ends-continue k P s panics next h rest = tt

  module _ (t : Runtime e) where
    abbrev Now : Caller e → Type 0
    Now s = s.host.data_updated ≡ true → IsHashed c.owner (e.forks.view s.host.db)

    judged-Ends :
        (b : Bool) (buf : List ℕ) (error : WasmError) (s : Caller e)
        → Now s
        → Ends ((if b then give buf else fail error) s)
    judged-Ends true buf error s h = h
    judged-Ends false buf error s h = tt

    output-Ends : (r : Result String AppOutput) (s : Caller e) → Now s → Ends (output_of t c r s)
    output-Ends (err text) s h = tt
    output-Ends (ok res) s h = judged-Ends res.success res.data_ _ s h

    sliced-Ends :
        (o : Option (List ℕ)) (s : Caller e)
        → Now s
        → Ends (continue (slice_of o s) (λ buf. output_of t c (t.rmp_output buf)))
    sliced-Ends none s h = tt
    sliced-Ends (some buf) s h = output-Ends (t.rmp_output buf) s h

    result_at-Ends : (wslice : ℕ) (s : Caller e) → Now s → Ends (result_at t c wslice s)
    unfolding result_at ◌>>=◌
    result_at-Ends wslice s h = sliced-Ends _ s h

    rehash-Ends :
        (wslice : ℕ) (s : Caller e) (o : Option Account)
        → load_account e.indexes (e.forks.view s.host.db) c.owner ≡ o
        → IsKeyed (e.forks.view s.host.db)
        → Ends (continue (rehash o s) (λ done. result_at t c wslice))
    rehash-Ends wslice s none found keyed = tt
    rehash-Ends wslice s (some account) found keyed =
        result_at-Ends wslice (record s { host = rehashed account s.host })
          (λ updated. rehashed-IsHashed s.host account found keyed)

    updated-Ends :
        (wslice : ℕ) (s : Caller e) (b : Bool)
        → s.host.data_updated ≡ b
        → IsKeyed (e.forks.view s.host.db)
        → Ends (
            continue
              (if b
                then rehash (load_account e.indexes (e.forks.view s.host.db) c.owner) s
                else give tt s)
              (λ done. result_at t c wslice))
    updated-Ends wslice s true h keyed = rehash-Ends wslice s _ refl keyed
    updated-Ends wslice s false h keyed = result_at-Ends wslice s (λ updated. absurd cc)

    module _ (g : GuestCodec e) (k : HostCodec) (code : t.compiler.Module)
        (guests : RunsGuest g c k t code) (confined : AllocIsConfined c k g.alloc) where
      run_contract-Ends :
          (input : AppInput) (args : List ℕ) (m : e.wm.State) (s : Caller e)
          → IsKeyed (e.forks.view s.host.db)
          → Ends (run_contract t c input args code m s)
      unfolding run_contract ◌>>=◌ update_data_hash
      run_contract-Ends input args m s keyed =
          Ends-continue k _ s _ _
            ((prepare-Yields c k t g confined code guests _ input args m).at s keyed)
            (λ r s1 guest keyed1.
              Ends-continue k (λ run. EachRuns g c k (ok run)) s1 _ _
                ((found-Yields c k _ r.0.run (λ a h. subst (EachRuns g c k) h guest.run_runs)).at s1
                  keyed1)
                (λ run s2 runs keyed2.
                  Ends-continue k _ s2 _ _
                    ((Sandboxed-Yields c k _ (
                        traps_as-Sandboxed g c k confined (trapped t c) (run r.1 r.2 r.3 r.4)
                          (λ s. runs r.1 r.2 r.3 r.4 s))).at
                      s2 keyed2)
                    (λ wslice s3 q keyed3.
                      updated-Ends wslice s3 s3.host.data_updated refl keyed3)))

      -- Where every account stands under its id, the instance changes the host through the linked functions
      -- only, but those that call another contract, and its `alloc` leaves the host confined, and the hash of
      -- the data of the account depends on the data only: where a contract has run with success and its data
      -- has been changed, its account stands with the hash of the data as it is then.
      pub run_contract-IsHashed :
          (input : AppInput) (args : List ℕ) (m : e.wm.State) (s s' : Caller e) (buf : List ℕ)
          → IsKeyed (e.forks.view s.host.db)
          → run_contract t c input args code m s ≡ returns (ok buf, s')
          → s'.host.data_updated ≡ true
          → IsHashed c.owner (e.forks.view s'.host.db)
      run_contract-IsHashed input args m s s' buf keyed done =
          subst Ends done (run_contract-Ends input args m s keyed)
