-- ===== src/Node/Runs/Contained.antt =====
-- What the run of a contract can change.
use trinci.Base.{
  if◌then◌else◌, inr, inl, Bool-cases, ℕ, ◌≡◌, refl, subst, Bool, true, false, Option, none, some,
  List, String,
}
use trinci.Base.Outcome.{Outcome}
use trinci.Base.Result.{Result, err, ok}
use trinci.Node.Identity.{Identity}
use trinci.Node.Account.{Account, load_asset}
use trinci.Node.Database.{load_account, store_account}
use trinci.Node.Errors.{WasmError}
use trinci.Node.Execution.State.{Setting}
use trinci.Node.Host.{HostCodec, HostContext}
use trinci.Node.Host.Isolated.{IsIsolated, IsKeyed, changed, changed-IsIsolated, changed-IsKeyed}
use trinci.Node.Host.Confined.{nothing, wrote}
use trinci.Node.Host.Guest.{Caller, GuestCodec, bytes_at}
use trinci.Node.Host.Guest.Sandboxed.{
  AllocIsConfined, Confines, Sandboxed, bind-Sandboxed, fail-Sandboxed, fault-Sandboxed,
  give-Sandboxed,
}
use trinci.Node.Local.{wslice_split}
use trinci.Node.Runs.{
  AppInput, AppOutput, Export, Runtime, exported_memory, lend, machine_fault, memory_data, or_error,
  or_not_found, rehash, rehashed, slice_of, stored_in,
}
use trinci.Node.Runs.Instances.{
  update_data_hash, write_mem, instance_of, prepare, output_of, result_at, run_contract,
  ask_contract,
}
use trinci.Node.Runs.Steps.{AllocRuns, EachRuns, IsGuest, RunsGuest, started, traps_as-Sandboxed}
use trinci.Node.Runs.Yields.{
  Sandboxed-Yields, Yields, Yields-Sandboxed, bind-Yields, fail-Yields, give-Yields,
}

module _ ⦃i : Identity⦄ ⦃e : Setting⦄ (c : HostContext) (k : HostCodec) where
  or_error-Sandboxed : {A : Type 0} (r : Result WasmError A) → Sandboxed c k (or_error r)
  or_error-Sandboxed (ok a) = give-Sandboxed c k a
  or_error-Sandboxed (err error) = fail-Sandboxed c k error

  pub found-Yields :
      {A : Type 0} (P : A → Type 0) (r : Result String A)
      → ((a : A) → r ≡ ok a → P a)
      → Yields c k P (or_not_found r)
  found-Yields P (ok a) h = give-Yields c k P a (h a refl)
  found-Yields P (err text) h = fail-Yields c k P (WasmError.resource_not_found text)

  exported-Sandboxed :
      (text : String) (o : Option (List ℕ)) → Sandboxed c k (exported_memory text o)
  exported-Sandboxed text none = fail-Sandboxed c k _
  exported-Sandboxed text (some mem) = give-Sandboxed c k tt

  memory-Sandboxed : (text : String) → Sandboxed c k (λ s. exported_memory text s.memory s)
  memory-Sandboxed text = record { at = λ s keyed. (exported-Sandboxed text s.memory).at s keyed }

  stored-Confines :
      (s : Caller e) (r : Result String (List ℕ))
      → IsKeyed (e.forks.view s.host.db)
      → Confines c k s (stored_in s r)
  stored-Confines s (ok mem) keyed = nothing c k s.host s.host refl keyed
  stored-Confines s (err text) keyed = nothing c k s.host s.host refl keyed

  slice-Sandboxed : (o : Option (List ℕ)) → Sandboxed c k (slice_of o)
  slice-Sandboxed none = fail-Sandboxed c k _
  slice-Sandboxed (some buf) = give-Sandboxed c k buf

  rehash-Confines :
      (s : Caller e) (o : Option Account)
      → load_account e.indexes (e.forks.view s.host.db) c.owner ≡ o
      → IsKeyed (e.forks.view s.host.db)
      → Confines c k s (rehash o s)
  unfolding changed load_asset
  rehash-Confines s none h keyed = nothing c k s.host s.host refl keyed
  rehash-Confines s (some account) h keyed =
      let db = e.forks.view s.host.db in
      let hash = e.forks.state_hash db account.id in
      let change : Account → Account = λ a. record a { data_hash = some hash } in
      let same : changed change (λ a. refl) c.owner db
          ≡ store_account e.indexes (change account) db =
        rw h refl in
      wrote c k (store_account e.indexes (change account)) s.host (rehashed account s.host) refl (
        subst (λ d. IsIsolated c.owner db d × IsKeyed d) same
          (
            changed-IsIsolated change (λ a. refl) c.owner (λ a asset q. refl) (λ a. refl) c.owner db
                keyed (λ j other same. absurd cc),
            changed-IsKeyed change (λ a. refl) c.owner db keyed,
          ))

  if-Confines :
      {A : Type 0} (s : Caller e) (b : Bool) (x y : Outcome (Result WasmError A × Caller e))
      → Confines c k s x
      → Confines c k s y
      → Confines c k s (if b then x else y)
  if-Confines s true x y h h' = h
  if-Confines s false x y h h' = h'

  lend-Yields : (m : e.wm.State) → Yields c k (λ a. Unit) (lend m)
  lend-Yields m = record {
    at = λ s keyed. (nothing c k s.host (record s.host { wm = some m }) refl keyed, tt);
  }

  module _ (t : Runtime e) where
    update-Sandboxed : Sandboxed c k (update_data_hash t c)
    unfolding update_data_hash
    update-Sandboxed = record {
      at = λ s keyed.
          if-Confines s s.host.data_updated _ _ (rehash-Confines s _ refl keyed)
            (nothing c k s.host s.host refl keyed);
    }

    output-Sandboxed : (r : Result String AppOutput) → Sandboxed c k (output_of t c r)
    output-Sandboxed (err text) = fail-Sandboxed c k _
    output-Sandboxed (ok res) = elim (Bool-cases res.success) [
      | inl good ↦ rw good (give-Sandboxed c k res.data_)
      | inr bad ↦ rw bad (fail-Sandboxed c k _)
    ]

    result-Sandboxed : (wslice : ℕ) → Sandboxed c k (result_at t c wslice)
    unfolding result_at
    result-Sandboxed wslice =
        let (offset, size) = wslice_split wslice in
        bind-Sandboxed c k _ _
          (record {
            at = λ s keyed.
                (slice-Sandboxed (bytes_at (memory_data s.memory) offset size)).at s keyed;
          })
          (λ buf. output-Sandboxed (t.rmp_output buf))

    module _ (g : GuestCodec e) (confined : AllocIsConfined c k g.alloc) where
      write_mem-Sandboxed :
          (alloc : ℕ → Export e ℕ) (bytes : List ℕ)
          → AllocRuns g c k (ok alloc)
          → Sandboxed c k (write_mem t c alloc bytes)
      unfolding write_mem
      write_mem-Sandboxed alloc bytes h =
          bind-Sandboxed c k _ _ (traps_as-Sandboxed g c k confined _ _ (λ s. h _ s)) (λ offset.
            bind-Sandboxed c k _ _ (record { at = λ s keyed. stored-Confines s _ keyed })
              (λ done. give-Sandboxed c k offset))

      module _ (code : t.compiler.Module) (guests : RunsGuest g c k t code) where
        instance_of-Yields : (m : e.wm.State) → Yields c k (IsGuest g c k) (instance_of t c code m)
        unfolding instance_of
        instance_of-Yields m =
            bind-Yields c k _ _ _ _ (Sandboxed-Yields c k _ (or_error-Sandboxed _)) (λ funcs q.
              bind-Yields c k (IsGuest g c k) _ _ _
                (record {
                  at = λ s keyed.
                      started g c k confined machine_fault s _ keyed (guests.starts funcs s);
                })
                (λ x guest.
                  bind-Yields c k (λ a. Unit) _ _ _ (lend-Yields m)
                    (λ done q. give-Yields c k (IsGuest g c k) x guest)))

        pub prepare-Yields :
            (text : String) (input : AppInput) (args : List ℕ) (m : e.wm.State)
            → Yields c k (λ r. IsGuest g c k r.0) (prepare t c text input args code m)
        unfolding prepare
        prepare-Yields text input args m =
            bind-Yields c k _ _ _ _ (instance_of-Yields m) (λ x guest.
              bind-Yields c k (λ alloc. AllocRuns g c k (ok alloc)) _ _ _
                (found-Yields _ x.alloc (λ a h. subst (AllocRuns g c k) h guest.alloc_runs))
                (λ alloc runs.
                  bind-Yields c k _ _ _ _ (Sandboxed-Yields c k _ (memory-Sandboxed text)) (λ d q.
                    bind-Yields c k _ _ _ _
                      (Sandboxed-Yields c k _ (write_mem-Sandboxed alloc args runs))
                      (λ args_addr q.
                        bind-Yields c k _ _ _ _
                          (Sandboxed-Yields c k _ (fault-Sandboxed c k (t.rmp_input input)))
                          (λ buf q.
                            bind-Yields c k _ _ _ _
                              (Sandboxed-Yields c k _ (write_mem-Sandboxed alloc buf runs))
                              (λ addr q. give-Yields c k _ _ guest))))))

        pub run_contract-Sandboxed :
            (input : AppInput) (args : List ℕ) (m : e.wm.State)
            → Sandboxed c k (run_contract t c input args code m)
        unfolding run_contract
        run_contract-Sandboxed input args m =
            Yields-Sandboxed c k (λ a. Unit) _
              (bind-Yields c k _ _ _ _ (prepare-Yields _ input args m) (λ r guest.
                bind-Yields c k (λ run. EachRuns g c k (ok run)) _ _ _
                  (found-Yields _ r.0.run (λ a h. subst (EachRuns g c k) h guest.run_runs))
                  (λ run runs. Sandboxed-Yields c k _ (
                    bind-Sandboxed c k _ _
                      (traps_as-Sandboxed g c k confined _ _ (λ s. runs _ _ _ _ s))
                      (λ wslice.
                        bind-Sandboxed c k _ _ update-Sandboxed
                          (λ done. result-Sandboxed wslice))))))

        pub ask_contract-Sandboxed :
            (input : AppInput) (args : List ℕ) (m : e.wm.State)
            → Sandboxed c k (ask_contract t c input args code m)
        unfolding ask_contract
        ask_contract-Sandboxed input args m =
            Yields-Sandboxed c k (λ a. Unit) _
              (bind-Yields c k _ _ _ _ (prepare-Yields _ input args m) (λ r guest.
                bind-Yields c k (λ ask. EachRuns g c k (ok ask)) _ _ _
                  (found-Yields _ r.0.is_callable
                    (λ a h. subst (EachRuns g c k) h guest.is_callable_runs))
                  (λ ask runs. Sandboxed-Yields c k _ (
                    bind-Sandboxed c k _ _
                      (traps_as-Sandboxed g c k confined _ _ (λ s. runs _ _ _ _ s))
                      (λ answer.
                        bind-Sandboxed c k _ _ update-Sandboxed
                          (λ done. give-Sandboxed c k answer))))))
