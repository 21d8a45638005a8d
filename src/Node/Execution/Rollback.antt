-- ===== src/Node/Execution/Rollback.antt =====
-- What a transaction that fails leaves of the fork. `D` is the database that the fork reads as when the
-- transaction starts.
use trinci.Base.{ℕ, false, ◌≡◌, refl, ◌∙◌, ◌⊎◌, inl, inr, Option, List, String, String_eq}
use trinci.Base.Result.{Result, ok, err}
use trinci.Crypto.Hash.{Hash}
use trinci.Node.Identity.{Identity}
use trinci.Node.Database.{Database}
use trinci.Node.Errors.{WasmError}
use trinci.Node.Machine.{CallArgs, CtxArgs}
use trinci.Node.Transactions.{get_network, TransactionData}
use trinci.Node.Execution.State.{
  HandleTransactionReturns, Setting, World, app_hash_check, call, reads, rollback,
}
use trinci.Node.Execution.Triples.{
  Triple, Triple-bind, Triple-found, Triple-give, Triple-if, Triple-lift,
}
use trinci.Node.Execution.Units.{
  known_unit, is_foreign, foreign_unit, call_contract, handle_unit_transaction, judge, refused,
}

module _ ⦃i : Identity⦄ ⦃e : Setting⦄ (D : Database e.indexes) where
  -- A rollback leads to `D`.
  abbrev pub IsSaved : World e → Type 0
  IsSaved s = e.forks.saved s.fork ≡ D

  -- The fork reads as `D` too.
  abbrev pub IsClean : World e → Type 0
  IsClean s = (e.forks.view s.fork ≡ D) × IsSaved s

  -- The fork is as the check of a contract left it, which was made where the fork read as `D`, and which
  -- refused the contract.
  abbrev pub IsRefused : e.forks.Fork → Type 0
  IsRefused fork =
      (hash : Option Hash) × (args : CtxArgs e.indexes) × (time : ℕ) × (machine : e.wm.State)
      × (start : e.forks.Fork) × (error : WasmError) × (e.forks.view start ≡ D)
      × ((e.wm.app_hash_check hash args time machine start).0 ≡ err error)
      × ((e.wm.app_hash_check hash args time machine start).2 ≡ fork)

  abbrev pub IsRestored : World e → Type 0
  IsRestored s = (e.forks.view s.fork ≡ D) ⊎ IsRefused s.fork

  abbrev pub Checked : Result WasmError Hash → World e → Type 0
  Checked r s = IsSaved s × ((error : WasmError) → r ≡ err error → IsRefused s.fork)

  pub Triple-reads :
      {A : Type 0} (f : Database e.indexes → A) (P : World e → Type 0) → Triple P (reads f) (λ a. P)
  unfolding reads
  Triple-reads f P = record { at = λ s p. p }

  pub Triple-call : (args : CallArgs e.indexes) → Triple IsSaved (call args) (λ a. IsSaved)
  unfolding call
  Triple-call args = record { at = λ s p. e.wm.saved-call args s.machine s.fork ∙ p }

  pub Triple-check :
      (hash : Option Hash) (args : CtxArgs e.indexes) (time : ℕ)
      → Triple IsClean (app_hash_check hash args time) Checked
  unfolding app_hash_check
  Triple-check hash args time = record {
    at = λ s p. (
      e.wm.saved-check hash args time s.machine s.fork ∙ p.1,
      λ error h. (hash, args, time, s.machine, s.fork, error, p.0, h, refl),
    );
  }

  pub Triple-rollback : Triple IsSaved rollback (λ a. IsClean)
  unfolding rollback
  Triple-rollback = record {
    at = λ s p. (e.forks.view-rollback s.fork ∙ p, e.forks.saved-rollback s.fork ∙ p);
  }

  -- What is left of a transaction that did not succeed.
  abbrev pub Left : HandleTransactionReturns → World e → Type 0
  Left r s = IsSaved s × (r.receipt.success ≡ false → IsRestored s)

  judge_lem :
      (r : Result WasmError (List ℕ))
      → Triple IsSaved (judge r) (λ v s. IsSaved s × (v.0 ≡ false → IsRestored s))
  unfolding judge
  judge_lem (ok value) = Triple-give _ (λ s p. (p, λ h. cc))
  judge_lem (err error) =
      Triple-bind (λ a. IsClean) rollback _ Triple-rollback
        (λ u. Triple-lift _ _ (λ text. Triple-give _ (λ s p. (p.1, λ h. inl p.0))))

  call_contract-Left :
      (d : TransactionData) (caller : String) (app_hash : Hash) (limit height index time : ℕ)
      → Triple IsSaved (call_contract d caller app_hash limit height index time) Left
  unfolding call_contract
  call_contract-Left d caller app_hash limit height index time = Triple-lift _ _ (λ method.
      Triple-lift _ _ (λ args.
        Triple-bind (λ a. IsSaved) (call _) _ (Triple-call _)
          (λ called.
            Triple-bind _ (judge called.result) _ (judge_lem called.result)
              (λ verdict. Triple-give _ (λ s p. p)))))

  after_check :
      (d : TransactionData) (caller : String) (limit height index time : ℕ)
      (r : Result WasmError Hash)
      → Triple
          (Checked r)
          (elim r [
            | ok app_hash ↦ call_contract d caller app_hash limit height index time
            | err error ↦ refused d caller height index error
          ])
          Left
  unfolding refused
  after_check d caller limit height index time (ok app_hash) = record {
    at = λ s p. (call_contract-Left d caller app_hash limit height index time).at s p.0;
  }
  after_check d caller limit height index time (err error) =
      Triple-lift _ _ (λ text. Triple-give _ (λ s p. (p.0, λ h. inr (p.1 error refl))))

  foreign_unit-Left :
      (d : TransactionData) (height index : ℕ) → Triple IsClean (foreign_unit d height index) Left
  unfolding foreign_unit
  foreign_unit-Left d height index =
      Triple-found _ _ _ (λ caller. Triple-give _ (λ s p. (p.1, λ h. inl p.0)))

  known_unit-Left :
      (d : TransactionData) (height index time : ℕ)
      → Triple IsClean (known_unit d height index time) Left
  unfolding known_unit
  known_unit-Left d height index time = Triple-found _ _ _ (λ caller.
      Triple-bind (λ a. IsClean) (reads _) _ (Triple-reads _ IsClean)
        (λ limit. Triple-lift _ _ (λ contract.
          Triple-bind Checked (app_hash_check _ _ _) _ (Triple-check _ _ _)
            (after_check d caller limit height index time))))

  pub handle_unit_transaction-Left :
      (network_name : String) (d : TransactionData) (height index time : ℕ)
      → Triple IsClean (handle_unit_transaction network_name d height index time) Left
  unfolding handle_unit_transaction
  handle_unit_transaction-Left network_name d height index time =
      Triple-if (is_foreign (get_network d) network_name height) (foreign_unit d height index)
        (known_unit d height index time) (λ foreign. foreign_unit-Left d height index)
        (λ known. known_unit-Left d height index time)
