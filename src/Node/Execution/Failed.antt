-- ===== src/Node/Execution/Failed.antt =====
-- The execution of a transaction: where it fails, the fork is as before, but for the burning of its fuel and a check
-- that refused its contract.
use trinci.Base.{
  none, subst, some, [], ◌⊎◌, ◌==◌, ◌∙◌, ℕ, Bool, false, ◌≡◌, refl, inl, inr, Option, List, String,
  String_eq,
}
use trinci.Base.Result.{Result, ok}
use trinci.Crypto.Hash.{Hash}
use trinci.Node.Identity.{Identity}
use trinci.Node.Database.{Receipt, Database}
use trinci.Node.Errors.{WasmError}
use trinci.Node.Transactions.{Transaction}
use trinci.Node.Execution.State.{
  Reply, flush, HandleTransactionReturns, Setting, World, call, give, reads, rollback,
}
use trinci.Node.Execution.Triples.{
  Triple-from, Post, Triple, Triple-bind, Triple-give, Triple-if, Triple-weaken,
}
use trinci.Node.Execution.Transactions.{
  by_contract, burn_outcome, unpaid, execute_transaction, charge, call_service, call_burn_fuel,
  burn_by, burn, handle_transaction,
}
use trinci.Node.Execution.Rollback.{
  IsClean, IsRestored, IsSaved, Left, Triple-call, Triple-reads, Triple-rollback,
}
use trinci.Node.Execution.Atomic.{handle_transaction-Left}
use trinci.Node.Account.{Account}
use trinci.Node.Execution.Saves.{Saves}

module _ ⦃i : Identity⦄ ⦃e : Setting⦄ (D : Database e.indexes) where
  -- The fork is as the burning of the fuel left it, which started where the transaction was undone.
  abbrev pub IsPaid : String → ℕ → World e → Type 0
  IsPaid method time s =
      (before : World e) × (account : String) × (fuel : ℕ) × (result : Result WasmError (List ℕ))
      × IsRestored D before
      × (call_burn_fuel method account fuel time before ≡ Reply.done result s)

  abbrev Burnt : String → ℕ → HandleTransactionReturns → World e → Type 0
  Burnt method time res s =
      IsSaved D s × (res.receipt.success ≡ false → IsRestored D s ⊎ IsPaid method time s)

  Saves-by_contract :
      (method origin : String) (fuel time : ℕ) (contract : Option Hash)
      → Saves D (by_contract method origin fuel time contract)
  unfolding call_service
  Saves-by_contract method origin fuel time none = Triple-give _ (λ s p. p)
  Saves-by_contract method origin fuel time (some contract) =
      Triple-bind (λ a. IsSaved D) (call _) _ (Triple-call D _) (λ called. Triple-give _ (λ s p. p))

  Saves-burn_by :
      (method origin : String) (fuel time : ℕ) (account : Option Account)
      → Saves D (burn_by method origin fuel time account)
  unfolding burn_by
  Saves-burn_by method origin fuel time none = Triple-give _ (λ s p. p)
  Saves-burn_by method origin fuel time (some account) =
      Saves-by_contract method origin fuel time account.contract

  Saves-call_burn_fuel :
      (method origin : String) (fuel time : ℕ) → Saves D (call_burn_fuel method origin fuel time)
  unfolding call_burn_fuel
  Saves-call_burn_fuel method origin fuel time =
      Triple-bind (λ a. IsSaved D) (reads _) _ (Triple-reads D _ (IsSaved D))
        (λ account. Saves-burn_by method origin fuel time account)

  burn-Burnt :
      (method : String) (time : ℕ) (res : HandleTransactionReturns)
      → Triple (Left D res) (burn method res.burn_fuel_args time) (λ b. Burnt method time res)
  unfolding burn
  burn-Burnt method time res =
      let account = res.burn_fuel_args.account in
      let fuel = res.burn_fuel_args.fuel_to_burn in
      let pays = call_burn_fuel method account fuel time in
      Triple-if (method == "") (give (ok [])) pays
        (λ unset. Triple-give _ (λ s p. (p.0, λ h. inl (p.1 h))))
        (λ set.
          Triple-weaken pays
            (Triple-from {Q = λ a. IsSaved D} pays
              (record { at = λ s p. (Saves-call_burn_fuel method account fuel time).at s p.0 }))
            (λ result s q. (q.0, λ h. inr (q.1.0, account, fuel, result, q.1.1.1 h, q.1.2))))

  charge-Burnt :
      (method : String) (time height index : ℕ) (res : HandleTransactionReturns) (b : Bool × ℕ)
      → Triple
          (Burnt method time res)
          (charge height index res b)
          (λ r s. r.success ≡ false → IsRestored D s ⊎ IsPaid method time s)
  unfolding charge unpaid
  charge-Burnt method time height index res (burn_ok, units) =
      Triple-if _ (unpaid height index res) (give _)
        (λ refused.
          Triple-bind (λ a. IsClean D) rollback _
            (record { at = λ s p. (Triple-rollback D).at s p.0 })
            (λ u. Triple-give _ (λ s p h. inl (inl p.0))))
        (λ paid. Triple-give _ (λ s p. p.1))

  flush-Clean : Triple (λ s. e.forks.view s.fork ≡ D) flush (λ a. IsClean D)
  unfolding flush
  flush-Clean = record {
    at = λ s p. (e.forks.view-flush s.fork ∙ p, e.forks.saved-flush s.fork ∙ p);
  }

  execute_transaction-Burnt :
      (network_name method : String) (tx : Transaction) (height index time : ℕ)
      → Triple
          (λ s. e.forks.view s.fork ≡ D)
          (execute_transaction network_name method tx height index time)
          (λ r s. r.success ≡ false → IsRestored D s ⊎ IsPaid method time s)
  unfolding execute_transaction
  execute_transaction-Burnt network_name method tx height index time =
      Triple-bind (λ a. IsClean D) flush _ flush-Clean
        (λ u.
          Triple-bind (Left D) (handle_transaction network_name tx height index time) _
            (handle_transaction-Left D network_name tx height index time)
            (λ res.
              Triple-bind (λ b. Burnt method time res) (burn method res.burn_fuel_args time) _
                (burn-Burnt method time res)
                (λ b. charge-Burnt method time height index res (burn_outcome b))))

module _ ⦃i : Identity⦄ ⦃e : Setting⦄ where
  -- Where the execution of a transaction ends in a receipt without success, the fork reads as before the
  -- transaction; or it is as the check of a contract left it, which was made where the fork read so and
  -- refused the contract; or it is as the burning of the fuel left it, which started in one of these.
  pub execute_transaction-restores :
      (network_name method : String) (tx : Transaction) (height index time : ℕ) (s s' : World e)
      (r : Receipt)
      → execute_transaction network_name method tx height index time s ≡ Reply.done r s'
      → r.success ≡ false
      → IsRestored (e.forks.view s.fork) s' ⊎ IsPaid (e.forks.view s.fork) method time s'
  execute_transaction-restores network_name method tx height index time s s' r done =
      subst
        (Post (λ r s'.
          r.success ≡ false
          → IsRestored (e.forks.view s.fork) s' ⊎ IsPaid (e.forks.view s.fork) method time s'))
        done
        ((execute_transaction-Burnt (e.forks.view s.fork) network_name method tx height index
            time).at
          s refl)
