-- ===== src/Services/Blocks/Attempts.antt =====
-- The attempts of `collect_missing_txs`, one after another, by the test of the code.
use trinci.Base.{
  Option-cases, false, ℕ, zero, suc, ◌+◌, ◌≡◌, refl, ◌∙◌, Bool-cases, inl, inr, Option, none, some,
  List, if◌then◌else◌, arith,
}
use trinci.Base.Result.{Result, ok, err}
use trinci.Crypto.Hash.{Hash, Hash_eq}
use trinci.Artifacts.Models.{Chain}
use trinci.Artifacts.Messages.{Msg, PoolTx, Req, Service, send}
use trinci.Services.Blocks.State.{BlockService, ChainError, CoreError, Outside, emit}
use trinci.Services.Blocks.Execution.{hand_on, collect_missing_txs, is_unfit, txs_in}

module _ ⦃c : Chain⦄ where
  -- The transactions of a response that passes the test.
  abbrev pub fit : List Hash → Option (List (PoolTx c)) → Option (List (PoolTx c))
  fit missing none = none
  fit missing (some txs) = if is_unfit missing txs then none else some txs

  -- The first of so many requests, from number `n` on, whose response is fit, with its number.
  unfoldable pub first_fit : Outside c → List Hash → ℕ → ℕ → Option (ℕ × List (PoolTx c))
  first_fit o missing n zero = none
  first_fit o missing n (suc left) =
      let later = first_fit o missing (n + 1) left in
      elim (fit missing (txs_in (o.response n Service.node_interface (Req.get_txs missing)))) [
        | none ↦ later
        | some txs ↦ some (n, txs)
      ]

  -- The transactions are handed on, or the attempts are used up.
  abbrev pub concluded :
      Option (ℕ × List (PoolTx c)) → ℕ → BlockService c → Result CoreError Unit × BlockService c
  concluded none n s =
      (err (CoreError.chain_error ChainError.missing_txs_error), record s { asked = n })
  concluded (some (i, txs)) n s = (
    ok tt,
    emit (send Service.transaction_service (Msg.add_txs txs)) (record s { asked = i + 1 }),
  )

  concluded-asked :
      (r : Option (ℕ × List (PoolTx c))) (n k : ℕ) (s : BlockService c)
      → concluded r n (record s { asked = k }) ≡ concluded r n s
  unfolding emit
  concluded-asked none n k s = refl
  concluded-asked (some (i, txs)) n k s = refl

  -- One attempt, from its response.
  attempt-fit :
      (r : Option (List (PoolTx c))) (missing : List Hash) (left : ℕ) (o : Outside c)
      (s : BlockService c)
      → collect_missing_txs o left missing (record s { asked = s.asked + 1 })
        ≡ concluded (first_fit o missing (s.asked + 1) left) (s.asked + 1 + left) s
      → hand_on missing (collect_missing_txs o left missing) r (record s { asked = s.asked + 1 })
        ≡ concluded
            (elim (fit missing r) [
              | none ↦ first_fit o missing (s.asked + 1) left
              | some txs ↦ some (s.asked, txs)
            ])
            (s.asked + 1 + left)
            s
  unfolding emit
  attempt-fit none missing left o s h = h
  attempt-fit (some txs) missing left o s h = elim (Bool-cases (is_unfit missing txs)) [
    | inl unfit ↦ rw unfit h
    | inr good ↦ rw good refl
  ]

  pub collect_missing_txs-first_fit :
      (o : Outside c) (left : ℕ) (missing : List Hash) (s : BlockService c)
      → collect_missing_txs o left missing s
        ≡ concluded (first_fit o missing s.asked left) (s.asked + left) s
  unfolding collect_missing_txs first_fit
  collect_missing_txs-first_fit o zero missing s =
      let e : s.asked + 0 ≡ s.asked = omega arith in rw e refl
  collect_missing_txs-first_fit o (suc left) missing s =
      let e : s.asked + suc left ≡ s.asked + 1 + left = omega arith in
      rw e (
        attempt-fit (txs_in (o.response s.asked Service.node_interface (Req.get_txs missing)))
          missing left o s
          (collect_missing_txs-first_fit o left missing (record s { asked = s.asked + 1 })
            ∙ concluded-asked (first_fit o missing (s.asked + 1) left) _ _ s))

  -- What the first fit response is.
  pub first_fit-some :
      (o : Outside c) (missing : List Hash) (left n i : ℕ) (txs : List (PoolTx c))
      → first_fit o missing n left ≡ some (i, txs)
      → (txs_in (o.response i Service.node_interface (Req.get_txs missing)) ≡ some txs)
        × (is_unfit missing txs ≡ false)
  unfolding first_fit
  first_fit-some o missing zero n i txs h = cc
  first_fit-some o missing (suc left) n i txs h =
      elim (Option-cases (txs_in (o.response n Service.node_interface (Req.get_txs missing)))) [
        | inl absent ↦ first_fit-some o missing left (n + 1) i txs (rw (first_fit, absent) at h)
        | inr (txs', there) ↦ elim (Bool-cases (is_unfit missing txs')) [
          | inl unfit ↦
              first_fit-some o missing left (n + 1) i txs (rw (first_fit, there, unfit) at h)
          | inr good ↦
              let same : Path (Option (ℕ × List (PoolTx c))) (some (n, txs')) (some (i, txs)) =
                rw (first_fit, there, good) at h in
              let number : n ≡ i = cc in
              let given : txs' ≡ txs = cc in (rw (← number, ← given) there, rw (← given) good)
        ]
      ]
