-- ===== src/Services/Blocks/Missing.antt =====
-- What `collect_missing_txs` ends with.
use trinci.Base.{
  [], ◌∷◌, length, contains, true, ◌⊎◌, sym, ◌<◌, subst, ap, any, All, Option-cases, false, ℕ, zero,
  suc, ◌+◌, ◌≡◌, refl, ◌∙◌, Bool-cases, inl, inr, Option, none, some, List, arith,
}
use trinci.Base.Result.{ok, err}
use trinci.Crypto.Hash.{Hash, Hash_eq}
use trinci.Artifacts.Models.{Chain}
use trinci.Artifacts.Messages.{Msg, PoolTx, Req, Service, send}
use trinci.Services.Blocks.State.{BlockService, ChainError, CoreError, Outside, emit}
use trinci.Services.Blocks.Execution.{hash_of, is_unwanted, collect_missing_txs, is_unfit, txs_in}
use trinci.Services.Blocks.Attempts.{first_fit, collect_missing_txs-first_fit, first_fit-some}

module _ ⦃c : Chain⦄ where
  open c use {transactable}

  -- As many transactions as were asked for, all of them valid and asked for.
  abbrev pub IsFit : List Hash → List (PoolTx c) → Type 0
  IsFit missing txs =
      All (λ tx. (transactable.verify tx.0 ≡ true) × (contains missing (hash_of tx) ≡ true)) txs
      × (length txs ≡ length missing)

  -- An error, a response of another kind, or transactions that do not fit.
  abbrev pub IsUnfit : List Hash → Option (List (PoolTx c)) → Type 0
  IsUnfit missing none = Unit
  IsUnfit missing (some txs) = ¬ (IsFit missing txs)

  abbrev pub response_txs : Outside c → List Hash → ℕ → Option (List (PoolTx c))
  response_txs o missing n = txs_in (o.response n Service.node_interface (Req.get_txs missing))

  -- The responses to so many requests from number `n` on.
  abbrev pub AllUnfit : Outside c → List Hash → ℕ → ℕ → Type 0
  AllUnfit o missing n zero = Unit
  AllUnfit o missing n (suc left) =
      IsUnfit missing (response_txs o missing n) × AllUnfit o missing (n + 1) left

  wanted-All :
      (missing : List Hash) (txs : List (PoolTx c))
      → any (is_unwanted missing) txs ≡ false
      → All (λ tx. (transactable.verify tx.0 ≡ true) × (contains missing (hash_of tx) ≡ true)) txs
  wanted-All missing [] h = tt
  wanted-All missing (tx ∷ txs) h =
      ((ground (arith, h), ground (arith, h)), wanted-All missing txs (ground (arith, h)))

  All-wanted :
      (missing : List Hash) (txs : List (PoolTx c))
      → All (λ tx. (transactable.verify tx.0 ≡ true) × (contains missing (hash_of tx) ≡ true)) txs
      → any (is_unwanted missing) txs ≡ false
  All-wanted missing [] h = refl
  All-wanted missing (tx ∷ txs) ((v, w), rest) = ground (arith, v, w, All-wanted missing txs rest)

  pub is_unfit-IsFit :
      (missing : List Hash) (txs : List (PoolTx c))
      → is_unfit missing txs ≡ false
      → IsFit missing txs
  unfolding is_unfit
  is_unfit-IsFit missing txs h = (wanted-All missing txs (ground (arith, h)), ground (arith, h))

  IsFit-is_unfit :
      (missing : List Hash) (txs : List (PoolTx c))
      → IsFit missing txs
      → is_unfit missing txs ≡ false
  unfolding is_unfit
  IsFit-is_unfit missing txs (wanted, same) = ground (arith, All-wanted missing txs wanted, same)

  -- The first fit response is found, or there is none.
  abbrev FirstOf : Outside c → List Hash → ℕ → ℕ → Type 0
  FirstOf o missing n left =
      ((i : ℕ) × (txs : List (PoolTx c)) × (i < left)
        × AllUnfit o missing n i
        × (response_txs o missing (n + i) ≡ some txs)
        × IsFit missing txs
        × (first_fit o missing n left ≡ some (n + i, txs)))
      ⊎ (AllUnfit o missing n left × (first_fit o missing n left ≡ none))

  FirstOf-later :
      (o : Outside c) (missing : List Hash) (n left : ℕ)
      → IsUnfit missing (response_txs o missing n)
      → first_fit o missing n (suc left) ≡ first_fit o missing (n + 1) left
      → FirstOf o missing (n + 1) left
      → FirstOf o missing n (suc left)
  FirstOf-later o missing n left unfit same (inr (none_fit, absent)) =
      inr ((unfit, none_fit), same ∙ absent)
  FirstOf-later o missing n left unfit same (inl (i, txs, h, earlier, there, good, found)) =
      let e : n + 1 + i ≡ n + suc i = omega arith in
      inl (
        suc i,
        txs,
        omega (arith, h),
        (unfit, earlier),
        rw (← e) there,
        good,
        same ∙ found ∙ ap (λ x. some (x, txs)) e,
      )

  first_fit-FirstOf : (o : Outside c) (missing : List Hash) (n left : ℕ) → FirstOf o missing n left
  unfolding first_fit
  first_fit-FirstOf o missing n zero = inr (tt, refl)
  first_fit-FirstOf o missing n (suc left) =
      let rec = first_fit-FirstOf o missing (n + 1) left in
      elim (Option-cases (response_txs o missing n)) [
        | inl absent ↦
            FirstOf-later o missing n left (subst (IsUnfit missing) (sym absent) tt)
              (rw (first_fit, absent) refl) rec
        | inr (txs, there) ↦ elim (Bool-cases (is_unfit missing txs)) [
          | inl unfit ↦
              FirstOf-later o missing n left
                (subst (IsUnfit missing) (sym there)
                  (λ good. let h = IsFit-is_unfit missing txs good in cc))
                (rw (first_fit, there, unfit) refl) rec
          | inr good ↦
              let e : n ≡ n + 0 = omega arith in
              inl (
                0,
                txs,
                omega arith,
                tt,
                ap (response_txs o missing) (sym e) ∙ there,
                is_unfit-IsFit missing txs good,
                rw (first_fit, there, good) (ap (λ x. some (x, txs)) e),
              )
        ]
      ]

  -- With so many attempts left: for the first response with as many transactions as were asked for, all of
  -- them valid and asked for, the call hands them on and sends no further request; where no response of these
  -- attempts is so, it ends in `MissingTxsError`, with the outbox as it was.
  pub collect_missing_txs_lem :
      (o : Outside c) (left : ℕ) (missing : List Hash) (s : BlockService c)
      → ((i : ℕ) × (txs : List (PoolTx c)) × (i < left)
          × AllUnfit o missing s.asked i
          × (response_txs o missing (s.asked + i) ≡ some txs)
          × IsFit missing txs
          × (collect_missing_txs o left missing s ≡ (
            ok tt,
            emit
                (send Service.transaction_service (Msg.add_txs txs))
                (record s { asked = s.asked + i + 1 }),
          )))
        ⊎ (AllUnfit o missing s.asked left
            × (collect_missing_txs o left missing s ≡ (
              err (CoreError.chain_error ChainError.missing_txs_error),
              record s { asked = s.asked + left },
            )))
  collect_missing_txs_lem o left missing s =
      let e = collect_missing_txs-first_fit o left missing s in
      elim (first_fit-FirstOf o missing s.asked left) [
        | inl (i, txs, h, earlier, there, good, found) ↦
            inl (i, txs, h, earlier, there, good, e ∙ rw found refl)
        | inr (none_fit, absent) ↦ inr (none_fit, e ∙ rw absent refl)
      ]

  -- Where the call succeeds, it has handed on the transactions of one fit response.
  pub collect_missing_txs-ok :
      (o : Outside c) (left : ℕ) (missing : List Hash) (s : BlockService c)
      → (collect_missing_txs o left missing s).0 ≡ ok tt
      → (i n : ℕ) × (txs : List (PoolTx c)) × ((collect_missing_txs o left missing s).1
          ≡ emit (send Service.transaction_service (Msg.add_txs txs)) (record s { asked = n }))
        × (txs_in (o.response i Service.node_interface (Req.get_txs missing)) ≡ some txs)
        × (is_unfit missing txs ≡ false)
  collect_missing_txs-ok o left missing s h =
      let e = collect_missing_txs-first_fit o left missing s in
      elim (Option-cases (first_fit o missing s.asked left)) [
        | inl absent ↦ let h' = rw (e, absent) at h in cc
        | inr ((i, txs), there) ↦
            let (given, good) = first_fit-some o missing left s.asked i txs there in
            (i, i + 1, txs, rw (e, there) refl, given, good)
      ]
