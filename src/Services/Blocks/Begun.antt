-- ===== src/Services/Blocks/Begun.antt =====
-- What a successful `begin_execution` has sent.
use trinci.Base.{
  none, inl, inr, ◌+◌, ℕ, Bool-cases, true, false, not, ◌≡◌, refl, ap, ◌∙◌, List, ◌∷◌, ◌==◌, ℕ_eq,
  contains, length, map, retain, some,
}
use trinci.Base.Result.{Result, ok, err}
use trinci.Crypto.Hash.{Hash, Hash_eq}
use trinci.Artifacts.Models.{Chain}
use trinci.Artifacts.Messages.{Effect, Msg, PoolTx, Req, Res, Service, send}
use trinci.Services.Blocks.State.{
  give, received, CommError, BlockService, Call, CoreError, Outside, ◌>>=◌, continue, emit, gets,
  send_msg,
}
use trinci.Services.Blocks.Execution.{
  hashes_in, collect_missing_txs, begin_execution, execute_with, is_unfit, txs_in,
}
use trinci.Consts.{max_req_attempts}
use trinci.Services.Blocks.Missing.{collect_missing_txs-ok}

-- The hashes that the pool does not know.
abbrev pub missing_of : List Hash → List Hash → List Hash
missing_of unconfirmed ks = retain (λ hash. not (contains unconfirmed hash)) ks

module _ ⦃c : Chain⦄ (o : Outside c) where
  open c use {Block}

  abbrev collecting : Block → ℕ → List Hash → Effect c
  collecting b r ks = send Service.transaction_service (Msg.collect_block_txs b r ks)

  -- Nothing is missing, or the transactions of a fit response are sent in front.
  pub data Sent (b : Block) (ks unconfirmed : List Hash) (s : BlockService c)
      (out : List (Effect c)) : Type 0 where
    complete :
        (length (missing_of unconfirmed ks) == 0) ≡ true
        → out ≡ collecting b s.actual_round ks ∷ s.outbox
        → Sent b ks unconfirmed s out
    fetched :
        (i : ℕ) (txs : List (PoolTx c))
        → txs_in (o.response i Service.node_interface (Req.get_txs (missing_of unconfirmed ks)))
          ≡ some txs
        → is_unfit (missing_of unconfirmed ks) txs ≡ false
        → out
          ≡ collecting b s.actual_round ks
            ∷ send Service.transaction_service (Msg.add_txs txs)
            ∷ s.outbox
        → Sent b ks unconfirmed s out

  abbrev collect_after : Block → List Hash → Call c Unit
  collect_after b ks = gets (λ s. s.actual_round) >>= λ round.
      send_msg Service.transaction_service (Msg.collect_block_txs b round ks)

  executed :
      (b : Block) (ks : List Hash) (r : Result CoreError Unit × BlockService c)
      → (continue r (λ _. collect_after b ks)).0 ≡ ok tt
      → (r.0 ≡ ok tt)
        × ((continue r (λ _. collect_after b ks)).1.outbox
            ≡ collecting b r.1.actual_round ks ∷ r.1.outbox)
  unfolding gets emit ◌>>=◌
  executed b ks (ok u, s) h = (refl, refl)
  executed b ks (err e, s) h = cc

  emitted :
      (b : Block) (ks : List Hash) (txs : List (PoolTx c)) (s : BlockService c) (n : ℕ)
      → let t =
          emit (send Service.transaction_service (Msg.add_txs txs)) (record s { asked = n }) in
        (collecting b t.actual_round ks ∷ t.outbox) ≡ (
          collecting b s.actual_round ks
          ∷ send Service.transaction_service (Msg.add_txs txs)
          ∷ s.outbox)
  unfolding emit
  emitted b ks txs s n = refl

  abbrev execute_after : Block → List Hash → Res c → Call c Unit
  execute_after b ks answer = elim (hashes_in answer) [
    | none ↦ give tt
    | some hashes ↦ execute_with o b ks (map (λ entry. entry.0) hashes)
  ]

  execute_with-Sent :
      (b : Block) (ks unconfirmed : List Hash) (s : BlockService c)
      → (execute_with o b ks unconfirmed s).0 ≡ ok tt
      → Sent b ks unconfirmed s (execute_with o b ks unconfirmed s).1.outbox
  unfolding execute_with
  execute_with-Sent b ks unconfirmed s h =
      let missing = missing_of unconfirmed ks in
      elim (Bool-cases (length missing == 0)) [
        | inl nothing ↦
            Sent.complete nothing (rw nothing (executed b ks (ok tt, s) (rw nothing at h)).1)
        | inr some_missing ↦
            let (done, out) =
              executed b ks (collect_missing_txs o (max_req_attempts + 1) missing s)
                (rw some_missing at h) in
            let (i, n, txs, after, given, good) =
              collect_missing_txs-ok o (max_req_attempts + 1) missing s done in
            Sent.fetched i txs given good (
              rw some_missing (
                out
                ∙ ap (λ (t : BlockService c). collecting b t.actual_round ks ∷ t.outbox) after
                ∙ emitted b ks txs s n))
      ]

  begun :
      (b : Block) (ks : List Hash) (known : List (Hash × ℕ)) (r : Result CommError (Res c))
      (s : BlockService c)
      → r ≡ ok (Res.get_unconfirmed_hashes known)
      → (continue (received r, s) (execute_after b ks)).0 ≡ ok tt
      → Sent b ks
          (map (λ entry. entry.0) known)
          s
          (continue (received r, s) (execute_after b ks)).1.outbox
  begun b ks known r s e h = rw e (execute_with-Sent b ks _ s (rw e at h))

  -- Where the transaction service has responded with these hashes and the call succeeds.
  pub begin_execution-Sent :
      (b : Block) (ks : List Hash) (known : List (Hash × ℕ)) (s : BlockService c)
      → o.response s.asked Service.transaction_service Req.get_unconfirmed_hashes
        ≡ ok (Res.get_unconfirmed_hashes known)
      → (begin_execution o b ks s).0 ≡ ok tt
      → Sent b ks
          (map (λ entry. entry.0) known)
          (record s { asked = s.asked + 1 })
          (begin_execution o b ks s).1.outbox
  unfolding begin_execution
  begin_execution-Sent b ks known s e h = begun b ks known _ _ e h
