-- ===== src/Services/Blocks/Sound.antt =====
-- What `BlockService` sends for execution while it handles a message.
use trinci.Base.{
  Bool, All, if_cases, zero, none, false, all, ◌∷◌, ◌&&◌, [], ◌+◌, suc, ltb, Option, Bool-cases,
  true, ◌≡◌, inl, inr, refl, ℕ, some, List, ◌==◌, String, String_eq, ℕ_eq, not,
}
use trinci.Base.Result.{Result, ok, err}
use trinci.Crypto.Hash.{Hash_eq}
use trinci.Services.Blocks.Kept
use trinci.Artifacts.Models.{FullBlock, Chain}
use trinci.Services.Blocks.State.{emit, Call, CoreError, BlockService, Outside}
use trinci.Services.Blocks.Chained.{
  IsSound, build_block-Chained, send-Chained, emit-Chained, flags-Chained, asked-Chained, Chained,
}
use trinci.Artifacts.Messages.{spawn_alignment, Msg, Req, Service}
use trinci.Base.Words.{wrapping_add}
use trinci.Services.Blocks.Alignment.{
  max_by_key, full_block_in, neighbors_in, Candidate, take_full_block, spawn_alignment_thread,
  retrieve_alignment_block, best_last_block, ask_neighbors, align,
}
use trinci.Services.Blocks.Handlers.{
  stop_aligning, handle_messages, says_leader, leader_timeout, stop_building,
  verify_if_leader_and_build, try_build, on_error,
}
use trinci.Services.Blocks.Execution.{build_block}
use trinci.Consts.{max_req_attempts}
use trinci.Services.Blocks.Checked.{verify_ext_block-Chained}

module _ ⦃c : Chain⦄ where
  -- The messages that change the height, the last hash or the round.
  abbrev pub is_move : Msg c → Bool
  is_move (Msg.block_consolidated b ks players) = true
  is_move (Msg.refresh_round r) = true
  is_move _ = false

module _ ⦃c : Chain⦄ (o : Outside c) (at : BlockService c) where
  open c use {executable, confirmable}

  take_full_block-Chained : (f : FullBlock c) → Kept.Kept (Chained o at) (take_full_block o f)
  unfolding take_full_block
  take_full_block-Chained f =
      Kept.Kept-if (executable.verify f.block && all confirmable.verify f.confirmations) _ _
        (λ good. Kept.Kept-then _ _ (send-Chained o at _ _ tt) (
          Kept.Kept-then _ _ (send-Chained o at _ _ tt)
            (verify_ext_block-Chained o at f.block _ f.confirmations)))
        (λ bad. Kept.Kept-fail _)

  retrieve-given :
      (r : Option (FullBlock c)) (again : Call c Unit)
      → Kept.Kept (Chained o at) again
      → Kept.Kept
          (Chained o at)
          (elim r [ none ↦ again | some full_block ↦ take_full_block o full_block ])
  retrieve-given none again h = h
  retrieve-given (some full_block) again h = take_full_block-Chained full_block

  retrieve_alignment_block-Chained :
      (left : ℕ) (peers : List String)
      → Kept.Kept (Chained o at) (retrieve_alignment_block o left peers)
  unfolding retrieve_alignment_block
  retrieve_alignment_block-Chained zero peers = Kept.Kept-fail _
  retrieve_alignment_block-Chained (suc left) peers =
      Kept.Kept-state (λ s. wrapping_add s.height 1) _
        λ s v.
          Kept.Kept-reply o Service.node_interface _ _ (asked-Chained o at)
            λ r. retrieve-given (full_block_in r) _ (retrieve_alignment_block-Chained left peers)

  ask_neighbors-Chained :
      (neighbors : List String) (candidates : List Candidate)
      → Kept.Kept (Chained o at) (ask_neighbors o neighbors candidates)
  unfolding ask_neighbors
  ask_neighbors-Chained [] candidates = Kept.Kept-give candidates
  ask_neighbors-Chained (n ∷ rest) candidates =
      Kept.Kept-ask o Service.node_interface _ _ (asked-Chained o at)
        λ i answer same. ask_neighbors-Chained rest _

  best_last_block-Chained : Kept.Kept (Chained o at) (best_last_block o)
  unfolding best_last_block
  best_last_block-Chained =
      Kept.Kept-ask o Service.node_interface _ _ (asked-Chained o at) λ i answer same.
        Kept.Kept-bind _ _ (ask_neighbors-Chained (neighbors_in answer) [])
          λ candidates. Kept.Kept-found (max_by_key candidates) _ _ λ best there. Kept.Kept-give _

  spawn_alignment_thread-Chained :
      (h : ℕ) (peers : List String) → Kept.Kept (Chained o at) (spawn_alignment_thread o h peers)
  unfolding spawn_alignment_thread
  spawn_alignment_thread-Chained h peers =
      Kept.Kept-then _ _
        (Kept.Kept-modify _ (λ s v. flags-Chained o at s.asked true s.build_in_progress s v))
        (Kept.Kept-then _ _ (send-Chained o at Service.transaction_service Msg.alignment_started tt)
          (Kept.Kept-modify (λ s. emit (spawn_alignment s.height h peers) s)
            (λ s v. emit-Chained o at (spawn_alignment s.height h peers) s tt v)))

  align-Chained : Kept.Kept (Chained o at) (align o)
  unfolding align
  align-Chained =
      Kept.Kept-state (λ s. s.aligning) _
        λ s v.
          Kept.Kept-if s.aligning _ _ (λ _. Kept.Kept-give tt)
            λ idle. Kept.Kept-bind _ _ best_last_block-Chained λ best.
              Kept.Kept-state (λ s. s.height) _
                λ s' v'.
                  Kept.Kept-if (ltb s'.height best.0) _ _
                    (λ _. spawn_alignment_thread-Chained best.0 best.1) (λ _. Kept.Kept-give tt)

  on_error-Chained :
      (change : BlockService c → BlockService c) (r : Result CoreError Unit × BlockService c)
      → ((s : BlockService c) → Chained o at s → Chained o at (change s))
      → Chained o at r.1
      → Chained o at (on_error change r)
  on_error-Chained change (ok done, s) h v = v
  on_error-Chained change (err e, s) h v = h s v

  try_build-Chained : (s : BlockService c) → Chained o at s → Chained o at (try_build o s)
  try_build-Chained s v =
      on_error-Chained stop_building (build_block o s)
        (λ t. flags-Chained o at t.asked t.aligning false t) ((build_block-Chained o at).at s v)

  verify_if_leader-Chained :
      (h : ℕ) (s : BlockService c)
      → Chained o at s
      → Chained o at (verify_if_leader_and_build o h s)
  unfolding verify_if_leader_and_build
  verify_if_leader-Chained h s v =
      let v' = asked-Chained o at (s.asked + 1) s v in
      emit-Chained o at (leader_timeout h) _ tt (
        if_cases (Chained o at)
          (says_leader (o.response s.asked Service.consensus_service (Req.is_leader s.node_id))) _ _
          (λ _. try_build-Chained _ v') (λ _. v'))

  here : Chained o at at
  here = record { height = refl; last = refl; round = refl; keypair = refl; sent = λ h. h }

  pub handle_messages-Chained :
      (msg : Msg c) → is_move msg ≡ false → Chained o at (handle_messages o msg at)
  unfolding handle_messages
  handle_messages-Chained Msg.alignment_ended e =
      flags-Chained o at at.asked false at.build_in_progress at here
  handle_messages-Chained (Msg.block_consolidated b ks players) e = cc
  handle_messages-Chained (Msg.block_from_peer b x ks) e =
      (verify_ext_block-Chained o at b ks (x ∷ [])).at at here
  handle_messages-Chained Msg.build_block e =
      if_cases (Chained o at) (not at.build_in_progress) _ _
        (λ _. verify_if_leader-Chained at.height at here) (λ _. here)
  handle_messages-Chained (Msg.build_block_timeout h) e =
      if_cases (Chained o at) (not at.build_in_progress && h == at.height) _ _
        (λ _. verify_if_leader-Chained h at here) (λ _. here)
  handle_messages-Chained (Msg.build_block_in_place_of_leader h) e =
      if_cases (Chained o at) (ltb at.height h) _ _ (λ _. try_build-Chained at here) (λ _. here)
  handle_messages-Chained Msg.detected_possible_misalignment e = align-Chained.at at here
  handle_messages-Chained (Msg.height_from_peer h) e =
      if_cases (Chained o at) (ltb (wrapping_add at.height 1) h) _ _ (λ _. align-Chained.at at here)
        (λ _. here)
  handle_messages-Chained (Msg.refresh_round r) e = cc
  handle_messages-Chained (Msg.retrieve_block peers) e =
      on_error-Chained stop_aligning (retrieve_alignment_block o (max_req_attempts + 1) peers at)
        (λ t. flags-Chained o at t.asked false t.build_in_progress t)
        ((retrieve_alignment_block-Chained (max_req_attempts + 1) peers).at at here)
  handle_messages-Chained Msg.start_timer_to_build_block e = emit-Chained o at _ at tt here
  handle_messages-Chained _ e = here

  moved-IsSound :
      (msg : Msg c)
      → is_move msg ≡ true
      → All (IsSound o at) at.outbox
      → All (IsSound o at) (handle_messages o msg at).outbox
  unfolding handle_messages
  moved-IsSound (Msg.block_consolidated b ks players) e sent = (
    tt,
    (
      tt,
      if_cases (λ (s : BlockService c). All (IsSound o at) s.outbox) at.aligning _ _
          (λ _. (tt, sent)) (λ _. sent),
    ),
  )
  moved-IsSound (Msg.refresh_round r) e sent =
      if_cases (λ (s : BlockService c). All (IsSound o at) s.outbox) (ltb at.actual_round r) _ _
        (λ _. sent) (λ _. sent)
  moved-IsSound _ e sent = cc

  -- Where every effect pending is sound, it is so after any message: a block that the service sends to
  -- be executed has the height after that of the last block and its hash as the previous one, the
  -- round is that of the service, and the service has built the block itself from the hashes sent
  -- with it, or the block verifies and its builder is among the players whom the consensus service
  -- has named in a response.
  pub handle_messages-IsSound :
      (msg : Msg c)
      → All (IsSound o at) at.outbox
      → All (IsSound o at) (handle_messages o msg at).outbox
  handle_messages-IsSound msg sent = elim (Bool-cases (is_move msg)) [
    | inl moves ↦ moved-IsSound msg moves sent
    | inr stays ↦ (handle_messages-Chained msg stays).sent sent
  ]
