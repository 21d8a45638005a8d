-- ===== src/Services/Blocks/Handlers.antt =====
-- block_service.rs: `start`, `verify_if_leader_and_build`, `finalize_consolidation`, `handle_messages`.
use trinci.Base.{
  ℕ, ◌+◌, Bool, false, not, ◌&&◌, Option, none, some, List, [], ◌∷◌, ◌==◌, if◌then◌else◌, ltb, ℕ_eq,
  String,
}
use trinci.Base.Result.{Result, ok, err}
use trinci.Base.Words.{wrapping_add}
use trinci.Crypto.Hash
use trinci.Crypto.Hash.{Hash}
use trinci.Artifacts.Models.{Chain}
use trinci.Artifacts.Models.Players.{Players}
use trinci.Artifacts.Messages.{Effect, Msg, Req, Res, Service, deliver, send, sleep_ms, spawn}
use trinci.Services.Blocks.State.{BlockService, CommError, CoreError, Outside, emit}
use trinci.Services.Blocks.Execution.{build_block}
use trinci.Consts.{max_req_attempts}
use trinci.Services.Blocks.Verification.{verify_ext_block}
use trinci.Services.Blocks.Alignment.{align, retrieve_alignment_block}

abbrev pub default_ttb_ms : ℕ
default_ttb_ms = 10000

abbrev pub default_leader_timeout_ms : ℕ
default_leader_timeout_ms = 10000

module _ ⦃c : Chain⦄ where
  open c use {Block, Confirmation, KeyPair, executable}

  abbrev pub first_block : Option Block → ℕ × Hash
  first_block none = (0, Hash.default)
  first_block (some block) = (executable.get_height block, executable.get_hash block)

  unfoldable pub start : KeyPair → String → Option Block → BlockService c
  start keypair node_id block =
      let (height, last_block_hash) = first_block block in
      record {
        actual_round = 0;
        aligning = false;
        build_in_progress = false;
        height = height;
        keypair = keypair;
        last_block_hash = last_block_hash;
        node_id = node_id;
        asked = 0;
        outbox = [];
      }

  -- The state after a call, with a change where it ended in an error.
  abbrev pub on_error :
      (BlockService c → BlockService c) → Result CoreError Unit × BlockService c → BlockService c
  on_error change (ok done, s) = s
  on_error change (err e, s) = change s

  abbrev pub stop_building : BlockService c → BlockService c
  stop_building s = record s { build_in_progress = false }

  abbrev pub stop_aligning : BlockService c → BlockService c
  stop_aligning s = record s { aligning = false }

  -- `BlockConsolidated`, whose height a running alignment is told.
  unfoldable pub finalize_consolidation :
      Block → List Hash → Players → BlockService c → BlockService c
  unfolding emit
  finalize_consolidation block txs_hashes players s =
      let consolidated = Msg.block_consolidated block txs_hashes players in
      let s' = record s {
        actual_round = 0;
        build_in_progress = false;
        height = executable.get_height block;
        last_block_hash = executable.get_hash block;
      } in
      let told =
        if s.aligning
        then emit (send Service.alignment_service (Msg.new_height s'.height)) s'
        else s' in
      emit (send Service.transaction_service consolidated)
        (emit (send Service.consensus_service consolidated) told)

  abbrev pub says_leader : Result CommError (Res c) → Bool
  says_leader (ok (Res.is_leader leading)) = leading
  says_leader _ = false

  -- The thread that asks, after the timeout, whether the block was built.
  abbrev pub leader_timeout : ℕ → Effect c
  leader_timeout height = spawn (
      sleep_ms default_leader_timeout_ms
      ∷ deliver Service.node_interface (Msg.verify_if_consolidated (wrapping_add height 1) 0)
      ∷ [])

  module _ (o : Outside c) where
    abbrev pub try_build : BlockService c → BlockService c
    try_build s = on_error stop_building (build_block o s)

    unfoldable pub verify_if_leader_and_build : ℕ → BlockService c → BlockService c
    unfolding build_block emit
    verify_if_leader_and_build height s =
        let answer = o.response s.asked Service.consensus_service (Req.is_leader s.node_id) in
        let s' = record s { asked = s.asked + 1 } in
        emit (leader_timeout height) (if says_leader answer then try_build s' else s')

    -- A message that the service does not expect is logged.
    unfoldable pub handle_messages : Msg c → BlockService c → BlockService c
    unfolding finalize_consolidation verify_if_leader_and_build verify_ext_block align
        retrieve_alignment_block
    handle_messages Msg.alignment_ended s = stop_aligning s
    handle_messages (Msg.block_consolidated block txs_hashes players) s =
        finalize_consolidation block txs_hashes players s
    handle_messages (Msg.block_from_peer block confirmation txs_hashes) s =
        (verify_ext_block o block txs_hashes (confirmation ∷ []) s).1
    handle_messages Msg.build_block s =
        if not s.build_in_progress then verify_if_leader_and_build s.height s else s
    handle_messages (Msg.build_block_timeout height) s =
        if not s.build_in_progress && height == s.height
        then verify_if_leader_and_build height s
        else s
    handle_messages (Msg.build_block_in_place_of_leader height_to_build) s =
        if ltb s.height height_to_build then try_build s else s
    handle_messages Msg.detected_possible_misalignment s = (align o s).1
    handle_messages (Msg.height_from_peer height) s =
        if ltb (wrapping_add s.height 1) height then (align o s).1 else s
    handle_messages (Msg.refresh_round new_round) s =
        if ltb s.actual_round new_round then record s { actual_round = new_round } else s
    handle_messages (Msg.retrieve_block trusted_peers) s =
        on_error stop_aligning (retrieve_alignment_block o (max_req_attempts + 1) trusted_peers s)
    handle_messages Msg.start_timer_to_build_block s =
        emit
          (spawn (
            sleep_ms default_ttb_ms
            ∷ deliver Service.block_service (Msg.build_block_timeout s.height)
            ∷ []))
          s
    handle_messages _ s = s

    -- `run`, over the messages that arrive.
    unfoldable pub run : List (Msg c) → BlockService c → BlockService c
    unfolding handle_messages
    run [] s = s
    run (msg ∷ msgs) s = run msgs (handle_messages msg s)
