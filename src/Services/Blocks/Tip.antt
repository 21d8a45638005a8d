-- ===== src/Services/Blocks/Tip.antt =====
-- The chain as `BlockService` sees it, its last block, along a run.
use trinci.Base.{false, ltb, ℕ, List, [], ◌∷◌, ◌≡◌, refl, ap, ◌∙◌, if_cases}
use trinci.Crypto.Hash.{Hash}
use trinci.Artifacts.Models.{Chain}
use trinci.Artifacts.Messages.{Msg}
use trinci.Services.Blocks.State.{BlockService, Outside}
use trinci.Services.Blocks.Handlers.{handle_messages, run}
use trinci.Services.Blocks.Sound.{is_move, handle_messages-Chained}

module _ ⦃c : Chain⦄ where
  open c use {executable}

  -- The height and the hash of the last block.
  abbrev pub tip : BlockService c → ℕ × Hash
  tip s = (s.height, s.last_block_hash)

  -- The chain advances by a consolidated block, and by nothing else.
  abbrev pub extend : Msg c → ℕ × Hash → ℕ × Hash
  extend (Msg.block_consolidated b ks players) t = (executable.get_height b, executable.get_hash b)
  extend _ t = t

  unfoldable pub extend_all : List (Msg c) → ℕ × Hash → ℕ × Hash
  extend_all [] t = t
  extend_all (msg ∷ msgs) t = extend_all msgs (extend msg t)

  stays :
      (o : Outside c) (msg : Msg c) (s : BlockService c)
      → is_move msg ≡ false
      → tip (handle_messages o msg s) ≡ tip s
  stays o msg s e = let v = handle_messages-Chained o s msg e in rw (v.height, v.last) refl

  tip-handle_messages :
      (o : Outside c) (msg : Msg c) (s : BlockService c)
      → tip (handle_messages o msg s) ≡ extend msg (tip s)
  unfolding handle_messages
  tip-handle_messages o (Msg.block_consolidated b ks players) s =
      if_cases (λ (t : BlockService c). tip t ≡ (executable.get_height b, executable.get_hash b))
        s.aligning _ _ (λ _. refl) (λ _. refl)
  tip-handle_messages o (Msg.refresh_round r) s =
      if_cases (λ (t : BlockService c). tip t ≡ tip s) (ltb s.actual_round r) _ _ (λ _. refl)
        (λ _. refl)
  tip-handle_messages o msg s = stays o msg s refl

  -- Whatever messages arrive and whatever the other services answer, the height and the hash that the
  -- service stands at are those of the last block that was consolidated, and those at the start
  -- where none was.
  pub run-tip :
      (o : Outside c) (msgs : List (Msg c)) (s : BlockService c)
      → tip (run o msgs s) ≡ extend_all msgs (tip s)
  unfolding run extend_all
  run-tip o [] s = refl
  run-tip o (msg ∷ msgs) s =
      run-tip o msgs (handle_messages o msg s) ∙ ap (extend_all msgs) (tip-handle_messages o msg s)
