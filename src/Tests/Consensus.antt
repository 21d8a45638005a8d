-- ===== src/Tests/Consensus.antt =====
-- The consensus service of the sample node.
use trinci.Crypto.Hash.{Hash, Hash_eq}
use trinci.Base.{
  String_eq, eq_refl, ℕ_eq, ◌==◌, if◌then◌else◌, Option, ◌≡◌, ℕ, arith, some, none, List, [], ◌∷◌,
}
use trinci.Base.{String_eq, refl}
use trinci.Base.Outcome.{Ensures, Returns}
use trinci.Artifacts.Messages.{Service, deliver, Res, Req, Msg}
use trinci.Services.Consensus.State.{World}
use trinci.Tests.Sample.{
  SampleBlock, SampleConfirmation, three, sample, node, world, block_one, confirmed_by,
}
use trinci.Services.Consensus.Invariant.{run-IsValid, IsValid}
use trinci.Services.Consensus.Handlers.{
  on_block_consolidated, on_block_confirmation_from_peer, handle_messages, run,
}
use trinci.Services.Consensus.Quorum.{handle_messages-IsGuarded, AreGuarded}
use trinci.Services.Consensus.Votes.{run-VotesOnce, VotesOnce}
use trinci.Services.Consensus.Recorded.{on_block_confirmation_from_peer-Recorded, Recorded}
use trinci.Services.Consensus.Elected.{on_block_consolidated-IsElected, IsElected}
use trinci.Tests.Elections.{three-IsValid}
use trinci.Artifacts.Models.{new_proposal, BlockProposal}
use trinci.Services.Consensus.Retrieval.{retrieval_lem, retrieval}

node-IsValid : IsValid node
node-IsValid = record { cache = tt; consolidates = tt }

abbrev arrivals : List (World sample × Msg sample)
arrivals =
    (world, Msg.block_from_peer block_one (confirmed_by "a") [])
    ∷ (world, Msg.block_execution_ended block_one [])
    ∷ []

run-IsValid_example : Ensures IsValid (run arrivals node)
run-IsValid_example = run-IsValid arrivals node node-IsValid

handle_messages-IsGuarded_example : Ensures (AreGuarded node) (
    handle_messages world
      (Msg.verify_confirmations none (confirmed_by "a" ∷ confirmed_by "c" ∷ []))
      node)
handle_messages-IsGuarded_example =
    handle_messages-IsGuarded world
      (Msg.verify_confirmations none (confirmed_by "a" ∷ confirmed_by "c" ∷ [])) node node-IsValid
      refl

run-VotesOnce_example : Ensures VotesOnce (run arrivals node)
run-VotesOnce_example = run-VotesOnce arrivals node (record { once = tt })

on_block_consolidated-IsElected_example :
    Returns (on_block_consolidated world block_one three node) (IsElected three block_one)
on_block_consolidated-IsElected_example =
    on_block_consolidated-IsElected world block_one three 2 node three-IsValid (omega arith) refl
      (omega arith)

on_block_confirmation_from_peer-Recorded_example :
    Returns
      (on_block_confirmation_from_peer world (confirmed_by "a") node)
      (λ t. Recorded block_one.hash 1 0 (confirmed_by "a") t.block_proposals)
on_block_confirmation_from_peer-Recorded_example =
    on_block_confirmation_from_peer-Recorded world (confirmed_by "a") node refl

abbrev proposal : ℕ → BlockProposal sample
proposal n = record (new_proposal 1 none block_one.hash 1 (confirmed_by "a" ∷ []) 0) { count = n }

-- The third attempt is answered.
abbrev answers : ℕ → Req → Option (Res sample)
answers i r =
    if i == 2 then some (Res.get_confirmations (some (confirmed_by "a" ∷ [])) none) else none

-- A proposal of the first block, and a response with the block.
abbrev with_block : Option (List SampleConfirmation × Option (SampleBlock × List Hash))
with_block = some (confirmed_by "a" ∷ [], some (block_one, []))

with_block-sent :
    retrieval (proposal 1) with_block
    ≡ deliver Service.consensus_service
        (Msg.verify_confirmations (some (block_one, [])) (confirmed_by "a" ∷ []))
      ∷ []
unfolding retrieval
with_block-sent = rw (eq_refl ⦃e = Hash_eq⦄ block_one.hash) refl

retrieval_example :
    (with_block ≡ some (confirmed_by "a" ∷ [], some (block_one, [])))
    × (block_one.hash ≡ (proposal 1).block_hash)
retrieval_example =
    retrieval_lem (proposal 1) with_block (block_one, []) (confirmed_by "a" ∷ []) with_block-sent
