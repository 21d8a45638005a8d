-- ===== src/Tests/Transactions.antt =====
-- The transaction service of the sample node.
use trinci.Crypto.Hash
use trinci.Crypto.Hash.{Hash_eq, Hash}
use trinci.Artifacts.Messages.{Msg}
use trinci.Base.{false, refl, [], ◌∷◌, none, arith}
use trinci.Base.Outcome.{Ensures}
use trinci.Services.Transactions.Invariant.{IsInStep, handle_messages-IsInStep}
use trinci.Services.Transactions.Handlers.{handle_messages}
use trinci.Services.Transactions.Pool.{TransactionService}
use trinci.Tests.Sample.{sample}

abbrev pooled : TransactionService sample
pooled = record {
  alignment_in_progress = false;
  build_in_progress = false;
  node_id = "b";
  old_collector = (Hash.default, 10) ∷ [];
  unconfirmed_pool = (Hash.default, (7, 100, none)) ∷ [];
  unconfirmed_pool_attachments = [];
  outbox = [];
}

pooled-IsInStep : IsInStep pooled
pooled-IsInStep = record { same_hashes = λ k. ground arith; good = ((refl, refl), tt) }

handle_messages-IsInStep_example :
    Ensures IsInStep (handle_messages 20 (Msg.add_tx (8, 50, none)) pooled)
handle_messages-IsInStep_example =
    handle_messages-IsInStep 20 (Msg.add_tx (8, 50, none)) pooled pooled-IsInStep
