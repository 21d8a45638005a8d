-- ===== src/Lib.antt =====
-- TRINCI, the core of a blockchain node (trinci-core-new), as an executable model with proofs.
--
-- The core runs a service for each concern, each in a thread of its own with a state and a loop over
-- the messages and the requests of a channel. The services send messages to each other and to the node,
-- and ask each other with `send_req`. Here a service is a record; a handler is a function from what it
-- reads from outside, the message and the state to the state, and where the code can panic, which ends
-- the thread, it returns an `Outcome`. The messages, responses and threads that a handler sends or
-- starts are the effects in the field `outbox`, the newest first. What a handler reads from outside, the
-- clock and the response to a request, is an argument; `none` stands for an error or a timeout.
--
-- Base: the names that all files share, Boolean tests on the native numbers, lists, Boolean equality as
--   an interface (`PartialEq`), results, `Outcome` with what it ensures, and 64-bit words.
-- Crypto/Hash (trinci-core-new/src/crypto/hash.rs, consts.rs, errors.rs): `Hash::new`, `from_bytes`,
--   `as_bytes`, `from_data`, `size`, `hash_algorithm`, `hash_value`; proofs in Hash/Laws.
-- Artifacts/Models (trinci-core-new/src/artifacts/models.rs): the traits `Executable`, `Confirmable` and
--   `Transactable` as records of operations, put together in `Chain`, the parameter of the services;
--   `BlockProposal`, `FullBlock`. Models/Players: `Players` and its methods, with proofs in
--   Players/Weighted. Models/Seed: `SeedSource::new` and `get_seed`, with proofs in Seed/Total.
-- Artifacts/Messages (trinci-core-new/src/artifacts/messages.rs): `Msg`, `Req`, `Res` and the effects.
-- Services/Consensus (trinci-core-new/src/services/consensus_service.rs): State is `ConsensusService`;
--   Proposals is `update_proposals` and `verify_block_proposal_quorum`; Voting `should_player_vote` and
--   `vote_proposal`; Leader `start`, `draw_new_leader`, `reset_proposals`; Rounds
--   `block_election_failed`, `block_consolidated`, `check_next_round_proposals`,
--   `check_old_block_proposals`, `confirm_build_block_in_place_of_leader`; Handlers `handle_messages`,
--   `handle_requests`, `verify_confirmations_from_peer`, `run`; Retrieval `retrieve_confirmations` and
--   the thread around it. Keeps is the interface of the proofs: what a predicate must survive so that
--   the handlers keep it (Frame, Handled, Kept). Invariant, Quorum, Votes fill it; WellFormed, Recorded,
--   Sorted and Elected are about the cache, the lookups, the sort and a consolidated block.
-- Services/Blocks (trinci-core-new/src/services/block_service.rs, consts.rs, errors.rs): State is
--   `BlockService` with its calls, which end in a result and a state, and the numbered responses to its
--   requests (`Outside`); Execution is `collect_missing_txs`, `begin_execution`, `build_block`;
--   Verification `verify_ext_block`; Alignment `best_last_block`, `retrieve_alignment_block`, `align`,
--   `spawn_alignment_thread`; Handlers `start`, `verify_if_leader_and_build`, `finalize_consolidation`,
--   `handle_messages`, `run`. Kept has the rules for what the calls keep, which Chained, Checked and
--   Sound use; Tip, Attempts, Missing, Begun, Selection, Tally, Best and Thread are about the chain, the attempts,
--   the missing transactions, the start of an execution, the transactions of a block,
--   the responses of the neighbours and the alignment thread.
-- Services/Handover: the block service and the transaction service together; Covered is about responses that lack a
--   hash.
-- Services/Drand (trinci-core-new/src/services/drand_service.rs, and `DRand` of models.rs), with the
--   proofs in Drand/Agreement; the generator of the crate rand_pcg is the parameter `Generator`.
-- Services/Transactions (trinci-core-new/src/services/transaction_service.rs): Pool and Handlers, with
--   proofs in Invariant and Collected.
-- Node (trinci-node/src/artifacts/models.rs, rocks_db.rs): Identity is what is used of keys and signatures, a
--   parameter; Models has `Block` and `Confirmation`, with proofs in Signed; Transactions
--   `TransactionData` with its getters and setters, with proofs in Setters; Integrity `check_integrity`
--   and `verify`, with proofs in Coherent; Account `Account`; Traits puts them together as a `Chain`. Database and
--   Storage are the reads and writes of rocks_db.rs, over the indexes of the crate merkledb, which are
--   the parameter `Indexes`, with proofs in Stored. Fuel is the prices of fuel
--   (trinci-node/src/utils.rs, consts.rs), with proofs in Priced.
--   Errors (trinci-node/src/artifacts/errors.rs) has the errors of the machine and their texts, with the
--   cut of a text in Errors/Cut; Machine the parameters of the execution: `Forks`, the forks of merkledb
--   with their checkpoints and what the code relies on of them, and `Wm`, the trait of wasm_machine.rs.
--   Validators reads the players from the account of the service, for db_service.rs and for
--   wasm_service.rs.
-- Node/Execution (trinci-node/src/services/wasm_service.rs): State is a `Setting`, the parameters of the service, and
--   `Run`, a state monad over the machine and the fork whose runs end in a value, an error or a panic;
--   Units is `handle_unit_transaction`; Bulks `handle_bulk_nodes_execution`; Roots `handle_bulk_v1` and
--   `handle_bulk_transaction`; Transactions `call_burn_fuel`, `execute_transaction` and
--   `execute_block_transactions`; Blocks `execute_block`, `update_db_fork`, `consolidate_block`;
--   Handlers `handle_messages` and `handle_requests`. Triples is the interface of the proofs, a Hoare
--   triple with its rules. Rollback, Saves, Atomic and Failed are about what a failed transaction
--   leaves; Ran and Complete about bulk transactions; Unfueled and Burnt about fuel; Settled,
--   Agreement and Consolidated about blocks.
-- Node/Host (trinci-node/src/services/wm/host_func.rs): the functions that a contract calls, with proofs in Isolated
--   and Confined. Host/Guest (trinci-node/src/services/wm/local.rs) is how a contract reaches them: the memory of
--   the caller with proofs in Slice, and the linked functions in Trampolines; Sandboxed has the rules for calls
--   that leave the host confined, which Contained uses.
-- Node/Local and Node/Checks (trinci-node/src/services/wm/local.rs): the slices between a contract and the host,
--   the cache of compiled modules over `Module::new` of wasmtime, which is a parameter, with proofs in
--   Slices, Cached and Served; `contract_updatable` and `app_hash_check` over the call of a contract,
--   with proofs in Bound.
-- Node/Runs (trinci-node/src/services/wm/local.rs, wasm_machine.rs): `host_functions_register`, and in Runs/Instances
--   and Runs/Calls `call` and `callable_call` over an instance of wasmtime, which is the parameter
--   `Runtime`; Steps is what an instance does, Yields has the rules for what its calls give, which
--   Contained, Kept and Hashed use.
-- Node/Comm and Node/Requests (trinci-node/src/artifacts/messages.rs, services/db_service.rs): the requests to the
--   service of the database and its responses, with proofs in Answered.
-- Tests: a small instance of `Chain`, small databases, forks and machines, and the theorems at concrete inputs.
--
-- Numbers are natural numbers; sums and differences of 64-bit words wrap (`wrapping_add`,
-- `wrapping_sub`), as in a release build. Two recursions run on fuel: the chunks of the seed on the length
-- of the vector, since each round takes at least one byte, and the retrieval of confirmations on any
-- number above six, since the attempts 0 to 5 are made. The attempts of the block service are
-- counted down from six, so they need no fuel. Maps are association lists or functions.
--
-- Left out: logging, the senders of the channels, and a failure to send, which the code only logs;
-- keys and signatures (ecdsa.rs, ed25519.rs, identity.rs, tpm2.rs), which the services see through the
-- traits only; lib.rs and utils.rs, which start threads and call serializers; of the node around the
-- core (trinci-node) the forks and checkpoints of the database, which are calls of merkledb, what
-- an instance of wasmtime computes and the configuration of its engine, the records for the indexer
-- and the playground, and the networks; the tools.
pub mod Base
pub mod Consts
pub mod Crypto
pub mod Artifacts
pub mod Services
pub mod Node
pub mod Tests
