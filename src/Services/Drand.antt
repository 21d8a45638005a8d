-- ===== src/Services/Drand.antt =====
-- trinci-core-new/src/services/drand_service.rs, and `DRand` of artifacts/models.rs. The generator of the
-- crate `rand_pcg` is the parameter `Generator`; a `usize` has 64 bits.
pub mod Agreement
use trinci.Base.{ℕ, ◌%◌, nat_eq, if◌then◌else◌, List, [], ◌∷◌, String}
use trinci.Base.Words.{wrapping_add}
use trinci.Base.Outcome.{Outcome, returns, panics, ◌>>=◌}
use trinci.Crypto.Hash.{Hash}
use trinci.Artifacts.Models.{Chain}
use trinci.Artifacts.Models.Seed.{SeedSource, get_seed}
use trinci.Artifacts.Messages.{Msg, Req, Res}

-- `Pcg32`: `seed_from_u64`, and `next_u64` with the state that follows.
pub record Generator : Type 1 where
  pub Pcg32 : Type 0
  pub seed_from_u64 : ℕ → Pcg32
  pub next_u64 : Pcg32 → Pcg32 × ℕ

module _ ⦃g : Generator⦄ where
  open g use {Pcg32}

  pub record DRand : Type 0 where
    pub drng : Pcg32
    pub seed : SeedSource

  -- `DRand::new`
  unfoldable pub new_drand : SeedSource → Outcome DRand
  unfolding ◌>>=◌
  new_drand seed = do
    number ← get_seed seed
    returns (record { drng = g.seed_from_u64 number; seed = seed })

  unfoldable pub update_seed_source : Hash → Hash → Hash → DRand → DRand
  update_seed_source previous_block_hash txs_hash rxs_hash d = record d {
    seed = record d.seed {
      previous_block_hash = previous_block_hash;
      txs_hash = txs_hash;
      rxs_hash = rxs_hash;
      previous_seed = 0;
    };
  }

  -- The division panics where `max + 1` wraps to 0.
  unfoldable pub rand : ℕ → DRand → Outcome (DRand × ℕ)
  rand max d =
      let (drng, rand_number) = g.next_u64 d.drng in
      let divisor = wrapping_add max 1 in
      if nat_eq divisor 0
      then panics
      else returns (
        record { drng = drng; seed = record d.seed { previous_seed = rand_number } },
        rand_number % divisor,
      )

  module _ ⦃c : Chain⦄ where
    -- The state is `drand`, with the responses, the newest first.
    pub record DRandService : Type 0 where
      pub drand : DRand
      pub node_id : String
      pub responses : List (Res c)

    unfoldable pub start : String → SeedSource → Outcome DRandService
    unfolding ◌>>=◌
    start node_id seed_source = do
      drand ← new_drand seed_source
      returns (record { drand = drand; node_id = node_id; responses = [] })

    unfoldable pub handle_messages : Msg c → DRandService → DRandService
    unfolding update_seed_source
    handle_messages (Msg.update_seed_source last_block_hash txs_hash rxs_hash) s = record s {
      drand = update_seed_source last_block_hash txs_hash rxs_hash s.drand;
    }
    handle_messages _ s = s

    unfoldable pub handle_requests : Req → DRandService → Outcome DRandService
    unfolding ◌>>=◌ new_drand rand
    handle_requests (Req.get_drand_num max) s = do
      drand ← new_drand s.drand.seed
      (drand', drand_num) ← rand max drand
      returns (record s { drand = drand'; responses = Res.get_drand_num drand_num ∷ s.responses })
    handle_requests _ s = returns s
