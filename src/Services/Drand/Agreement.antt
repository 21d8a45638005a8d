-- ===== src/Services/Drand/Agreement.antt =====
-- The numbers that `DRandService` draws: their range, and the agreement of nodes.
use trinci.Base.{nat_eq, false, ap, ◌∙◌, ◌%◌, ℕ, ◌+◌, ◌≡◌, ◌≤◌, ◌<◌, refl, List, ◌∷◌, arith}
use trinci.Base.Words.{wrapping_add_lem, u64_mod}
use trinci.Base.Outcome.{returns, ◌>>=◌}
use trinci.Crypto.Hash.{Hash}
use trinci.Artifacts.Models.{Chain}
use trinci.Artifacts.Models.Seed.{SeedSource, folded, from_be_bytes}
use trinci.Artifacts.Models.Seed.Total.{get_seed_lem}
use trinci.Artifacts.Messages.{Msg, Req, Res}
use trinci.Services.Drand.{
  Generator, DRand, DRandService, new_drand, rand, update_seed_source, handle_messages,
  handle_requests,
}

module _ ⦃g : Generator⦄ ⦃c : Chain⦄ where
  -- The number that a seed gives.
  abbrev pub number_of : SeedSource → ℕ
  number_of seed = (g.next_u64 (g.seed_from_u64 (from_be_bytes (folded seed)))).1

  -- A request for a number up to `max` is answered, without a panic, by one that is at most `max` and
  -- that only the seed determines, where `max + 1` is a machine word.
  pub get_drand_num_lem :
      (max : ℕ) (s : DRandService)
      → max + 1 < u64_mod
      → (t : DRandService) × (handle_requests (Req.get_drand_num max) s ≡ returns t)
        × (t.responses ≡ Res.get_drand_num (number_of s.drand.seed % (max + 1)) ∷ s.responses)
        × (number_of s.drand.seed % (max + 1) ≤ max)
  unfolding handle_requests ◌>>=◌ new_drand rand
  get_drand_num_lem max s h =
      let (whole, eight, seeded) = get_seed_lem s.drand.seed in
      let plain = wrapping_add_lem max 1 h in
      let positive : nat_eq (max + 1) 0 ≡ false = ground arith in
      let drawn = g.next_u64 (g.seed_from_u64 (from_be_bytes (folded s.drand.seed))) in
      let after : DRand = record {
        drng = drawn.0;
        seed = record s.drand.seed { previous_seed = drawn.1 };
      } in
      (
        record s {
          drand = after;
          responses = Res.get_drand_num (drawn.1 % (max + 1)) ∷ s.responses;
        },
        rw (seeded, plain, positive) refl,
        refl,
        omega arith,
      )

  -- Two nodes with the same nonce and network name draw the same number, up to a `max` whose
  -- successor is a machine word, after the same update of the seed source, whatever each of them
  -- drew before; neither panics.
  pub draws_agree :
      (b txs rxs : Hash) (max : ℕ) (s t : DRandService)
      → s.drand.seed.nonce ≡ t.drand.seed.nonce
      → s.drand.seed.nw_name ≡ t.drand.seed.nw_name
      → max + 1 < u64_mod
      → (n : ℕ) × (s' : DRandService) × (t' : DRandService) × (handle_requests
            (Req.get_drand_num max)
            (handle_messages (Msg.update_seed_source b txs rxs) s)
          ≡ returns s')
        × (handle_requests
              (Req.get_drand_num max)
              (handle_messages (Msg.update_seed_source b txs rxs) t)
            ≡ returns t')
        × (s'.responses ≡ Res.get_drand_num n ∷ s.responses)
        × (t'.responses ≡ Res.get_drand_num n ∷ t.responses)
  unfolding handle_messages update_seed_source
  draws_agree b txs rxs max s t nonces names h =
      let (s', sd, sr, sb) =
        get_drand_num_lem max (handle_messages (Msg.update_seed_source b txs rxs) s) h in
      let (t', td, tr, tb) =
        get_drand_num_lem max (handle_messages (Msg.update_seed_source b txs rxs) t) h in
      let source : List ℕ → List ℕ → SeedSource = λ nonce nw_name. record {
        nonce = nonce;
        nw_name = nw_name;
        previous_seed = 0;
        previous_block_hash = b;
        txs_hash = txs;
        rxs_hash = rxs;
      } in
      let same =
        ap (λ nonce. source nonce s.drand.seed.nw_name) nonces
        ∙ ap (source t.drand.seed.nonce) names in
      (
        number_of (source t.drand.seed.nonce t.drand.seed.nw_name) % (max + 1),
        s',
        t',
        sd,
        td,
        sr ∙ ap (λ seed. Res.get_drand_num (number_of seed % (max + 1)) ∷ s.responses) same,
        tr,
      )
