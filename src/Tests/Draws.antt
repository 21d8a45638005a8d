-- ===== src/Tests/Draws.antt =====
-- Draws of the sample node, with a generator that counts.
use trinci.Base.{refl, [], ◌∷◌, ℕ, ◌≡◌, ◌≤◌, ◌%◌, ◌+◌, arith}
use trinci.Base.Outcome.{returns}
use trinci.Crypto.Hash.{Hash}
use trinci.Crypto.Hash
use trinci.Artifacts.Models.Seed.{SeedSource, new_source}
use trinci.Artifacts.Messages.{Msg, Req, Res}
use trinci.Services.Drand.{Generator, DRandService, handle_messages, handle_requests}
use trinci.Services.Drand.Agreement.{number_of, get_drand_num_lem, draws_agree}
use trinci.Tests.Sample.{sample, block_one}

instance abbrev counting : Generator
counting = record { Pcg32 = ℕ; seed_from_u64 = λ n. n + 3; next_u64 = λ n. (n + 1, n) }

abbrev source : SeedSource
source = new_source (1 ∷ 2 ∷ 3 ∷ []) (116 ∷ 51 ∷ []) Hash.default block_one.hash Hash.default

abbrev drawing : ℕ → DRandService ⦃g = counting⦄ ⦃c = sample⦄
drawing n = record {
  drand = record { drng = n; seed = record source { previous_seed = n } };
  node_id = "b";
  responses = [];
}

get_drand_num_example :
    (t : DRandService ⦃g = counting⦄ ⦃c = sample⦄) × (handle_requests
        (Req.get_drand_num 3)
        (drawing 5)
      ≡ returns t)
    × (t.responses ≡ Res.get_drand_num (number_of (drawing 5).drand.seed % (3 + 1)) ∷ [])
    × (number_of (drawing 5).drand.seed % (3 + 1) ≤ 3)
get_drand_num_example = get_drand_num_lem 3 (drawing 5) (omega arith)

draws_agree_example :
    (n : ℕ) × (s' : DRandService ⦃g = counting⦄ ⦃c = sample⦄) × (t' : DRandService ⦃g = counting⦄
      ⦃c = sample⦄)
    × (handle_requests (Req.get_drand_num 3) (
          handle_messages
            (Msg.update_seed_source block_one.hash Hash.default Hash.default)
            (drawing 5))
        ≡ returns s')
    × (handle_requests (Req.get_drand_num 3) (
          handle_messages
            (Msg.update_seed_source block_one.hash Hash.default Hash.default)
            (drawing 9))
        ≡ returns t')
    × (s'.responses ≡ Res.get_drand_num n ∷ [])
    × (t'.responses ≡ Res.get_drand_num n ∷ [])
draws_agree_example =
    draws_agree block_one.hash Hash.default Hash.default 3 (drawing 5) (drawing 9) refl refl
      (omega arith)
