-- ===== src/Tests/Hashes.antt =====
-- Hashes of two bytes.
use trinci.Base.{ℕ, ◌≡◌, refl, List, [], ◌∷◌}
use trinci.Base.Result.{ok}
use trinci.Crypto.Hash.{sha256, new, from_bytes, as_bytes}
use trinci.Crypto.Hash.Laws.{filled, from_bytes-as_bytes}

abbrev two_bytes : List ℕ
two_bytes = 7 ∷ 9 ∷ []

two_bytes-made : new sha256 two_bytes ≡ ok (filled sha256 two_bytes)
unfolding new
two_bytes-made = refl

from_bytes-as_bytes_example :
    from_bytes (as_bytes (filled sha256 two_bytes)) ≡ ok (filled sha256 two_bytes)
from_bytes-as_bytes_example =
    from_bytes-as_bytes sha256 two_bytes (filled sha256 two_bytes) two_bytes-made

two_bytes-read : from_bytes (18 ∷ 2 ∷ two_bytes) ≡ ok (filled sha256 two_bytes)
unfolding from_bytes new
two_bytes-read = refl
