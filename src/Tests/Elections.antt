-- ===== src/Tests/Elections.antt =====
-- Draws among three players.
use trinci.Base.{String_eq, refl}
use trinci.Tests.Sample.{three}
use trinci.Artifacts.Models.Players.Weighted.{IsValid}

pub three-IsValid : IsValid three
three-IsValid = record { in_step = refl; distinct = (refl, (refl, (refl, tt))) }
