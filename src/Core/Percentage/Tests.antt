-- ===== src/Core/Percentage/Tests.antt =====
-- The theorems on crates/kemuri-core/src/percentage.rs at concrete texts.
use kemuri.Base.{◌≡◌, refl, [], ◌∷◌}
use kemuri.Base.Text.{codes}
use kemuri.Core.Percentage.{ok, from_str, from_str-append}

half : from_str (codes "50%") ≡ ok (record { value = 50 })
half = from_str-append b'5' (b'0' ∷ []) refl
