-- ===== src/Core/Duration/Tests.antt =====
-- The theorems on crates/kemuri-core/src/duration.rs at concrete texts.
use kemuri.Base.{◌≡◌, refl, [], ◌∷◌, ◌++◌}
use kemuri.Base.Text.{codes, decimal}
use kemuri.Core.Duration.{ok, parse_duration}
use kemuri.Core.Duration.Laws.{milliseconds, minutes, unit_text, scaled, parse_duration-append}

parse_duration-append_example :
    parse_duration (codes "90" ++ unit_text minutes)
    ≡ scaled (codes "90") (decimal 0 (codes "90")) minutes
parse_duration-append_example = parse_duration-append b'9' (b'0' ∷ []) minutes refl

quarter_second : parse_duration (codes "250ms") ≡ ok 250
quarter_second = parse_duration-append b'2' (b'5' ∷ b'0' ∷ []) milliseconds refl
