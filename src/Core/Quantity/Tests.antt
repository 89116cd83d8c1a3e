-- ===== src/Core/Quantity/Tests.antt =====
-- Durations and quantities on concrete texts.
use wrix.Common.{
  ℕ, ◌≡◌, ◌↔◌, ◌*◌, ◌<◌, refl, true, ◌++◌, Option, none, some, all, if◌then◌else◌, ok, err,
}
use wrix.Common.Text.{Str, str_eq, codes}
use wrix.Core.Quantity.{
  Duration, milliseconds, seconds, precision, text, overflowing_quantity, is_ascii_digit,
  find_scale, scaled, bytes, byte_scales, u64_limit, retention_seconds, zero_retention,
}
use wrix.Core.Quantity.Exact.{as_nanos, milliseconds_iff, decimal, scaled-exact}

abbrev half_second : Duration
half_second = record { as_secs = 1; subsec_nanos = 500000000 }

abbrev parse_duration : Str → Option Duration
parse_duration input =
    if str_eq input (codes "1s 500ms")
    then some half_second
    else if str_eq input (codes "0s")
    then some (record { as_secs = 0; subsec_nanos = 0 })
    else none

milliseconds_iff_example :
    (milliseconds parse_duration (codes "1s 500ms") ≡ ok 1500)
    ↔ ((1500 * 1000000 ≡ as_nanos half_second) × (1500 < u64_limit))
milliseconds_iff_example = milliseconds_iff parse_duration (codes "1s 500ms") half_second 1500 refl

not_whole : seconds parse_duration (codes "1s 500ms") ≡ err (precision (codes "seconds"))
unfolding seconds
not_whole = refl

no_retention : retention_seconds parse_duration (codes "0s") ≡ err zero_retention
unfolding retention_seconds seconds
no_retention = refl

two_kilobytes : scaled byte_scales (text (codes "20K")) ≡ ok 20480
unfolding scaled
two_kilobytes = refl

scaled-exact_example :
    (digits unit : Str) × (scale : ℕ) × (codes "20K" ≡ digits ++ unit)
    × (all is_ascii_digit digits ≡ true)
    × (find_scale unit byte_scales ≡ some scale)
    × (20480 ≡ decimal 0 digits * scale)
    × (20480 < u64_limit)
scaled-exact_example = scaled-exact byte_scales (codes "20K") 20480 two_kilobytes

too_many_bytes : bytes (text (codes "16777216T")) ≡ err (overflowing_quantity (codes "16777216T"))
unfolding bytes scaled
too_many_bytes = refl
