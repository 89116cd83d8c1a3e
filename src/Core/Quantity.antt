-- ===== src/Core/Quantity.antt =====
-- crates/wrix-core/src/duration/mod.rs and the quantities of
-- crates/wrix-core/src/repository_policy/cache/mod.rs. `humantime` is a crate: what it makes of a text
-- is a parameter, a duration in whole seconds and the nanoseconds of the last one.
pub mod Exact
mod Tests
use wrix.Common.{
  ℕ, zero, suc, ◌+◌, ◌-◌, ◌*◌, ◌/◌, ◌%◌, Bool, true, false, not, ◌&&◌, List, [], ◌∷◌, Option, none,
  some, ◌==◌, ltb, leb, if◌then◌else◌, Result, ok, err, ◌>>=◌, ◌>>◌, guard, ok_or,
}
use wrix.Common.Text.{Str, str_eq, codes}

pub record Duration : Type 0 where
  pub as_secs : ℕ
  pub subsec_nanos : ℕ

pub data ParseError : Type 0 where
  syntax : ParseError
  precision : Str → ParseError
  overflow : Str → ParseError
  zero_retention : ParseError

abbrev pub u64_limit : ℕ
u64_limit = 18446744073709551616

abbrev pub i32_limit : ℕ
i32_limit = 2147483648

-- `Duration::as_millis`, in `u128`.
abbrev pub as_millis : Duration → ℕ
as_millis duration = duration.as_secs * 1000 + duration.subsec_nanos / 1000000

module _ (parse_duration : Str → Option Duration) where
  -- `parse`.
  abbrev pub parse : Str → Result ParseError Duration
  parse input = ok_or (parse_duration input) syntax

  -- `seconds`.
  unfoldable pub seconds : Str → Result ParseError ℕ
  seconds input = do
    duration ← parse input
    guard (duration.subsec_nanos == 0) (precision (codes "seconds"))
    ok duration.as_secs

  -- `milliseconds`.
  unfoldable pub milliseconds : Str → Result ParseError ℕ
  milliseconds input = do
    duration ← parse input
    guard (duration.subsec_nanos % 1000000 == 0) (precision (codes "milliseconds"))
    guard (ltb (as_millis duration) u64_limit) (overflow (codes "milliseconds"))
    ok (as_millis duration)

  -- `retention_seconds`.
  unfoldable pub retention_seconds : Str → Result ParseError ℕ
  unfolding seconds
  retention_seconds input = do
    whole ← seconds input
    guard (not (whole == 0)) zero_retention
    guard (ltb whole i32_limit) (overflow (codes "native retention seconds"))
    ok whole

pub data Quantity : Type 0 where
  number : ℕ → Quantity
  text : Str → Quantity

pub data QuantityError : Type 0 where
  invalid_quantity : Str → QuantityError
  overflowing_quantity : Str → QuantityError
  invalid_duration : ParseError → QuantityError
  overflows_milliseconds : QuantityError

abbrev pub is_ascii_digit : ℕ → Bool
is_ascii_digit byte = leb b'0' byte && leb byte b'9'

-- `text.split_at(digits)`, where the digits at the start end.
abbrev pub split_digits : Str → Str × Str
split_digits [] = ([], [])
split_digits (c ∷ s) =
    let rest = split_digits s in if is_ascii_digit c then (c ∷ rest.0, rest.1) else ([], c ∷ s)

-- The entry of the first unit that is the suffix.
abbrev pub find_scale : Str → List (Str × ℕ) → Option ℕ
find_scale suffix [] = none
find_scale suffix ((unit, scale) ∷ scales) =
    if str_eq unit suffix then some scale else find_scale suffix scales

-- `value.checked_mul(scale)`.
abbrev pub checked_mul : ℕ → ℕ → Option ℕ
checked_mul value scale = if ltb (value * scale) u64_limit then some (value * scale) else none

-- The digits of a `u64`, added up from the left; more than a `u64` holds is an error.
abbrev pub digits_value : ℕ → Str → Option ℕ
digits_value value [] = some value
digits_value value (c ∷ s) =
    let next = value * 10 + (c - b'0') in
    let rest = digits_value next s in if ltb next u64_limit then rest else none

-- `number.parse::<u64>()`, on digits alone.
abbrev pub parse_u64 : Str → Option ℕ
parse_u64 [] = none
parse_u64 (c ∷ s) = digits_value 0 (c ∷ s)

-- `scaled`.
unfoldable pub scaled : List (Str × ℕ) → Quantity → Result QuantityError ℕ
scaled scales (number value) = ok value
scaled scales (text content) = do
  scale ← ok_or (find_scale (split_digits content).1 scales) (invalid_quantity content)
  value ← ok_or (parse_u64 (split_digits content).0) (invalid_quantity content)
  ok_or (checked_mul value scale) (overflowing_quantity content)

abbrev pub byte_scales : List (Str × ℕ)
byte_scales =
    (codes "", 1)
    ∷ (codes "K", 1024)
    ∷ (codes "M", 1048576)
    ∷ (codes "G", 1073741824)
    ∷ (codes "T", 1099511627776)
    ∷ []

-- The deserialisation of `Bytes`.
unfoldable pub bytes : Quantity → Result QuantityError ℕ
unfolding scaled
bytes quantity = scaled byte_scales quantity

abbrev pub in_quantity : Result ParseError ℕ → Result QuantityError ℕ
in_quantity (ok n) = ok n
in_quantity (err e) = err (invalid_duration e)

module _ (parse_duration : Str → Option Duration) where
  -- The deserialisation of `Milliseconds`.
  unfoldable pub milliseconds_of : Quantity → Result QuantityError ℕ
  unfolding milliseconds
  milliseconds_of (number value) = ok_or (checked_mul value 1000) overflows_milliseconds
  milliseconds_of (text content) = in_quantity (milliseconds parse_duration content)

  -- The deserialisation of `Seconds`.
  unfoldable pub seconds_of : Quantity → Result QuantityError ℕ
  unfolding seconds
  seconds_of (number value) = ok value
  seconds_of (text content) = in_quantity (seconds parse_duration content)
