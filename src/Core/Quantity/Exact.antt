-- ===== src/Core/Quantity/Exact.antt =====
-- Durations and quantities of crates/wrix-core/src are exact.
use wrix.Common.{
  ℕ, ◌+◌, ◌-◌, ◌*◌, ◌%◌, ◌<◌, ◌≡◌, ◌↔◌, refl, sym, ap, subst, ◌∙◌, inl, inr, true, List, [], ◌∷◌,
  ◌++◌, Option, none, some, ◌==◌, ltb, all, arith, Bool-cases, ltb→lt, lt→ltb, ==_iff, ok, ◌>>◌,
  guard, ok_or, bind-ok, guard-ok, ok-injective,
}
use wrix.Common.Text.{Str, codes}
use wrix.Core.Quantity.{
  Duration, ParseError, precision, overflow, u64_limit, as_millis, milliseconds, text,
  invalid_quantity, overflowing_quantity, is_ascii_digit, split_digits, find_scale, checked_mul,
  digits_value, parse_u64, scaled,
}

-- The nanoseconds of a duration.
abbrev pub as_nanos : Duration → ℕ
as_nanos duration = duration.as_secs * 1000000000 + duration.subsec_nanos

module _ (parse_duration : Str → Option Duration) where
  -- The milliseconds of a text are a number exactly when its duration is that many milliseconds to
  -- the nanosecond and the number is a `u64`.
  pub milliseconds_iff :
      (input : Str) (duration : Duration) (n : ℕ)
      → parse_duration input ≡ some duration
      → (milliseconds parse_duration input ≡ ok n)
        ↔ ((n * 1000000 ≡ as_nanos duration) × (n < u64_limit))
  unfolding milliseconds
  milliseconds_iff input d n h = (sound, complete)
    where
      sound :
          milliseconds parse_duration input ≡ ok n → (n * 1000000 ≡ as_nanos d) × (n < u64_limit)
      sound k =
          let run : (guard (d.subsec_nanos % 1000000 == 0) (precision (codes "milliseconds"))
                >> (guard (ltb (as_millis d) u64_limit) (overflow (codes "milliseconds"))
                    >> ok (as_millis d)))
              ≡ ok n =
            rw h at k in
          let (u1, e1, k1) =
            bind-ok (guard (d.subsec_nanos % 1000000 == 0) (precision (codes "milliseconds"))) _
              run in
          let (u2, e2, k2) =
            bind-ok (guard (ltb (as_millis d) u64_limit) (overflow (codes "milliseconds"))) _ k1 in
          let same : as_millis d ≡ n = ok-injective {E = ParseError} k2 in
          let whole =
            (==_iff (d.subsec_nanos % 1000000) 0).0
              (guard-ok (d.subsec_nanos % 1000000 == 0) (precision (codes "milliseconds")) e1) in
          let small =
            ltb→lt (as_millis d) u64_limit
              (guard-ok (ltb (as_millis d) u64_limit) (overflow (codes "milliseconds")) e2) in
          (omega arith, omega arith)

      complete :
          (n * 1000000 ≡ as_nanos d) × (n < u64_limit) → milliseconds parse_duration input ≡ ok n
      complete (e, small) =
          let whole : (d.subsec_nanos % 1000000 == 0) ≡ true =
            (==_iff (d.subsec_nanos % 1000000) 0).1 (omega arith) in
          let same : as_millis d ≡ n = omega arith in
          let fits : ltb (as_millis d) u64_limit ≡ true =
            lt→ltb (as_millis d) u64_limit (omega arith) in
          rw (h, whole, fits) (ap ok same)

-- The number that some digits spell.
abbrev pub decimal : ℕ → Str → ℕ
decimal value [] = value
decimal value (c ∷ s) = decimal (value * 10 + (c - b'0')) s

digits_value-decimal :
    (value : ℕ) (s : Str) {n : ℕ} → digits_value value s ≡ some n → decimal value s ≡ n
digits_value-decimal value [] h = cc
digits_value-decimal value (c ∷ s) {n} h =
    let next = value * 10 + (c - b'0') in
    elim (Bool-cases (ltb next u64_limit)) [
      | inl e ↦ digits_value-decimal next s (rw e at h)
      | inr e ↦ let failed : ◌≡◌ {A = Option ℕ} none (some n) = rw e at h in absurd cc
    ]

split_digits-append :
    (s : Str)
    → ((split_digits s).0 ++ (split_digits s).1 ≡ s)
      × (all is_ascii_digit (split_digits s).0 ≡ true)
split_digits-append [] = (refl, refl)
split_digits-append (c ∷ s) =
    let (whole, digits) = split_digits-append s in
    elim (Bool-cases (is_ascii_digit c)) [
      | inl e ↦ (rw e (ap (λ r. c ∷ r) whole), rw (e, e, digits))
      | inr e ↦ (rw e, rw e)
    ]

parse_u64-decimal : (s : Str) {n : ℕ} → parse_u64 s ≡ some n → decimal 0 s ≡ n
parse_u64-decimal [] h = cc
parse_u64-decimal (c ∷ s) h = digits_value-decimal 0 (c ∷ s) h

ok_or-ok : {E : Type 0} (o : Option ℕ) (e : E) {a : ℕ} → ok_or o e ≡ ok a → o ≡ some a
ok_or-ok none e h = cc
ok_or-ok (some b) e h = cc

checked_mul-exact :
    (value scale : ℕ) {n : ℕ}
    → checked_mul value scale ≡ some n
    → (n ≡ value * scale) × (n < u64_limit)
checked_mul-exact value scale {n} h = elim (Bool-cases (ltb (value * scale) u64_limit)) [
  | inl e ↦
      let made : ◌≡◌ {A = Option ℕ} (some (value * scale)) (some n) = rw e at h in
      let same : value * scale ≡ n = cc in
      (sym same, subst (λ m. m < u64_limit) same (ltb→lt (value * scale) u64_limit e))
  | inr e ↦ let failed : ◌≡◌ {A = Option ℕ} none (some n) = rw e at h in absurd cc
]

-- A text that is accepted as a quantity is some digits and a unit, and the quantity is the number
-- that the digits spell times the unit's scale, exactly, as a `u64`.
pub scaled-exact :
    (scales : List (Str × ℕ)) (content : Str) (n : ℕ)
    → scaled scales (text content) ≡ ok n
    → (digits unit : Str) × (scale : ℕ) × (content ≡ digits ++ unit)
      × (all is_ascii_digit digits ≡ true)
      × (find_scale unit scales ≡ some scale)
      × (n ≡ decimal 0 digits * scale)
      × (n < u64_limit)
unfolding scaled
scaled-exact scales content n h =
    let parts = split_digits content in
    let (scale, e1, h1) =
      bind-ok (ok_or (find_scale parts.1 scales) (invalid_quantity content)) _ h in
    let (value, e2, h2) = bind-ok (ok_or (parse_u64 parts.0) (invalid_quantity content)) _ h1 in
    let (whole, digits) = split_digits-append content in
    let spelled =
      parse_u64-decimal parts.0 (ok_or-ok (parse_u64 parts.0) (invalid_quantity content) e2) in
    let (exact, small) =
      checked_mul-exact value scale
        (ok_or-ok (checked_mul value scale) (overflowing_quantity content) h2) in
    (
      parts.0,
      parts.1,
      scale,
      sym whole,
      digits,
      ok_or-ok (find_scale parts.1 scales) (invalid_quantity content) e1,
      exact ∙ ap (λ v. v * scale) (sym spelled),
      small,
    )
