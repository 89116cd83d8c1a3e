-- ===== src/Service/Policy.antt =====
-- crates/wrix-service/src/gateway/policy/mod.rs: the hosts and ports that the egress gateway permits.
-- The parser of an IPv4 address is the standard library's, and an argument. A port is a `NonZeroU16`.
pub mod Hosts
pub mod Baseline
pub mod Masks
pub mod Blocked
mod Tests
use wrix.Common.{
  ℕ, zero, suc, ◌+◌, ◌-◌, Bool, true, false, not, ◌&&◌, ◌||◌, List, [], ◌∷◌, map, Option, none,
  some, ◌==◌, ltb, leb, if◌then◌else◌, length, is_empty, all, any, Result, ok, err, ◌>>=◌,
}
use wrix.Common.Text.{Str, str_eq}

pub data Error : Type 0 where
  invalid : Error

-- `u8::to_ascii_lowercase`.
unfoldable pub to_lowercase : ℕ → ℕ
to_lowercase c = if leb b'A' c && leb c b'Z' then c + 32 else c

unfoldable pub is_digit : ℕ → Bool
is_digit c = leb b'0' c && leb c b'9'

unfoldable pub is_label_byte : ℕ → Bool
unfolding is_digit
is_label_byte c =
    (is_digit c || ((leb b'A' c && leb c b'Z') || (leb b'a' c && leb c b'z'))) || c == b'-'

abbrev pub starts_with : ℕ → Str → Bool
starts_with b [] = false
starts_with b (c ∷ s) = c == b

abbrev pub ends_with : ℕ → Str → Bool
ends_with b [] = false
ends_with b (c ∷ []) = c == b
ends_with b (c ∷ d ∷ s) = ends_with b (d ∷ s)

-- A byte before the first part of a split.
abbrev pub extend_first : ℕ → List Str → List Str
extend_first c [] = (c ∷ []) ∷ []
extend_first c (part ∷ parts) = (c ∷ part) ∷ parts

-- `str::split` at one byte: a text without it is one part.
abbrev pub split_at : ℕ → Str → List Str
split_at b [] = [] ∷ []
split_at b (c ∷ s) = let rest = split_at b s in if c == b then [] ∷ rest else extend_first c rest

-- A part that refuses the host.
unfoldable pub is_bad_label : Str → Bool
unfolding is_label_byte
is_bad_label part =
    is_empty part
    || (ltb 63 (length part)
        || (starts_with b'-' part || (ends_with b'-' part || not (all is_label_byte part))))

unfoldable pub is_bad_host : Str → Bool
unfolding is_bad_label
is_bad_host value =
    ltb 253 (length value) || (is_empty value || any is_bad_label (split_at b'.' value))

unfoldable pub is_numeric : Str → Bool
unfolding is_digit
is_numeric value = all (λ b. is_digit b || b == b'.') value

-- `Host`, which keeps its text.
pub record Host : Type 0 where
  pub text : Str

abbrev pub is_none {ℓ} : {A : Type ℓ} → Option A → Bool
is_none none = true
is_none (some a) = false

-- `Rule`, and `RawRule`, its form in JSON.
pub record Rule : Type 0 where
  pub host : Host
  pub ports : List ℕ

pub record RawRule : Type 0 where
  pub raw_host : Host
  pub raw_ports : List ℕ

unfoldable pub new_rule : Host → List ℕ → Result Error Rule
new_rule host ports =
    if is_empty ports || ltb 256 (length ports)
    then err invalid
    else ok (record { host = host; ports = ports })

-- `RawRule` to `Rule`, and back.
unfoldable pub try_from_raw : RawRule → Result Error Rule
unfolding new_rule
try_from_raw value = new_rule value.raw_host value.raw_ports

unfoldable pub from_rule : Rule → RawRule
from_rule value = record { raw_host = value.host; raw_ports = value.ports }

unfoldable pub new_policy : List Rule → Result Error (List Rule)
new_policy rules = if ltb 256 (length rules) then err invalid else ok rules

unfoldable pub rule_permits : Host → ℕ → Rule → Bool
rule_permits host port rule = str_eq rule.host.text host.text && any (λ p. p == port) rule.ports

-- `Policy::permits`.
unfoldable pub permits : List Rule → Host → ℕ → Bool
unfolding rule_permits
permits rules host port = any (rule_permits host port) rules

module _ (parse_ipv4 : Str → Option ℕ) where
  -- The text in lower case, where it is a host.
  unfoldable pub parse_lowercase : Str → Result Error Host
  unfolding is_bad_host is_numeric
  parse_lowercase value =
      if is_bad_host value
      then err invalid
      else if is_numeric value && is_none (parse_ipv4 value)
      then err invalid
      else ok (record { text = value })

  -- `Host::parse`.
  unfoldable pub parse_host : Str → Result Error Host
  unfolding to_lowercase parse_lowercase
  parse_host value = parse_lowercase (map to_lowercase value)
