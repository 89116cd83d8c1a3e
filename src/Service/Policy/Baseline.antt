-- ===== src/Service/Policy/Baseline.antt =====
-- `Baseline` of crates/wrix-service/src/gateway/policy/mod.rs: the ranges of addresses that a
-- worker may not reach. Its source is a shell script, split into words; the parser of an IPv4
-- address, which gives a `u32`, is the standard library's, and an argument, like that of a `u32`.
use Prim.Native.Nat.{bit_and}
use wrix.Common.{
  ℕ, ◌-◌, ◌*◌, ◌%◌, ◌^◌, Bool, false, not, ◌&&◌, List, [], ◌∷◌, Option, ◌==◌, ltb, leb,
  if◌then◌else◌, length, any, Result, ok, ok_or, guard, ◌>>=◌, ◌>>◌,
}
use wrix.Common.Text.{Str, split_once}
use wrix.Service.Policy.{Error, invalid}

-- `SocketAddr`: an IPv6 address has its bits, its port, its flow label and its scope.
pub data Address : Type 0 where
  v4 : ℕ → ℕ → Address
  v6 : ℕ → ℕ → ℕ → ℕ → Address

abbrev pub address_eq : Address → Address → Bool
address_eq (v4 ip port) (v4 ip' port') = ip == ip' && port == port'
address_eq (v4 ip port) (v6 bits port' flow scope) = false
address_eq (v6 bits port flow scope) (v4 ip port') = false
address_eq (v6 bits port flow scope) (v6 bits' port' flow' scope') =
    bits == bits' && (port == port' && (flow == flow' && scope == scope'))

-- A network and its mask.
pub record Range : Type 0 where
  pub network : ℕ
  pub mask : ℕ

abbrev pub u32_limit : ℕ
u32_limit = 4294967296

-- `u32::MAX.checked_shl(shift).unwrap_or(0)`.
unfoldable pub shifted_max : ℕ → ℕ
shifted_max shift = if ltb shift 32 then (u32_limit - 1) * 2 ^ shift % u32_limit else 0

-- `(u32::from(*address.ip()) & mask == *network)`.
unfoldable pub in_range : ℕ → Range → Bool
in_range ip range = bit_and ip range.mask == range.network

-- `Baseline::permits`.
unfoldable pub baseline_permits : List Range → Address → Bool
unfolding in_range
baseline_permits ranges (v4 ip port) = not (any (in_range ip) ranges)
baseline_permits ranges (v6 bits port flow scope) = false

module _ (parse_ipv4 : Str → Option ℕ) (parse_u32 : Str → Option ℕ) where
  -- The range of one word.
  unfoldable pub parse_range : Str → Result Error Range
  unfolding shifted_max
  parse_range cidr = do
    parts ← ok_or (split_once b'/' cidr) invalid
    ip ← ok_or (parse_ipv4 parts.0) invalid
    prefix ← ok_or (parse_u32 parts.1) invalid
    guard (leb prefix 32) invalid
    ok (record {
      network = bit_and ip (shifted_max (32 - prefix));
      mask = shifted_max (32 - prefix);
    })

  -- `collect`: the first error, or all the ranges.
  unfoldable pub parse_ranges : List Str → Result Error (List Range)
  unfolding parse_range
  parse_ranges [] = ok []
  parse_ranges (cidr ∷ cidrs) = do
    range ← parse_range cidr
    ranges ← parse_ranges cidrs
    ok (range ∷ ranges)

  -- `Baseline::load`, from the words between the parentheses, where the script has them.
  unfoldable pub load_baseline : Option (List Str) → Result Error (List Range)
  unfolding parse_ranges
  load_baseline words = do
    cidrs ← ok_or words invalid
    ranges ← parse_ranges cidrs
    guard (leb 15 (length ranges)) invalid
    ok ranges
