-- ===== src/Service/Gateway/Traffic/Destination.antt =====
-- `destination` of crates/wrix-service/src/gateway/traffic/mod.rs: the host and the port that a
-- request is for. A URI comes from a crate, and is what its accessors answer.
use wrix.Common.{
  ℕ, ◌+◌, ◌-◌, ◌*◌, Bool, true, false, not, ◌&&◌, ◌||◌, [], ◌∷◌, Option, none, some, ◌==◌, ltb, leb,
  if◌then◌else◌, length, get_elem?, is_empty, Result, ok, ok_or, guard, ◌>>=◌, ◌>>◌,
}
use wrix.Common.Text.{Str, str_eq, codes, split_once}
use wrix.Service.Policy.{Host, is_digit, parse_host}
use wrix.Service.Gateway.{Error, invalid_protocol}
use wrix.Service.Gateway.Management.{host_error}
use wrix.Service.Gateway.Headers.{HeaderMap, contains_name, only_value}

pub record Uri : Type 0 where
  pub has_userinfo : Bool
  pub has_fragment : Bool
  pub scheme : Option Str
  pub host : Option Str
  pub port : Option ℕ
  pub path : Option Str
  pub query : Option Str
  pub path_or_root : Str

pub record Request (M : Type 0) : Type 0 where
  pub is_connect : Bool
  pub is_get : Bool
  pub uri : Uri
  pub headers : M

abbrev pub decimal : ℕ → Str → Option ℕ
decimal value [] = some value
decimal value (c ∷ s) = if is_digit c then decimal (value * 10 + (c - b'0')) s else none

-- A number that is a `NonZeroU16`.
abbrev pub nonzero_port : Option ℕ → Option ℕ
nonzero_port none = none
nonzero_port (some port) = if ltb 0 port && leb port 65535 then some port else none

abbrev pub without_plus : Str → Str
without_plus [] = []
without_plus (c ∷ s) = if c == b'+' then s else c ∷ s

-- `str::parse::<NonZeroU16>`.
unfoldable pub parse_port : Str → Option ℕ
unfolding is_digit
parse_port text =
    if is_empty (without_plus text) then none else nonzero_port (decimal 0 (without_plus text))

abbrev pub some_and {ℓ} : {A : Type ℓ} → (A → Bool) → Option A → Bool
some_and p none = false
some_and p (some a) = p a

abbrev pub port_default : Bool → ℕ
port_default true = 0
port_default false = 80

abbrev pub or_default : Option ℕ → ℕ → ℕ
or_default none d = d
or_default (some p) d = p

module _ (parse_ipv4 : Str → Option ℕ) where
  -- The host and the port of the `Host` header.
  unfoldable pub host_port : Bool → Str → Option (Str × Str) → Result Error (Host × ℕ)
  host_port connect header (some (name, port)) = do
    host ← host_error (parse_host parse_ipv4 name)
    number ← ok_or (parse_port port) invalid_protocol
    ok (host, number)
  host_port connect header none = do
    guard (not connect) invalid_protocol
    host ← host_error (parse_host parse_ipv4 header)
    ok (host, 80)

  -- The host and the port of the URI.
  unfoldable pub uri_port : Bool → Uri → Result Error (Host × ℕ)
  uri_port connect uri = do
    guard (not (uri.has_userinfo || uri.has_fragment)) invalid_protocol
    guard
        (not (
          connect
          && (some_and (λ path. not (is_empty path)) uri.path || some_and (λ q. true) uri.query)))
        invalid_protocol
    guard
        (not (
          (not connect && not (some_and (λ s. str_eq s (codes "http")) uri.scheme))
          || (connect && some_and (λ s. true) uri.scheme)))
        invalid_protocol
    name ← ok_or uri.host invalid_protocol
    host ← host_error (parse_host parse_ipv4 name)
    port ← ok_or (nonzero_port (some (or_default uri.port (port_default connect)))) invalid_protocol
    ok (host, port)

module _ {M V : Type 0} (headers : HeaderMap M V) where
  -- The headers that the destination must not have.
  unfoldable pub is_framed_wrong : Bool → M → Bool
  is_framed_wrong connect m =
      (contains_name headers m (codes "upgrade")
        || (contains_name headers m (codes "expect")
            || ((contains_name headers m (codes "transfer-encoding")
                  && contains_name headers m (codes "content-length"))
                || ltb 1 (length (headers.get_all m (codes "content-length"))))))
      || (connect
          && (contains_name headers m (codes "transfer-encoding")
              || some_and (λ v. not (str_eq (headers.as_bytes v) (codes "0")))
                  (get_elem? (headers.get_all m (codes "content-length")) 0)))

  module _ (parse_ipv4 : Str → Option ℕ) where
    -- `destination`.
    unfoldable pub destination : Request M → Result Error (Host × ℕ)
    unfolding uri_port host_port is_framed_wrong
    destination request = do
      target ← uri_port parse_ipv4 request.is_connect request.uri
      value ←
          ok_or (only_value headers (headers.get_all request.headers (codes "host")))
            invalid_protocol
      header ← ok_or (headers.to_str value) invalid_protocol
      named ← host_port parse_ipv4 request.is_connect header (split_once b':' header)
      guard (str_eq target.0.text named.0.text && target.1 == named.1) invalid_protocol
      guard (not (is_framed_wrong request.is_connect request.headers)) invalid_protocol
      ok target
