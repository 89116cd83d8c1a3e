-- ===== src/Service/Gateway/Headers.antt =====
-- The headers of a request (crates/wrix-service/src/gateway/traffic/mod.rs). The map of headers
-- comes from a crate: it is an interface with its documented laws on names in lower case, where a
-- name has any number of values and what is removed has none. A value is read as ASCII text, where
-- it is that.
use wrix.Common.{
  ℕ, ◌≡◌, Bool, not, ◌&&◌, ◌||◌, List, [], ◌∷◌, ◌++◌, map, Option, none, some, ◌==◌, leb,
  if◌then◌else◌, is_empty, Result, ok, err, ok_or, guard, ◌>>=◌, ◌>>◌,
}
use wrix.Common.Text.{Str, str_eq, codes}
use wrix.Service.Policy.{to_lowercase, split_at}
use wrix.Service.Gateway.{Error, invalid_protocol, denied, try_from, contains_secret}

-- `HeaderMap` and `HeaderValue`.
pub record HeaderMap (M : Type 0) (V : Type 0) : Type 0 where
  pub new_map : M
  pub get_all : M → Str → List V
  pub remove : Str → M → M
  pub insert : Str → V → M → M
  pub from_static : Str → V
  pub to_str : V → Option Str
  pub as_bytes : V → Str

abbrev pub IsLower : Str → Type 0
IsLower name = map to_lowercase name ≡ name

pub record HeaderLaws {M V : Type 0} (headers : HeaderMap M V) : Type 0 where
  pub get_all-remove :
      (m : M) (name other : Str)
      → IsLower name
      → IsLower other
      → headers.get_all (headers.remove name m) other
        ≡ (if str_eq name other then [] else headers.get_all m other)
  pub get_all-insert :
      (m : M) (name other : Str) (value : V)
      → IsLower name
      → IsLower other
      → headers.get_all (headers.insert name value m) other
        ≡ (if str_eq name other then value ∷ [] else headers.get_all m other)
  pub to_str-from_static : (text : Str) → headers.to_str (headers.from_static text) ≡ some text

-- `str::strip_prefix`.
abbrev pub strip_prefix : Str → Str → Option Str
strip_prefix [] s = some s
strip_prefix (c ∷ prefix) [] = none
strip_prefix (c ∷ prefix) (d ∷ s) =
    let rest = strip_prefix prefix s in if c == d then rest else none

-- `char::is_whitespace` on ASCII.
unfoldable pub is_whitespace : ℕ → Bool
is_whitespace c = (leb 9 c && leb c 13) || c == 32

abbrev pub trim_left : Str → Str
trim_left [] = []
trim_left (c ∷ s) = let rest = trim_left s in if is_whitespace c then rest else c ∷ s

abbrev pub trim_right : Str → Str
trim_right [] = []
trim_right (c ∷ s) =
    let rest = trim_right s in if is_empty rest && is_whitespace c then [] else c ∷ rest

-- `str::trim`.
abbrev pub trim : Str → Str
trim s = trim_right (trim_left s)

-- The names that no `Connection` header may give.
abbrev pub framing_names : List Str
framing_names =
    codes "host"
    ∷ codes "content-length"
    ∷ codes "transfer-encoding"
    ∷ codes "proxy-authorization"
    ∷ []

abbrev pub hop_names : List Str
hop_names =
    codes "connection"
    ∷ codes "proxy-connection"
    ∷ codes "proxy-authorization"
    ∷ codes "proxy-authenticate"
    ∷ codes "keep-alive"
    ∷ codes "te"
    ∷ codes "trailer"
    ∷ codes "upgrade"
    ∷ []

unfoldable pub option_name : Str → Str
option_name part = map to_lowercase (trim part)

-- The names in the parts of one value.
unfoldable pub check_names : List Str → Result Error (List Str)
unfolding option_name
check_names [] = ok []
check_names (part ∷ parts) = do
  guard (not (contains_secret framing_names (option_name part))) invalid_protocol
  names ← check_names parts
  ok (option_name part ∷ names)

abbrev pub or_denied : Result Error Str → Result Error Str
or_denied (ok secret) = ok secret
or_denied (err e) = err denied

abbrev pub as_secret : Str → Result Error Str
as_secret text = or_denied (try_from text)

module _ {M V : Type 0} (headers : HeaderMap M V) where
  abbrev pub contains_name : M → Str → Bool
  contains_name m name = not (is_empty (headers.get_all m name))

  -- The names that the values of `Connection` give.
  unfoldable pub option_names : List V → Result Error (List Str)
  unfolding check_names
  option_names [] = ok []
  option_names (value ∷ values) = do
    text ← ok_or (headers.to_str value) invalid_protocol
    names ← check_names (split_at b',' text)
    rest ← option_names values
    ok (names ++ rest)

  abbrev pub remove_names : List Str → M → M
  remove_names [] m = m
  remove_names (name ∷ names) m = remove_names names (headers.remove name m)

  -- `strip_hop`.
  unfoldable pub strip_hop : M → Result Error M
  unfolding option_names
  strip_hop m = do
    names ← option_names (headers.get_all m (codes "connection"))
    ok (remove_names hop_names (remove_names names m))

  abbrev pub only_value : List V → Option V
  only_value [] = none
  only_value (value ∷ []) = some value
  only_value (value ∷ other ∷ values) = none

  module _ (decode : Str → Option Str) (is_utf8 : Str → Bool) where
    abbrev pub basic_secret : Option Str → Result Error Str
    basic_secret none = err denied
    basic_secret (some encoded) = do
      bytes ← ok_or (decode encoded) denied
      guard (is_utf8 bytes) denied
      text ← ok_or (strip_prefix (codes "wrix:") bytes) denied
      as_secret text

    abbrev pub secret_of : Str → Option Str → Result Error Str
    secret_of text (some token) = as_secret token
    secret_of text none = basic_secret (strip_prefix (codes "Basic ") text)

    -- `credential`; the decoder of base 64 is a crate's.
    unfoldable pub credential : M → Result Error Str
    unfolding try_from
    credential m = do
      value ← ok_or (only_value (headers.get_all m (codes "proxy-authorization"))) denied
      text ← ok_or (headers.to_str value) denied
      secret_of text (strip_prefix (codes "Bearer ") text)
