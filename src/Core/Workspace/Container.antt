-- ===== src/Core/Workspace/Container.antt =====
-- Container names (crates/wrix-core/src/path/mod.rs): what a workspace's directory name gives is a
-- name that `from_persisted` accepts.
use mathlib.Core.List.{reverse, reverse_aux}
use wrix.Common.{
  ℕ, zero, suc, ◌≡◌, refl, Bool, true, false, ◌&&◌, [], ◌∷◌, ◌++◌, map, Option, none, some, arith,
  ◌==◌, length, take, all, is_empty, &&-true,
}
use wrix.Common.Text.{Str, codes}
use wrix.Core.Workspace.{
  is_valid_str, hex_len, is_lower_hex_digit, is_name_char, is_kept_char, from_persisted, trim_start,
  trim_ends, replace_char, sanitize_container_component, repository_slug, short_prefix,
  container_name, disambiguated_container_name,
}
use wrix.Core.Workspace.Hash.{all-append}

replace_char-is_name : (c : ℕ) → is_name_char (replace_char c) ≡ true
unfolding replace_char is_kept_char is_name_char
replace_char-is_name c = ground arith

all-map-replace_char : (s : Str) → all is_name_char (map replace_char s) ≡ true
all-map-replace_char [] = refl
all-map-replace_char (c ∷ s) = rw (replace_char-is_name c, all-map-replace_char s)

module _ (p : ℕ → Bool) where
  all-reverse_aux : (s t : Str) → all p s ≡ true → all p t ≡ true → all p (reverse_aux s t) ≡ true
  all-reverse_aux [] t h k = k
  all-reverse_aux (c ∷ s) t h k =
      let (head, tail) = &&-true (p c) (all p s) h in all-reverse_aux s (c ∷ t) tail (rw (head, k))

  all-reverse : (s : Str) → all p s ≡ true → all p (reverse s) ≡ true
  all-reverse s h = all-reverse_aux s [] h refl

  all-trim_start : (s : Str) → all p s ≡ true → all p (trim_start s) ≡ true
  unfolding trim_start
  all-trim_start [] h = refl
  all-trim_start (c ∷ s) h = ground (arith, all-trim_start s)

  all-trim_ends : (s : Str) → all p s ≡ true → all p (trim_ends s) ≡ true
  unfolding trim_ends
  all-trim_ends s h =
      all-reverse (trim_start (reverse (trim_start s)))
        (all-trim_start (reverse (trim_start s)) (all-reverse (trim_start s) (all-trim_start s h)))

sanitized-is_name : (input : Str) → all is_name_char (sanitize_container_component input) ≡ true
unfolding sanitize_container_component
sanitized-is_name input =
    all-trim_ends is_name_char (map replace_char input) (all-map-replace_char input)

repository_slug-is_name : (name : Option Str) → all is_name_char (repository_slug name) ≡ true
unfolding repository_slug is_name_char
repository_slug-is_name none = refl
repository_slug-is_name (some name) = ground (arith, sanitized-is_name name)

append-nonempty : (s : Str) (c : ℕ) (t : Str) → is_empty (s ++ c ∷ t) ≡ false
append-nonempty [] c t = refl
append-nonempty (d ∷ s) c t = refl

from_persisted-append :
    (c : ℕ) (s t : Str)
    → all is_name_char s ≡ true
    → all is_name_char (c ∷ t) ≡ true
    → from_persisted (s ++ c ∷ t) ≡ some (s ++ c ∷ t)
unfolding from_persisted
from_persisted-append c s t h k =
    let whole : all is_name_char (s ++ c ∷ t) ≡ true =
      rw (all-append is_name_char s (c ∷ t), h, k) in
    rw (append-nonempty s c t, whole)

digit-is_name : (c : ℕ) → is_lower_hex_digit c ≡ true → is_name_char c ≡ true
unfolding is_lower_hex_digit is_name_char
digit-is_name c h = ground arith

hex-is_name : (s : Str) → all is_lower_hex_digit s ≡ true → all is_name_char s ≡ true
hex-is_name [] h = refl
hex-is_name (c ∷ s) h =
    let (head, tail) = &&-true (is_lower_hex_digit c) (all is_lower_hex_digit s) h in
    rw (digit-is_name c head, hex-is_name s tail)

all-take :
    (n : ℕ) (s : Str) → all is_lower_hex_digit s ≡ true → all is_lower_hex_digit (take n s) ≡ true
all-take zero s h = refl
all-take (suc n) [] h = refl
all-take (suc n) (c ∷ s) h =
    let (head, tail) = &&-true (is_lower_hex_digit c) (all is_lower_hex_digit s) h in
    rw (head, all-take n s tail)

valid-digits :
    (hash : Str)
    → is_valid_str hash ≡ true
    → (length hash == hex_len && all is_lower_hex_digit hash) ≡ true
unfolding is_valid_str
valid-digits hash h = h

service_suffix : all is_name_char (codes "-service") ≡ true
unfolding is_name_char
service_suffix = refl

dashed-is_name :
    (s : Str) → all is_name_char s ≡ true → all is_name_char (b'-' ∷ (s ++ codes "-service")) ≡ true
unfolding is_name_char
dashed-is_name s h = rw (all-append is_name_char s (codes "-service"), h)

-- Both container names of a workspace, whatever its directory is called, are names that
-- `from_persisted` accepts, when the hash is one that `WorkspaceHash::parse` accepts.
pub container_name_lem :
    (name : Option Str) (hash : Str)
    → is_valid_str hash ≡ true
    → (from_persisted (container_name name) ≡ some (container_name name))
      × (from_persisted (disambiguated_container_name name hash)
          ≡ some (disambiguated_container_name name hash))
unfolding container_name disambiguated_container_name
container_name_lem name hash h =
    let slug = repository_slug-is_name name in
    let digits =
      &&-true (length hash == hex_len) (all is_lower_hex_digit hash) (valid-digits hash h) in
    let prefix = hex-is_name (take 12 hash) (all-take 12 hash digits.1) in
    (
      from_persisted-append b'-' (repository_slug name) (codes "service") slug service_suffix,
      from_persisted-append b'-' (repository_slug name) (short_prefix hash ++ codes "-service") slug
          (dashed-is_name (take 12 hash) prefix),
    )
