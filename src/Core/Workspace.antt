-- ===== src/Core/Workspace.antt =====
-- crates/wrix-core/src/path/mod.rs: workspace hashes, container names and the nearest repository.
-- SHA-256 comes from a crate and enters as the digest that it gives.
pub mod Hash
pub mod Container
use wrix.Common.{
  ℕ, zero, suc, ◌+◌, ◌-◌, ◌*◌, ◌/◌, ◌%◌, ◌≡◌, refl, Bool, true, false, not, ◌&&◌, ◌||◌, List, [],
  ◌∷◌, ◌++◌, map, Option, none, some, ◌==◌, ltb, leb, if◌then◌else◌, length, take, all, is_empty,
}
use mathlib.Core.List.{reverse}
use wrix.Common.Text.{Str, codes}

-- `is_lower_hex_digit`.
unfoldable pub is_lower_hex_digit : ℕ → Bool
is_lower_hex_digit byte = (leb b'0' byte && leb byte b'9') || (leb b'a' byte && leb byte b'f')

unfoldable pub hex_nibble : ℕ → ℕ
hex_nibble byte =
    if leb b'0' byte && leb byte b'9'
    then byte - b'0'
    else if leb b'a' byte && leb byte b'f'
    then byte - b'a' + 10
    else 0

-- `HEX[nibble]`.
unfoldable pub hex_digit : ℕ → ℕ
hex_digit nibble = if ltb nibble 10 then b'0' + nibble else b'a' + (nibble - 10)

-- `push_hex_byte`: the two digits of a byte.
unfoldable pub push_hex_byte : Str → ℕ → Str
unfolding hex_digit
push_hex_byte output byte = output ++ hex_digit (byte / 16) ∷ hex_digit (byte % 16) ∷ []

-- The loop of `WorkspaceHash::from_path` over the digest.
unfoldable pub push_hex_bytes : Str → List ℕ → Str
unfolding push_hex_byte
push_hex_bytes hash [] = hash
push_hex_bytes hash (byte ∷ digest) = push_hex_bytes (push_hex_byte hash byte) digest

abbrev pub hex_len : ℕ
hex_len = 64

unfoldable pub is_valid_str : Str → Bool
is_valid_str value = length value == hex_len && all is_lower_hex_digit value

-- `WorkspaceHash::parse`.
unfoldable pub parse_hash : Str → Option Str
unfolding is_valid_str
parse_hash value = if is_valid_str value then some value else none

abbrev pub u32_mod : ℕ
u32_mod = 4294967296

abbrev pub u16_mod : ℕ
u16_mod = 65536

-- One round of the loop of `port_offset`, in `u32`; a value that is no `u16` becomes 0.
unfoldable pub offset_step : ℕ → ℕ → ℕ → ℕ
offset_step width value byte =
    let next = ((value * 16 % u32_mod + hex_nibble byte) % u32_mod) % width in
    if ltb next u16_mod then next else 0

unfoldable pub offset_loop : ℕ → ℕ → Str → ℕ
unfolding offset_step
offset_loop width value [] = value
offset_loop width value (byte ∷ bytes) = offset_loop width (offset_step width value byte) bytes

unfoldable pub port_offset : Str → ℕ → ℕ
unfolding offset_loop
port_offset hash width = if width == 0 then 0 else offset_loop width 0 (take 16 hash)

abbrev pub short_prefix : Str → Str
short_prefix hash = take 12 hash

-- `char::is_ascii_alphanumeric`.
abbrev pub is_ascii_alphanumeric : ℕ → Bool
is_ascii_alphanumeric c =
    (leb b'0' c && leb c b'9') || ((leb b'A' c && leb c b'Z') || (leb b'a' c && leb c b'z'))

-- The characters of a container name.
unfoldable pub is_name_char : ℕ → Bool
is_name_char c = is_ascii_alphanumeric c || (c == b'_' || (c == b'.' || c == b'-'))

-- `ContainerName::from_persisted`.
unfoldable pub from_persisted : Str → Option Str
unfolding is_name_char
from_persisted value = if not (is_empty value) && all is_name_char value then some value else none

unfoldable pub is_trimmed_char : ℕ → Bool
is_trimmed_char c = c == b'.' || c == b'-'

-- `trim_start_matches`.
unfoldable pub trim_start : Str → Str
unfolding is_trimmed_char
trim_start [] = []
trim_start (c ∷ s) = if is_trimmed_char c then trim_start s else c ∷ s

-- `trim_matches`, at both ends.
unfoldable pub trim_ends : Str → Str
unfolding trim_start
trim_ends s = reverse (trim_start (reverse (trim_start s)))

-- The list of `sanitize_container_component`, beside the one of `from_persisted`.
unfoldable pub is_kept_char : ℕ → Bool
is_kept_char c = is_ascii_alphanumeric c || (c == b'_' || (c == b'.' || c == b'-'))

unfoldable pub replace_char : ℕ → ℕ
unfolding is_kept_char
replace_char c = if is_kept_char c then c else b'-'

unfoldable pub sanitize_container_component : Str → Str
unfolding replace_char trim_ends
sanitize_container_component input = trim_ends (map replace_char input)

-- `repository_slug`, from the file name of the workspace where it has one that is UTF-8.
unfoldable pub repository_slug : Option Str → Str
unfolding sanitize_container_component
repository_slug none = codes "workspace"
repository_slug (some name) =
    let slug = sanitize_container_component name in
    if is_empty slug then codes "workspace" else slug

unfoldable pub container_name : Option Str → Str
unfolding repository_slug
container_name name = repository_slug name ++ codes "-service"

unfoldable pub disambiguated_container_name : Option Str → Str → Str
unfolding repository_slug
disambiguated_container_name name hash =
    repository_slug name ++ (b'-' ∷ (short_prefix hash ++ codes "-service"))
