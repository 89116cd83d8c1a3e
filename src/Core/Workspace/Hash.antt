-- ===== src/Core/Workspace/Hash.antt =====
-- The hash of a workspace (crates/wrix-core/src/path/mod.rs): its digits, and the port offset.
use native.Mathlib.Nat.{mod-lt, mod-add-div', add-mul-mod_self_right, mod-eq_of_lt, zero-mod}
use wrix.Common.{
  ℕ, ◌+◌, ◌*◌, ◌/◌, ◌%◌, ◌<◌, ◌≡◌, refl, subst, Bool, true, ◌&&◌, List, [], ◌∷◌, ◌++◌, some, arith,
  ◌==◌, ltb, if◌then◌else◌, length, all, length-append, take,
}
use wrix.Common.Text.{Str, codes}
use wrix.Core.Workspace.{
  is_lower_hex_digit, hex_nibble, hex_digit, push_hex_byte, push_hex_bytes, is_valid_str,
  offset_step, offset_loop, port_offset, parse_hash, u16_mod, u32_mod,
}

-- Every entry of a digest is a byte.
abbrev pub AllBytes : List ℕ → Type 0
AllBytes [] = Unit {0}
AllBytes (b ∷ bs) = (b < 256) × AllBytes bs

hex_digit-is_lower : (n : ℕ) → n < 16 → is_lower_hex_digit (hex_digit n) ≡ true
unfolding is_lower_hex_digit hex_digit
hex_digit-is_lower n h = ground arith

pub all-append {ℓ} :
    {A : Type ℓ} (p : A → Bool) (xs ys : List A) → all p (xs ++ ys) ≡ (all p xs && all p ys)
all-append p [] ys = refl
all-append p (x ∷ xs) ys = ground (arith, all-append p xs ys)

push_hex_byte-digits :
    (hash : Str) (b : ℕ)
    → all is_lower_hex_digit hash ≡ true
    → b < 256
    → all is_lower_hex_digit (push_hex_byte hash b) ≡ true
unfolding push_hex_byte
push_hex_byte-digits hash b h k =
    let high = hex_digit-is_lower (b / 16) (omega arith) in
    let low = hex_digit-is_lower (b % 16) (omega arith) in
    ground (
      arith,
      all-append is_lower_hex_digit hash (hex_digit (b / 16) ∷ hex_digit (b % 16) ∷ []),
      high,
      low,
      h,
    )

length-push_hex_byte : (hash : Str) (b : ℕ) → length (push_hex_byte hash b) ≡ length hash + 2
unfolding push_hex_byte
length-push_hex_byte hash b = length-append hash (hex_digit (b / 16) ∷ hex_digit (b % 16) ∷ [])

pub push_hex_bytes-digits :
    (hash : Str) (digest : List ℕ)
    → all is_lower_hex_digit hash ≡ true
    → AllBytes digest
    → (all is_lower_hex_digit (push_hex_bytes hash digest) ≡ true)
      × (length (push_hex_bytes hash digest) ≡ length hash + 2 * length digest)
unfolding push_hex_bytes
push_hex_bytes-digits hash [] h k = (h, omega arith)
push_hex_bytes-digits hash (b ∷ bs) h (k, ks) =
    let (digits, len) =
      push_hex_bytes-digits (push_hex_byte hash b) bs (push_hex_byte-digits hash b h k) ks in
    (digits, omega (arith, len, length-push_hex_byte hash b))

-- A digest of 32 bytes is written as a text that `WorkspaceHash::parse` accepts as it is.
pub parse_hash-push_hex_bytes :
    (digest : List ℕ)
    → AllBytes digest
    → length digest ≡ 32
    → parse_hash (push_hex_bytes [] digest) ≡ some (push_hex_bytes [] digest)
unfolding parse_hash is_valid_str
parse_hash-push_hex_bytes digest h k =
    let (digits, len) = push_hex_bytes-digits [] digest refl h in ground (arith, digits, len)

-- The place of a byte in a text whose first byte has the given place, or 0.
abbrev place : ℕ → Str → ℕ → ℕ
place byte [] n = 0
place byte (c ∷ text) n = if byte == c then n else place byte text (n + 1)

abbrev pub digit_value : ℕ → ℕ
digit_value byte = place byte (codes "0123456789abcdef") 0

-- The number that hexadecimal digits spell, after a prefix of the given value.
abbrev pub hex_value : ℕ → Str → ℕ
hex_value value [] = value
hex_value value (byte ∷ bytes) = hex_value (value * 16 + digit_value byte) bytes

hex_nibble-digit_value : (byte : ℕ) → hex_nibble byte ≡ digit_value byte
unfolding hex_nibble
hex_nibble-digit_value byte = ground arith

hex_nibble-bound : (b : ℕ) → hex_nibble b < 16
unfolding hex_nibble
hex_nibble-bound b = ground arith

mod-digit : (v n w : ℕ) → (v % w * 16 + n) % w ≡ (v * 16 + n) % w
mod-digit v n w =
    let whole = mod-add-div' v w in
    let split : v * 16 + n ≡ (v % w * 16 + n) + v / w * 16 * w = omega (arith, whole) in
    rw (split, add-mul-mod_self_right (v % w * 16 + n) (v / w * 16) w)

-- No round overflows `u32`, and none meets the fallback of `u16::try_from`.
round-exact :
    (r d w : ℕ)
    → r < w
    → w < u16_mod
    → d < 16
    → ((r * 16 % u32_mod + d) % u32_mod) % w ≡ (r * 16 + d) % w
round-exact r d w h k l =
    let shifted : r * 16 % u32_mod ≡ r * 16 = mod-eq_of_lt (omega arith) in
    let added : (r * 16 + d) % u32_mod ≡ r * 16 + d = mod-eq_of_lt (omega arith) in
    rw (shifted, added)

kept : (x w : ℕ) → x < w → w < u16_mod → (if ltb x u16_mod then x else 0) ≡ x
kept x w h k = ground arith

offset_step-mod :
    (v b w : ℕ) → 0 < w → w < u16_mod → offset_step w (v % w) b ≡ (v * 16 + hex_nibble b) % w
unfolding offset_step
offset_step-mod v b w h k =
    let exact = round-exact (v % w) (hex_nibble b) w (mod-lt v h) k (hex_nibble-bound b) in
    rw (
      exact,
      kept ((v % w * 16 + hex_nibble b) % w) w (mod-lt (v % w * 16 + hex_nibble b) h) k,
      mod-digit v (hex_nibble b) w,
    )

offset_loop-mod :
    (w v : ℕ) (bytes : Str)
    → 0 < w
    → w < u16_mod
    → offset_loop w (v % w) bytes ≡ hex_value v bytes % w
unfolding offset_loop
offset_loop-mod w v [] h k = refl
offset_loop-mod w v (b ∷ bytes) h k = rw (
  offset_step-mod v b w h k,
  hex_nibble-digit_value b,
  offset_loop-mod w (v * 16 + digit_value b) bytes h k,
)

-- The offset below a `u16` width that is not 0 is less than the width: it is the number the first
-- sixteen digits of the hash spell, modulo the width.
pub port_offset_lem :
    (hash : Str) (width : ℕ)
    → 0 < width
    → width < u16_mod
    → (port_offset hash width ≡ hex_value 0 (take 16 hash) % width)
      × (port_offset hash width < width)
unfolding port_offset
port_offset_lem hash width h k =
    let value =
      subst (λ s. offset_loop width s (take 16 hash) ≡ hex_value 0 (take 16 hash) % width)
        (zero-mod width) (offset_loop-mod width 0 (take 16 hash) h k) in
    let bound = mod-lt (hex_value 0 (take 16 hash)) h in ground (arith, value, bound)
