-- ===== src/Service/Policy/Masks.antt =====
-- The ranges of `Baseline` (crates/wrix-service/src/gateway/policy/mod.rs): an address is in a
-- range when it begins with the range's prefix.
use Prim.Native.Nat.{bit_and, bit_and-bitwise}
use wrix.Common.Bits.{bit_and-lowest, below, all-below}
use native.Mathlib.Nat.{div-one, div-div-eq-div-mul}
use wrix.Common.{
  all, ℕ, zero, suc, ◌+◌, ◌-◌, ◌*◌, ◌/◌, ◌^◌, ◌≤◌, ◌<◌, ◌≡◌, ◌↔◌, refl, sym, ap, subst, ◌∙◌, true,
  arith, ◌==◌, ==_iff,
}
use wrix.Service.Policy.Baseline.{shifted_max, in_range}

-- A number without its last digits, and with that many zeros after it.
abbrev halve : ℕ → ℕ → ℕ
halve zero a = a
halve (suc k) a = halve k (a / 2)

abbrev double : ℕ → ℕ → ℕ
double zero a = a
double (suc k) a = 2 * double k a

abbrev ones : ℕ → ℕ
ones zero = 0
ones (suc w) = 2 * ones w + 1

ones-double : (w : ℕ) → suc (ones w) ≡ double w 1
ones-double zero = refl
ones-double (suc w) = omega (arith, ones-double w)

bit_and-ones : (w a : ℕ) → a < double w 1 → bit_and a (ones w) ≡ a
bit_and-ones zero a h =
    let none : a ≡ 0 = omega (arith, h) in
    subst (λ x. bit_and x 0 ≡ x) (sym none) (bit_and-bitwise 0 0)
bit_and-ones (suc w) a h =
    let half : (2 * ones w + 1) / 2 ≡ ones w = omega arith in
    let rest = bit_and-ones w (a / 2) (omega arith) in
    let same = ap (λ x. bit_and (a / 2) x) half in
    omega (arith, bit_and-lowest a (2 * ones w + 1), same, rest)

bit_and-double : (k a m : ℕ) → bit_and a (double k m) ≡ double k (bit_and (halve k a) m)
bit_and-double zero a m = refl
bit_and-double (suc k) a m =
    let half : (2 * double k m) / 2 ≡ double k m = omega arith in
    let same = ap (λ x. bit_and (a / 2) x) half in
    omega (arith, bit_and-lowest a (2 * double k m), same, bit_and-double k (a / 2) m)

double-injective : (k a b : ℕ) → double k a ≡ double k b → a ≡ b
double-injective zero a b h = h
double-injective (suc k) a b h = double-injective k a b (omega arith)

halve-bound : (k w n a : ℕ) → n ≡ k + w → a < double n 1 → halve k a < double w 1
halve-bound zero w n a e h =
    let same : n ≡ w = omega (arith, e) in subst (λ x. a < double x 1) same h
halve-bound (suc k) w zero a e h = absurd (omega (arith, e))
halve-bound (suc k) w (suc n) a e h = halve-bound k w n (a / 2) (omega (arith, e)) (omega arith)

-- The mask of a prefix: its ones, then zeros.
mask_table : all (λ s. shifted_max s == double s (ones (32 - s))) (below 33) ≡ true
unfolding shifted_max
mask_table = refl

shifted_max-double : (s : ℕ) → s ≤ 32 → shifted_max s ≡ double s (ones (32 - s))
shifted_max-double s h =
    (==_iff _ _).0
      (all-below (λ x. shifted_max x == double x (ones (32 - x))) 33 s mask_table (omega arith))

power_table : all (λ s. double s 1 == 2 ^ s) (below 33) ≡ true
power_table = refl

double-power : (s : ℕ) → s ≤ 32 → double s 1 ≡ 2 ^ s
double-power s h =
    (==_iff _ _).0 (all-below (λ x. double x 1 == 2 ^ x) 33 s power_table (omega arith))

halve-div : (k a : ℕ) → halve k a ≡ a / double k 1
halve-div zero a = sym (div-one a)
halve-div (suc k) a = halve-div k (a / 2) ∙ div-div-eq-div-mul a 2 (double k 1)

-- What the mask leaves of an address: its prefix.
masked : (s ip : ℕ) → s ≤ 32 → ip < 4294967296 → bit_and ip (shifted_max s) ≡ double s (halve s ip)
masked s ip h k =
    ap (λ m. bit_and ip m) (shifted_max-double s h)
    ∙ bit_and-double s ip (ones (32 - s))
    ∙ ap (double s)
        (bit_and-ones (32 - s) (halve s ip) (halve-bound s (32 - s) 32 ip (omega arith) k))

halve-shift : (s a : ℕ) → s ≤ 32 → halve s a ≡ a / 2 ^ s
halve-shift s a h = halve-div s a ∙ ap (λ d. a / d) (double-power s h)

-- The range of a network's first bits holds the addresses that begin with them.
pub in_range_iff :
    (s network ip : ℕ)
    → s ≤ 32
    → network < 4294967296
    → ip < 4294967296
    → (in_range ip (record { network = bit_and network (shifted_max s); mask = shifted_max s })
        ≡ true)
      ↔ (ip / 2 ^ s ≡ network / 2 ^ s)
unfolding in_range
in_range_iff s network ip h k l =
    let here = masked s ip h l in
    let there = masked s network h k in
    let (equal, same) = ==_iff (bit_and ip (shifted_max s)) (bit_and network (shifted_max s)) in
    (
      λ e.
          sym (halve-shift s ip h)
          ∙ double-injective s (halve s ip) (halve s network) (sym here ∙ equal e ∙ there)
          ∙ halve-shift s network h,
      λ e.
          let half : halve s ip ≡ halve s network =
            halve-shift s ip h ∙ e ∙ sym (halve-shift s network h) in
          same (here ∙ ap (double s) half ∙ sym there),
    )
