-- ===== src/Common/Bits.antt =====
-- Laws of the binary operations on native numbers, from the recursion that they stand for, and a
-- test of every number below a bound.
use Prim.Native.Nat.{
  ℕ, zero, suc, ◌+◌, ◌*◌, ◌/◌, ◌%◌, ◌≤◌, ◌<◌, min, max, bit_and, bit_or, bit_xor, digits, differ,
  bit_and-bitwise, bit_or-bitwise, bit_xor-bitwise,
}
use mathlib.Core.Path.{◌≡◌, refl, sym, ap, subst, ◌∙◌}
use mathlib.Core.Logic.{inl, inr}
use mathlib.Core.Bool.{Bool, true, false}
use mathlib.Core.List.{List, [], ◌∷◌}
use native.Mathlib.Omega.{arith}
use wrix.Common.Tests.{◌==◌, ==_iff, Bool-cases, &&-true}
use wrix.Common.Lists.{all}

-- What the recursion gives does not depend on its count of digits, once that is large enough.
module _ (rest : ℕ → ℕ) (join : ℕ → ℕ → ℕ) where
  digits-zero : (count b : ℕ) → digits rest join count 0 b ≡ rest b
  digits-zero zero b = refl
  digits-zero (suc count) b = refl

  digits_agree :
      (a b count other : ℕ)
      → a ≤ count
      → a ≤ other
      → digits rest join count a b ≡ digits rest join other a b
  digits_agree zero b count other h k = digits-zero count b ∙ sym (digits-zero other b)
  digits_agree (suc a) b zero other h k = absurd (omega (arith, h))
  digits_agree (suc a) b (suc count) zero h k = absurd (omega (arith, k))
  digits_agree (suc a) b (suc count) (suc other) h k =
      ap (λ high. high * 2 + join (suc a % 2) (b % 2))
        (digits_agree (suc a / 2) (b / 2) count other (omega (arith, h)) (omega (arith, k)))

  lowest_digit :
      (a b : ℕ)
      → digits rest join (suc a) (suc a) b
        ≡ digits rest join (suc a / 2) (suc a / 2) (b / 2) * 2 + join (suc a % 2) (b % 2)
  lowest_digit a b =
      ap (λ high. high * 2 + join (suc a % 2) (b % 2))
        (digits_agree (suc a / 2) (b / 2) a (suc a / 2) (omega arith) (omega arith))

bit_or-lowest :
    (a b : ℕ) → bit_or (suc a) b ≡ bit_or (suc a / 2) (b / 2) * 2 + max (suc a % 2) (b % 2)
bit_or-lowest a b =
    bit_or-bitwise (suc a) b
    ∙ lowest_digit (λ d. d) max a b
    ∙ ap (λ high. high * 2 + max (suc a % 2) (b % 2)) (sym (bit_or-bitwise (suc a / 2) (b / 2)))

bit_xor-lowest :
    (a b : ℕ) → bit_xor (suc a) b ≡ bit_xor (suc a / 2) (b / 2) * 2 + differ (suc a % 2) (b % 2)
bit_xor-lowest a b =
    bit_xor-bitwise (suc a) b
    ∙ lowest_digit (λ d. d) differ a b
    ∙ ap (λ high. high * 2 + differ (suc a % 2) (b % 2)) (sym (bit_xor-bitwise (suc a / 2) (b / 2)))

pub bit_and-lowest : (a b : ℕ) → bit_and a b ≡ bit_and (a / 2) (b / 2) * 2 + min (a % 2) (b % 2)
bit_and-lowest zero b = omega (arith, bit_and-bitwise 0 b, bit_and-bitwise 0 (b / 2))
bit_and-lowest (suc a) b =
    bit_and-bitwise (suc a) b
    ∙ lowest_digit (λ d. zero) min a b
    ∙ ap (λ high. high * 2 + min (suc a % 2) (b % 2)) (sym (bit_and-bitwise (suc a / 2) (b / 2)))

-- Two numbers joined by `|` are 0 when both are.
or_zero : (size a b : ℕ) → a ≤ size → bit_or a b ≡ 0 → (a ≡ 0) × (b ≡ 0)
or_zero size zero b h e = (refl, sym (bit_or-bitwise 0 b) ∙ e)
or_zero zero (suc a) b h e = absurd (omega (arith, h))
or_zero (suc size) (suc a) b h e =
    let lowest = bit_or-lowest a b in
    let (left, right) =
      or_zero size (suc a / 2) (b / 2) (omega (arith, h)) (omega (arith, lowest, e)) in
    (omega (arith, lowest, e, left), omega (arith, lowest, e, right))

pub bit_or-zero : (a b : ℕ) → bit_or a b ≡ 0 → (a ≡ 0) × (b ≡ 0)
bit_or-zero a b = or_zero a a b (omega arith)

differ-zero : (x y : ℕ) → differ x y ≡ 0 → x ≡ y
differ-zero zero y h = sym h
differ-zero (suc x) zero h = absurd (omega (arith, h))
differ-zero (suc x) (suc y) h = ap suc (differ-zero x y h)

differ_self : (x : ℕ) → differ x x ≡ 0
differ_self zero = refl
differ_self (suc x) = differ_self x

xor_zero : (size a b : ℕ) → a ≤ size → bit_xor a b ≡ 0 → a ≡ b
xor_zero size zero b h e = sym (sym (bit_xor-bitwise 0 b) ∙ e)
xor_zero zero (suc a) b h e = absurd (omega (arith, h))
xor_zero (suc size) (suc a) b h e =
    let lowest = bit_xor-lowest a b in
    let low = differ-zero (suc a % 2) (b % 2) (omega (arith, lowest, e)) in
    let high = xor_zero size (suc a / 2) (b / 2) (omega (arith, h)) (omega (arith, lowest, e)) in
    omega (arith, low, high)

pub bit_xor-zero : (a b : ℕ) → bit_xor a b ≡ 0 → a ≡ b
bit_xor-zero a b = xor_zero a a b (omega arith)

xor_self : (size a : ℕ) → a ≤ size → bit_xor a a ≡ 0
xor_self size zero h = bit_xor-bitwise 0 0
xor_self zero (suc a) h = absurd (omega (arith, h))
xor_self (suc size) (suc a) h = omega (
  arith,
  bit_xor-lowest a (suc a),
  differ_self (suc a % 2),
  xor_self size (suc a / 2) (omega (arith, h)),
)

pub bit_xor_self : (a : ℕ) → bit_xor a a ≡ 0
bit_xor_self a = xor_self a a (omega arith)

abbrev pub below : ℕ → List ℕ
below zero = []
below (suc n) = n ∷ below n

apart-below : (n x : ℕ) → (n == x) ≡ false → x < suc n → x < n
apart-below n x e h = ground arith

-- A test that every number below the bound passes.
pub all-below : (p : ℕ → Bool) (n x : ℕ) → all p (below n) ≡ true → x < n → p x ≡ true
all-below p zero x h lt = absurd (omega (arith, lt))
all-below p (suc n) x h lt =
    let (last, others) = &&-true (p n) (all p (below n)) h in
    elim (Bool-cases (n == x)) [
      | inl e ↦ subst (λ y. p y ≡ true) ((==_iff n x).0 e) last
      | inr e ↦ all-below p n x others (apart-below n x e lt)
    ]
