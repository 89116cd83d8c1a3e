-- ===== src/Service/Policy/Tests.antt =====
-- A baseline of fifteen words, and the addresses that it refuses.
use wrix.Common.{
  ℕ, zero, suc, ◌<◌, ◌≡◌, ◌↔◌, refl, Bool, true, false, List, [], ◌∷◌, Option, none, some, arith,
  if◌then◌else◌, ok,
}
use wrix.Common.Text.{Str, str_eq, codes}
use wrix.Service.Policy.Baseline
use wrix.Service.Policy.Baseline.{v4, Range, u32_limit, baseline_permits, load_baseline}
use wrix.Service.Policy.Blocked.{AnyBlocks, load_baseline-permits}

abbrev repeated : {A : Type 0} → ℕ → A → List A
repeated zero a = []
repeated (suc n) a = a ∷ repeated n a

-- A parser that knows one address.
abbrev one_address : Str → Option ℕ
one_address text = if str_eq text (codes "10.0.0.0") then some 167772160 else none

abbrev one_length : Str → Option ℕ
one_length text = if str_eq text (codes "8") then some 8 else none

known-bound : (b : Bool) (n : ℕ) → (if b then some 167772160 else none) ≡ some n → n < u32_limit
known-bound true n h = let same : 167772160 ≡ n = cc in omega (arith, same)
known-bound false n h = absurd cc

abbrev words : List Str
words = repeated 15 (codes "10.0.0.0/8")

abbrev ranges : List Range
ranges = repeated 15 (record { network = 167772160; mask = 4278190080 })

loads : load_baseline one_address one_length (some words) ≡ ok ranges
unfolding load_baseline Baseline.parse_ranges Baseline.parse_range Baseline.shifted_max
loads = refl

-- 10.1.2.3 is refused, and 11.0.0.1 is not.
refuses : baseline_permits ranges (v4 167838211 443) ≡ false
unfolding baseline_permits Baseline.in_range
refuses = refl

permits_other : baseline_permits ranges (v4 184549377 443) ≡ true
unfolding baseline_permits Baseline.in_range
permits_other = refl

load_baseline-permits_example :
    (baseline_permits ranges (v4 167838211 443) ≡ false)
    ↔ AnyBlocks one_address one_length words 167838211
load_baseline-permits_example =
    load_baseline-permits one_address one_length words ranges 167838211 443
      (λ text n h. known-bound (str_eq text (codes "10.0.0.0")) n h) loads (omega arith)
