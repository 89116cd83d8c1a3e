-- ===== src/Service/Policy/Blocked.antt =====
-- What `Baseline` (crates/wrix-service/src/gateway/policy/mod.rs) permits, from the words it is
-- loaded from.
use wrix.Common.{
  ℕ, ◌-◌, ◌/◌, ◌^◌, ◌<◌, ◌≡◌, ◌↔◌, ◌⊎◌, refl, sym, ap, subst, inl, inr, Bool, true, false, not,
  ◌||◌, List, [], ◌∷◌, Option, none, some, arith, leb, length, any, not-false, ok, ok_or,
  ok-injective, bind-ok, guard-then,
}
use wrix.Common.Text.{Str, split_once}
use wrix.Service.Policy.{Error, invalid}
use wrix.Service.Policy.Baseline.{
  v4, Range, u32_limit, in_range, baseline_permits, parse_range, parse_ranges, load_baseline,
}
use wrix.Service.Policy.Masks.{in_range_iff}

module _ (parse_ipv4 : Str → Option ℕ) (parse_u32 : Str → Option ℕ) where
  -- The word is a network with a prefix's length, and the address begins with that prefix.
  pub record Blocks (cidr : Str) (ip : ℕ) : Type 0 where
    pub parts : Str × Str
    pub network : ℕ
    pub prefix : ℕ
    pub split : split_once b'/' cidr ≡ some parts
    pub parsed : parse_ipv4 parts.0 ≡ some network
    pub counted : parse_u32 parts.1 ≡ some prefix
    pub same_prefix : ip / 2 ^ (32 - prefix) ≡ network / 2 ^ (32 - prefix)

  abbrev pub AnyBlocks : List Str → ℕ → Type 0
  AnyBlocks [] ip = ⊥
  AnyBlocks (cidr ∷ cidrs) ip = Blocks cidr ip ⊎ AnyBlocks cidrs ip

  some-ok : {A : Type 0} (o : Option A) {a : A} → ok_or o invalid ≡ ok a → o ≡ some a
  some-ok none h = absurd cc
  some-ok (some a) h = cc

  range-Blocks :
      (cidr : Str) (ip : ℕ) (range : Range)
      → ((text : Str) (n : ℕ) → parse_ipv4 text ≡ some n → n < u32_limit)
      → parse_range parse_ipv4 parse_u32 cidr ≡ ok range
      → ip < u32_limit
      → (in_range ip range ≡ true) ↔ Blocks cidr ip
  unfolding parse_range
  range-Blocks cidr ip range bounded h k =
      let (parts, p, h1) = bind-ok (ok_or (split_once b'/' cidr) invalid) _ h in
      let (network, n, h2) = bind-ok (ok_or (parse_ipv4 parts.0) invalid) _ h1 in
      let (prefix, x, h3) = bind-ok (ok_or (parse_u32 parts.1) invalid) _ h2 in
      let (short, h4) = guard-then (leb prefix 32) invalid _ h3 in
      let split = some-ok (split_once b'/' cidr) p in
      let parsed = some-ok (parse_ipv4 parts.0) n in
      let counted = some-ok (parse_u32 parts.1) x in
      let made = ok-injective {E = Error} h4 in
      let (sound, complete) =
        in_range_iff (32 - prefix) network ip (omega arith) (bounded parts.0 network parsed) k in
      (
        λ e. record {
          parts = parts;
          network = network;
          prefix = prefix;
          split = split;
          parsed = parsed;
          counted = counted;
          same_prefix = sound (subst (λ r. in_range ip r ≡ true) (sym made) e);
        },
        λ b.
            let same_parts : b.parts ≡ parts = let s = b.split in cc in
            let network_of : parse_ipv4 parts.0 ≡ some b.network =
              subst (λ q. parse_ipv4 q.0 ≡ some b.network) same_parts b.parsed in
            let prefix_of : parse_u32 parts.1 ≡ some b.prefix =
              subst (λ q. parse_u32 q.1 ≡ some b.prefix) same_parts b.counted in
            let same_network : b.network ≡ network = cc in
            let same_length : b.prefix ≡ prefix = cc in
            let begins : ip / 2 ^ (32 - prefix) ≡ network / 2 ^ (32 - prefix) =
              subst (λ m. ip / 2 ^ (32 - prefix) ≡ m / 2 ^ (32 - prefix)) same_network
                (subst (λ m. ip / 2 ^ (32 - m) ≡ b.network / 2 ^ (32 - m)) same_length
                  b.same_prefix) in
            subst (λ r. in_range ip r ≡ true) made (complete begins),
      )

  or-true : (a b : Bool) → (a || b) ≡ true → (a ≡ true) ⊎ (b ≡ true)
  or-true true b h = inl refl
  or-true false b h = inr h

  true-or : (a b : Bool) → (a ≡ true) ⊎ (b ≡ true) → (a || b) ≡ true
  true-or true b h = refl
  true-or false b (inl e) = absurd cc
  true-or false b (inr e) = e

  ranges-AnyBlocks :
      (cidrs : List Str) (ip : ℕ) (ranges : List Range)
      → ((text : Str) (n : ℕ) → parse_ipv4 text ≡ some n → n < u32_limit)
      → parse_ranges parse_ipv4 parse_u32 cidrs ≡ ok ranges
      → ip < u32_limit
      → (any (in_range ip) ranges ≡ true) ↔ AnyBlocks cidrs ip
  unfolding parse_ranges
  ranges-AnyBlocks [] ip ranges bounded h k =
      subst (λ r. (any (in_range ip) r ≡ true) ↔ ⊥) (ok-injective {E = Error} h)
        (λ e. cc, λ e. absurd e)
  ranges-AnyBlocks (cidr ∷ cidrs) ip ranges bounded h k =
      let (range, p, h1) = bind-ok (parse_range parse_ipv4 parse_u32 cidr) _ h in
      let (rest, q, h2) = bind-ok (parse_ranges parse_ipv4 parse_u32 cidrs) _ h1 in
      let (first_in, first_out) = range-Blocks cidr ip range bounded p k in
      let (rest_in, rest_out) = ranges-AnyBlocks cidrs ip rest bounded q k in
      subst (λ r. (any (in_range ip) r ≡ true) ↔ AnyBlocks (cidr ∷ cidrs) ip)
        (ok-injective {E = Error} h2)
        (
          λ e. elim (or-true (in_range ip range) (any (in_range ip) rest) e) [
            | inl t ↦ inl (first_in t)
            | inr t ↦ inr (rest_in t)
          ],
          λ b.
              true-or (in_range ip range) (any (in_range ip) rest)
                (elim b [ inl t ↦ inl (first_out t) | inr t ↦ inr (rest_out t) ]),
        )

  -- A loaded baseline refuses an IPv4 address exactly when the address begins with the prefix that
  -- one of the words gives, where the parser of addresses gives a `u32`.
  pub load_baseline-permits :
      (cidrs : List Str) (ranges : List Range) (ip port : ℕ)
      → ((text : Str) (n : ℕ) → parse_ipv4 text ≡ some n → n < u32_limit)
      → load_baseline parse_ipv4 parse_u32 (some cidrs) ≡ ok ranges
      → ip < u32_limit
      → (baseline_permits ranges (v4 ip port) ≡ false) ↔ AnyBlocks cidrs ip
  unfolding load_baseline baseline_permits
  load_baseline-permits cidrs ranges ip port bounded h k =
      let (parsed, p, h1) = bind-ok (parse_ranges parse_ipv4 parse_u32 cidrs) _ h in
      let (enough, h2) = guard-then (leb 15 (length parsed)) invalid _ h1 in
      let (sound, complete) = ranges-AnyBlocks cidrs ip parsed bounded p k in
      subst (λ r. (not (any (in_range ip) r) ≡ false) ↔ AnyBlocks cidrs ip)
        (ok-injective {E = Error} h2)
        (λ e. sound (not-false (any (in_range ip) parsed) e), λ b. ap not (complete b))
