-- ===== src/Service/Policy/Hosts.antt =====
-- What crates/wrix-service/src/gateway/policy/mod.rs accepts and permits.
use wrix.Common.{
  ℕ, ◌≡◌, refl, sym, subst, ap, ◌↔◌, ◌⊎◌, inl, inr, Bool, true, false, ◌&&◌, ◌||◌, &&-true, List,
  [], ◌∷◌, map, Option, arith, ◌==◌, ==_iff, if◌then◌else◌, any, Result, ok, err, ok-injective,
}
use wrix.Common.Text.{Str, str_eq, str_eq_iff}
use wrix.Service.Policy.{
  Error, invalid, Host, Rule, to_lowercase, is_bad_host, is_numeric, is_none, parse_lowercase,
  parse_host, rule_permits, permits,
}

or-true : (a b : Bool) → (a || b) ≡ true → (a ≡ true) ⊎ (b ≡ true)
or-true true b h = inl refl
or-true false b h = inr h

or-right : (a b : Bool) → b ≡ true → (a || b) ≡ true
or-right a b h = ground arith

to_lowercase_twice : (c : ℕ) → to_lowercase (to_lowercase c) ≡ to_lowercase c
unfolding to_lowercase
to_lowercase_twice c = ground arith

pub lowercase_twice : (s : Str) → map to_lowercase (map to_lowercase s) ≡ map to_lowercase s
lowercase_twice [] = refl
lowercase_twice (c ∷ s) = rw (to_lowercase_twice c, lowercase_twice s)

accepted-text :
    (bad numeric : Bool) (s : Str) (h : Host)
    → ◌≡◌ {A = Result Error Host}
        (if bad then err invalid else if numeric then err invalid else ok (record { text = s }))
        (ok h)
    → h.text ≡ s
accepted-text true numeric s h e = cc
accepted-text false true s h e = cc
accepted-text false false s h e =
    let same : ◌≡◌ {A = Host} (record { text = s }) h = ok-injective {E = Error} e in
    sym (ap (λ x. x.text) same)

module _ (parse_ipv4 : Str → Option ℕ) where
  -- An accepted host is the text in lower case, and parsing the accepted host's text, as its JSON is
  -- read back, gives the same host.
  pub parse_host-text :
      (value : Str) (h : Host)
      → parse_host parse_ipv4 value ≡ ok h
      → (h.text ≡ map to_lowercase value) × (parse_host parse_ipv4 h.text ≡ ok h)
  unfolding parse_host parse_lowercase
  parse_host-text value h e =
      let lower = map to_lowercase value in
      let same =
        accepted-text (is_bad_host lower) (is_numeric lower && is_none (parse_ipv4 lower)) lower h
          e in
      let again : parse_lowercase parse_ipv4 (map to_lowercase lower) ≡ ok h =
        subst (λ s. parse_lowercase parse_ipv4 s ≡ ok h) (sym (lowercase_twice value)) e in
      (same, subst (λ s. parse_lowercase parse_ipv4 (map to_lowercase s) ≡ ok h) (sym same) again)

-- Whether the number stands in the list.
abbrev pub HasPort : List ℕ → ℕ → Type 0
HasPort [] port = ⊥
HasPort (p ∷ ports) port = (p ≡ port) ⊎ HasPort ports port

-- A rule of the list that names the host and the port.
abbrev pub Grants : List Rule → Host → ℕ → Type 0
Grants [] h port = ⊥
Grants (rule ∷ rules) h port =
    ((rule.host.text ≡ h.text) × HasPort rule.ports port) ⊎ Grants rules h port

any_port_iff :
    (ports : List ℕ) (port : ℕ) → (any (λ p. p == port) ports ≡ true) ↔ HasPort ports port
any_port_iff [] port = (λ h. cc, λ h. elim h [ ])
any_port_iff (p ∷ ports) port =
    let (sound, complete) = any_port_iff ports port in
    let (equal, same) = ==_iff p port in
    (
      λ h. elim (or-true (p == port) _ h) [ inl e ↦ inl (equal e) | inr e ↦ inr (sound e) ],
      λ k. elim k [ inl e ↦ rw (same e) | inr e ↦ or-right (p == port) _ (complete e) ],
    )

-- The policy permits a host and a port exactly when one of its rules names that host and lists that
-- port.
pub permits_iff :
    (rules : List Rule) (h : Host) (port : ℕ) → (permits rules h port ≡ true) ↔ Grants rules h port
unfolding permits rule_permits
permits_iff [] h port = (λ e. cc, λ e. elim e [ ])
permits_iff (rule ∷ rules) h port =
    let (sound, complete) = permits_iff rules h port in
    let (equal, same) = str_eq_iff rule.host.text h.text in
    let (port_in, port_out) = any_port_iff rule.ports port in
    (
      λ e. elim (or-true (rule_permits h port rule) (permits rules h port) e) [
        | inl t ↦
            let (a, b) = &&-true (str_eq rule.host.text h.text) _ t in inl (equal a, port_in b)
        | inr t ↦ inr (sound t)
      ],
      λ k. elim k [
        | inl (a, b) ↦ rw (same a, port_out b)
        | inr t ↦ or-right (rule_permits h port rule) (permits rules h port) (complete t)
      ],
    )
