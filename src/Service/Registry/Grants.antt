-- ===== src/Service/Registry/Grants.antt =====
-- The SQL grants of a registry, over one call of crates/wrix-service/src/control/mod.rs.
use wrix.Common.{
  ◌≡◌, refl, sym, ap, subst, ◌∙◌, inl, inr, true, false, not, ◌&&◌, Option, none, some, ◌==◌, leb,
  length, Result, ok, err, Bool-cases,
}
use wrix.Common.Text.{Str, str_eq, str_eq_iff}
use wrix.Common.Maps.{lookup, contains_key, remove_key, lookup-remove_other}
use wrix.Service.Registry.{
  Policy, Error, Namespaces, max_namespaces, insert_entry, Operation, inspect, register,
  admit_cache, retire, Reply, applied, capacity, Decision, reply_with, commit_first,
  register_decision, policy_or_denied, with_cache, grants_sql, decide,
}
use wrix.Service.Registry.Order.{lookup-insert_entry_self, lookup-insert_entry_other}
use wrix.Service.Registry.Held.{IsOutcome}

-- A policy that is written keeps the grant of every namespace when it grants as much as the old one.
pub insert_entry-grants :
    (k : Str) (p : Policy) (m : Namespaces) (i : Str)
    → (grants_sql (lookup m k) ≡ true → grants_sql (some p) ≡ true)
    → grants_sql (lookup m i) ≡ true
    → grants_sql (lookup (insert_entry k p m) i) ≡ true
insert_entry-grants k p m i as_much h = elim (Bool-cases (str_eq k i)) [
  | inl e ↦
      let same = (str_eq_iff k i).0 e in
      let found = lookup-insert_entry_self k p m in
      let old = subst (λ j. grants_sql (lookup m j) ≡ true) (sym same) h in
      subst (λ j. grants_sql (lookup (insert_entry k p m) j) ≡ true) same
        (ap grants_sql found ∙ as_much old)
  | inr e ↦ ap grants_sql (lookup-insert_entry_other k p m i e) ∙ h
]

with_cache-grants :
    (found : Option Policy)
    → grants_sql found ≡ true
    → grants_sql (some (with_cache (policy_or_denied found))) ≡ true
with_cache-grants none h = cc
with_cache-grants (some p) h = h

decide-grants :
    (operation : Operation) (m n : Namespaces) (i : Str)
    → decide operation m ≡ ok (commit_first n)
    → grants_sql (lookup m i) ≡ true
    → grants_sql (lookup n i) ≡ true
unfolding decide
decide-grants inspect m n i d h = cc
decide-grants (register namespace policy) m n i d h = registered (lookup m namespace) refl d
  where
    registered :
        (found : Option Policy)
        → lookup m namespace ≡ found
        → ◌≡◌ {A = Result Error Decision}
            (ok (register_decision namespace policy m found))
            (ok (commit_first n))
        → grants_sql (lookup n i) ≡ true
    registered (some existing) e k = cc
    registered none e k = elim (Bool-cases (length m == max_namespaces)) [
      | inl f ↦
          let full : ◌≡◌ {A = Result Error Decision} (ok (reply_with capacity))
              (ok (commit_first n)) =
            rw f at k in
          absurd cc
      | inr f ↦
          let put : ◌≡◌ {A = Result Error Decision}
              (ok (commit_first (insert_entry namespace policy m))) (ok (commit_first n)) =
            rw f at k in
          let same : insert_entry namespace policy m ≡ n = cc in
          subst (λ r. grants_sql (lookup r i) ≡ true) same
            (insert_entry-grants namespace policy m i
              (λ old.
                let nothing : grants_sql none ≡ true = subst (λ o. grants_sql o ≡ true) e old in
                absurd cc)
              h)
    ]
decide-grants (admit_cache namespace) m n i d h =
    elim (Bool-cases (not (contains_key m namespace) && leb max_namespaces (length m))) [
      | inl e ↦
          let full : ◌≡◌ {A = Result Error Decision} (ok (reply_with capacity))
              (ok (commit_first n)) =
            rw e at d in
          absurd cc
      | inr e ↦
          let p = with_cache (policy_or_denied (lookup m namespace)) in
          let put : ◌≡◌ {A = Result Error Decision} (ok (commit_first (insert_entry namespace p m)))
              (ok (commit_first n)) =
            rw e at d in
          let same : insert_entry namespace p m ≡ n = cc in
          subst (λ r. grants_sql (lookup r i) ≡ true) same
            (insert_entry-grants namespace p m i (with_cache-grants (lookup m namespace)) h)
    ]
decide-grants (retire namespace) m n i d h = elim (Bool-cases (grants_sql (lookup m namespace))) [
  | inl e ↦
      let refused : ◌≡◌ {A = Result Error Decision} (err Error.permission_denied)
          (ok (commit_first n)) =
        rw e at d in
      absurd cc
  | inr e ↦ elim (Bool-cases (contains_key m namespace)) [
    | inl f ↦
        let put : ◌≡◌ {A = Result Error Decision} (ok (commit_first (remove_key namespace m)))
            (ok (commit_first n)) =
          rw (e, f) at d in
        let same : remove_key namespace m ≡ n = cc in
        let other : str_eq namespace i ≡ false = elim (Bool-cases (str_eq namespace i)) [
          | inl g ↦
              let moved =
                subst (λ j. grants_sql (lookup m j) ≡ false) ((str_eq_iff namespace i).0 g) e in
              absurd cc
          | inr g ↦ g
        ] in
        subst (λ r. grants_sql (lookup r i) ≡ true) same
          (ap grants_sql (lookup-remove_other m namespace i other) ∙ h)
    | inr f ↦
        let nothing : ◌≡◌ {A = Result Error Decision} (ok (reply_with applied))
            (ok (commit_first n)) =
          rw (e, f) at d in
        absurd cc
  ]
]

pub outcome-grants :
    (operation : Operation) (m n : Namespaces) (r : Result Error Reply) (i : Str)
    → IsOutcome operation m r n
    → grants_sql (lookup m i) ≡ true
    → grants_sql (lookup n i) ≡ true
outcome-grants operation m n (err e) i (inl same) h =
    subst (λ r. grants_sql (lookup r i) ≡ true) (sym same) h
outcome-grants operation m n (err e) i (inr d) h = decide-grants operation m n i d h
outcome-grants operation m n (ok reply) i (inl (d, same)) h =
    subst (λ r. grants_sql (lookup r i) ≡ true) (sym same) h
outcome-grants operation m n (ok reply) i (inr (a, d)) h = decide-grants operation m n i d h
