-- ===== src/Service/Gateway/Matched.antt =====
-- The table of grants of crates/wrix-service/src/gateway/mod.rs against the attachments that are
-- held: what each change of the table keeps.
use wrix.Common.{
  ◌≤◌, ◌<◌, ◌≡◌, refl, sym, ap, subst, ◌∙◌, inl, inr, Bool, true, false, not, ◌&&◌, ◌||◌, List, [],
  ◌∷◌, Option, none, some, arith, &&-true, if◌then◌else◌, length, Bool-cases, Result, ok, err,
  ok-injective,
}
use wrix.Common.Text.{Str, str_eq, str_eq_iff, str_eq_sym}
use wrix.Common.Maps.{
  lookup, contains_key, contains-remove_lem, contains-insert, contains-bound, contains-unbound,
}
use wrix.Service.Policy.{Rule}
use wrix.Service.Gateway.{
  Error, denied, poisoned, Grant, State, contains_secret, max_seen, new_grant, attached_state,
  is_cancelled, activate, activate_grant, revoke, revoke_grant,
}
use wrix.Service.Gateway.Run.{remove_secret}
use wrix.Service.Gateway.Activated.{unlocked-ok}

contains-remove_secret :
    (c : Str) (held : List Str) (d : Str)
    → contains_secret (remove_secret c held) d ≡ (not (str_eq c d) && contains_secret held d)
contains-remove_secret c [] d = ground arith
contains-remove_secret c (x ∷ held) d = elim (Bool-cases (str_eq x c)) [
  | inl e ↦
      let same = (str_eq_iff x c).0 e in
      let swap : str_eq x d ≡ str_eq c d = ap (λ y. str_eq y d) same in
      rw (e, swap, contains-remove_secret c held d) (ground arith)
  | inr e ↦ elim (Bool-cases (str_eq x d)) [
    | inl f ↦
        let other : str_eq c d ≡ false =
          subst (λ y. str_eq c y ≡ false) ((str_eq_iff x d).0 f) (str_eq_sym c x ∙ e) in
        rw (e, f, other)
    | inr f ↦ rw (e, f, contains-remove_secret c held d)
  ]
]

removed-held :
    (c : Str) (held : List Str) (d : Str)
    → contains_secret (remove_secret c held) d ≡ true
    → contains_secret held d ≡ true
removed-held c held d k =
    (&&-true (not (str_eq c d)) _ (sym (contains-remove_secret c held d) ∙ k)).1

pub removed-absent :
    (c : Str) (held : List Str) (d : Str)
    → contains_secret held c ≡ false
    → contains_secret (remove_secret c held) d ≡ contains_secret held d
removed-absent c held d h = contains-remove_secret c held d ∙ elim (Bool-cases (str_eq c d)) [
  | inl e ↦
      let absent = subst (λ x. contains_secret held x ≡ false) ((str_eq_iff c d).0 e) h in
      rw (e, absent)
  | inr e ↦ rw e
]

-- The grants are those of the attachments held, and every one of these was seen.
pub record IsMatched (s : State) (held : List Str) : Type 0 where
  pub same_keys : (c : Str) → contains_key s.table.grants c ≡ contains_secret held c
  pub all_seen : (c : Str) → contains_secret held c ≡ true → contains_secret s.table.seen c ≡ true
  pub bounded : length s.table.seen ≤ max_seen

-- The permits are not touched.
pub record Matches (s : State) (t : State) (held : List Str) : Type 0 where
  pub matched : IsMatched t held
  pub same_available : t.available ≡ s.available
  pub same_capacity : t.capacity ≡ s.capacity

pub attached-Matches :
    (c : Str) (policy : List Rule) (probe active : Bool) (s : State) (held : List Str)
    → contains_secret s.table.seen c ≡ false
    → length s.table.seen < max_seen
    → IsMatched s held
    → Matches s (attached_state c policy probe active s) (c ∷ held)
unfolding attached_state
attached-Matches c policy probe active s held fresh room h = record {
  matched = record {
    same_keys = λ d.
        let keys = h.same_keys d in
        contains-insert s.table.grants c (new_grant policy s.next_channel probe active) d
        ∙ ap (λ b. str_eq c d || b) keys;
    all_seen = λ d k.
        rw fresh (elim (Bool-cases (str_eq c d)) [
          | inl e ↦ rw e
          | inr e ↦ rw e (h.all_seen d (rw e at k))
        ]);
    bounded = rw fresh (omega arith);
  };
  same_available = refl;
  same_capacity = refl;
}

revoke_grant-Matches :
    (c : Str) (s : State) (held : List Str) (found : Option Grant)
    → lookup s.table.grants c ≡ found
    → IsMatched s held
    → Matches s (revoke_grant c s found) (remove_secret c held)
revoke_grant-Matches c s held none e h = record {
  matched = record {
    same_keys = λ d.
        h.same_keys d
        ∙ sym (removed-absent c held d (sym (h.same_keys c) ∙ contains-unbound s.table.grants c e));
    all_seen = λ d k. h.all_seen d (removed-held c held d k);
    bounded = h.bounded;
  };
  same_available = refl;
  same_capacity = refl;
}
revoke_grant-Matches c s held (some grant) e h = record {
  matched = record {
    same_keys = λ d.
        contains-remove_lem s.table.grants c d
        ∙ ap (λ b. not (str_eq c d) && b) (h.same_keys d)
        ∙ sym (contains-remove_secret c held d);
    all_seen = λ d k. h.all_seen d (removed-held c held d k);
    bounded = h.bounded;
  };
  same_available = refl;
  same_capacity = refl;
}

pub revoke-Matches :
    (c : Str) (s : State) (held : List Str)
    → IsMatched s held
    → Matches s (revoke c s) (remove_secret c held)
unfolding revoke
revoke-Matches c s held = revoke_grant-Matches c s held (lookup s.table.grants c) refl

when-live :
    (test : Bool) (s : State) {t : State}
    → ◌≡◌ {A = Result Error State} (if test then err denied else ok s) (ok t)
    → (test ≡ false) × (s ≡ t)
when-live true s h = absurd cc
when-live false s h = (refl, ok-injective {E = Error} h)

bound-key :
    (m : List (Str × Grant)) (c d : Str)
    → contains_key m c ≡ true
    → (str_eq c d || contains_key m d) ≡ contains_key m d
bound-key m c d h = elim (Bool-cases (str_eq c d)) [
  | inl e ↦
      let there = subst (λ x. contains_key m x ≡ true) ((str_eq_iff c d).0 e) h in rw (e, there)
  | inr e ↦ rw e
]

activate_grant-Matches :
    (c : Str) (s t : State) (held : List Str) (found : Option Grant)
    → lookup s.table.grants c ≡ found
    → activate_grant c s found ≡ ok t
    → IsMatched s held
    → Matches s t held
activate_grant-Matches c s t held none e q h = absurd cc
activate_grant-Matches c s t held (some grant) e q h =
    let (live, same) = when-live (is_cancelled s grant.cancel) _ q in
    subst (λ x. Matches s x held) same
      (record {
        matched = record {
          same_keys = λ d.
              contains-insert s.table.grants c (record grant { active = true }) d
              ∙ bound-key s.table.grants c d (contains-bound s.table.grants c e)
              ∙ h.same_keys d;
          all_seen = h.all_seen;
          bounded = h.bounded;
        };
        same_available = refl;
        same_capacity = refl;
      })

pub activate-Matches :
    (c : Str) (s t : State) (held : List Str)
    → activate c s ≡ ok t
    → IsMatched s held
    → Matches s t held
unfolding activate
activate-Matches c s t held q h = elim (Bool-cases s.is_poisoned) [
  | inl e ↦ let failed : ◌≡◌ {A = Result Error State} (err poisoned) (ok t) = rw e at q in absurd cc
  | inr e ↦ activate_grant-Matches c s t held (lookup s.table.grants c) refl (unlocked-ok _ _ e q) h
]
