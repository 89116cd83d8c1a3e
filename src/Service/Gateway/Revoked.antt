-- ===== src/Service/Gateway/Revoked.antt =====
-- What revoking a credential does to the grants and their history
-- (`Revoker` of crates/wrix-service/src/gateway/mod.rs).
use wrix.Common.{
  ◌≡◌, refl, sym, ap, subst, ◌∙◌, inl, inr, true, false, List, ◌∷◌, Option, none, some, arith,
  ==_iff, Bool-cases,
}
use wrix.Common.Text.{Str, str_eq, str_eq_iff}
use wrix.Common.Maps.{lookup, remove_key, lookup-remove_self, lookup-remove_other}
use wrix.Service.Policy.Baseline.{Address, Range}
use wrix.Service.Gateway.{Grant, State, contains_secret, revoke, revoke_grant}
use wrix.Service.Gateway.Run.{Entry, revoked_entry}
use wrix.Service.Gateway.Authorized.{
  is_revoked, IsTracked, Tracks, found-IsHeldGrant, IsAlive, Moved,
}

none-apart : {A : Type 0} (o : Option A) {a : A} → o ≡ none → o ≡ some a → ⊥
none-apart o h k = cc

revoked-IsTracked :
    (c d : Str) (g : Grant) (seen : List Str) (log : List Entry)
    → str_eq c d ≡ false
    → IsTracked d g seen log
    → IsTracked d g seen (revoked_entry c ∷ log)
revoked-IsTracked c d g seen log e h = record {
  was_attached = inr h.was_attached;
  was_activated = λ a. inr (h.was_activated a);
  not_revoked = rw e h.not_revoked;
  was_seen = h.was_seen;
}

-- A grant that is found after another key was taken out was there, under another key.
other-key :
    (m : List (Str × Grant)) (c d : Str) {g : Grant}
    → lookup (remove_key c m) d ≡ some g
    → (str_eq c d ≡ false) × (lookup m d ≡ some g)
other-key m c d h = elim (Bool-cases (str_eq c d)) [
  | inl e ↦
      let same : c ≡ d = (str_eq_iff c d).0 e in
      let gone : lookup (remove_key c m) d ≡ none =
        subst (λ x. lookup (remove_key c m) x ≡ none) same (lookup-remove_self m c) in
      absurd (none-apart _ gone h)
  | inr e ↦ (e, sym (lookup-remove_other m c d e) ∙ h)
]

module _ (baseline : List Range) (protected : List Address) where
  revoked_before :
      (s : State) (log : List Entry) (c : Str)
      → Tracks baseline protected s log
      → contains_secret s.table.seen c ≡ true
      → (d : Str) → is_revoked (revoked_entry c ∷ log) d ≡ true
      → contains_secret s.table.seen d ≡ true
  revoked_before s log c h seen d r = elim (Bool-cases (str_eq c d)) [
    | inl e ↦ subst (λ x. contains_secret s.table.seen x ≡ true) ((str_eq_iff c d).0 e) seen
    | inr e ↦ h.revoked_seen d (rw e at r)
  ]

  revoked-IsAlive :
      (s : State) (c : Str) (grant : Grant)
      → lookup s.table.grants c ≡ some grant
      → (d : Str) (g : Grant) → IsAlive s d g
      → IsAlive (revoke_grant c s (some grant)) d g
  revoked-IsAlive s c grant found d g (inl e) = inl (rw e (ground arith))
  revoked-IsAlive s c grant found d g (inr held) = elim (Bool-cases (str_eq c d)) [
    | inl e ↦
        let same : c ≡ d = (str_eq_iff c d).0 e in
        let here : lookup s.table.grants d ≡ some grant =
          subst (λ x. lookup s.table.grants x ≡ some grant) same found in
        let equal : held.current ≡ grant = let there = held.found in cc in
        let channel : grant.cancel ≡ g.cancel = ap (λ x. x.cancel) (sym equal) ∙ held.same_cancel in
        let hit = (==_iff grant.cancel g.cancel).1 channel in inl (rw hit)
    | inr e ↦ inr (found-IsHeldGrant (lookup-remove_other s.table.grants c d e) held)
  ]

  revoke_grant-Moved :
      (s : State) (log : List Entry) (c : Str) (found : Option Grant)
      → lookup s.table.grants c ≡ found
      → Tracks baseline protected s log
      → contains_secret s.table.seen c ≡ true
      → Moved baseline protected s (revoke_grant c s found) log (revoked_entry c ∷ log)
  revoke_grant-Moved s log c none e h seen = record {
    tracks = record {
      tracked = λ d g found. elim (Bool-cases (str_eq c d)) [
        | inl same ↦
            let gone : lookup s.table.grants d ≡ none =
              subst (λ x. lookup s.table.grants x ≡ none) ((str_eq_iff c d).0 same) e in
            absurd (none-apart _ gone found)
        | inr apart ↦ revoked-IsTracked c d g s.table.seen log apart (h.tracked d g found)
      ];
      revoked_seen = revoked_before s log c h seen;
      same_baseline = h.same_baseline;
      same_protected = h.same_protected;
    };
    alive = λ d g a. a;
    seen_kept = λ d k. k;
    authorized = λ a. a;
  }
  revoke_grant-Moved s log c (some grant) e h seen = record {
    tracks = record {
      tracked = λ d g found.
          let (apart, before) = other-key s.table.grants c d found in
          revoked-IsTracked c d g s.table.seen log apart (h.tracked d g before);
      revoked_seen = revoked_before s log c h seen;
      same_baseline = h.same_baseline;
      same_protected = h.same_protected;
    };
    alive = revoked-IsAlive s c grant e;
    seen_kept = λ d k. k;
    authorized = λ a. a;
  }

  pub revoke-Moved :
      (s : State) (log : List Entry) (c : Str)
      → Tracks baseline protected s log
      → contains_secret s.table.seen c ≡ true
      → Moved baseline protected s (revoke c s) log (revoked_entry c ∷ log)
  unfolding revoke
  revoke-Moved s log c = revoke_grant-Moved s log c (lookup s.table.grants c) refl
