-- ===== src/Service/Gateway/Activated.antt =====
-- What activating a credential does to the grants and their history
-- (`Revoker` of crates/wrix-service/src/gateway/mod.rs).
use wrix.Common.{
  ◌≡◌, refl, sym, ap, subst, ◌∙◌, inl, inr, Bool, true, false, List, ◌∷◌, Option, none, some,
  if◌then◌else◌, Bool-cases, Result, ok, err, ok-injective,
}
use wrix.Common.Text.{Str, str_eq, str_eq_iff}
use wrix.Common.Maps.{lookup, insert_key, lookup-insert_hit, lookup-insert_other}
use wrix.Service.Policy.Baseline.{Address, Range}
use wrix.Service.Gateway.{
  Error, poisoned, denied, Grant, State, is_cancelled, with_grants, activate, activate_grant,
}
use wrix.Service.Gateway.Run.{Entry, activated_entry}
use wrix.Service.Gateway.Authorized.{IsTracked, Tracks, found-IsHeldGrant, IsAlive, Moved}

pub unlocked-ok :
    (lock : Bool) (r : Result Error State) {t : State}
    → lock ≡ false
    → (if lock then err poisoned else r) ≡ ok t
    → r ≡ ok t
unlocked-ok true r e h = absurd cc
unlocked-ok false r e h = h

module _ (baseline : List Range) (protected : List Address) where
  activated-IsTracked :
      (c d : Str) (g : Grant) (seen : List Str) (log : List Entry)
      → IsTracked d g seen log
      → IsTracked d g seen (activated_entry c ∷ log)
  activated-IsTracked c d g seen log h = record {
    was_attached = inr h.was_attached;
    was_activated = λ a. inr (h.was_activated a);
    not_revoked = h.not_revoked;
    was_seen = h.was_seen;
  }

  abbrev activated_state : Str → State → Grant → State
  activated_state c s grant =
      with_grants (insert_key c (record grant { active = true }) s.table.grants) s

  activated-Tracks :
      (s : State) (log : List Entry) (c : Str) (grant : Grant)
      → lookup s.table.grants c ≡ some grant
      → Tracks baseline protected s log
      → Tracks baseline protected (activated_state c s grant) (activated_entry c ∷ log)
  activated-Tracks s log c grant found h = record {
    tracked = λ d g now.
        let active : Grant = record grant { active = true } in
        elim (Bool-cases (str_eq c d)) [
          | inl e ↦
              let same : c ≡ d = (str_eq_iff c d).0 e in
              let here : ◌≡◌ {A = Option Grant} (some (record grant { active = true })) (some g) =
                sym (lookup-insert_hit s.table.grants c active d e) ∙ now in
              let equal : ◌≡◌ {A = Grant} (record grant { active = true }) g = cc in
              let before = h.tracked c grant found in
              let after : IsTracked c (record grant { active = true }) s.table.seen
                  (activated_entry c ∷ log) =
                record {
                  was_attached = inr before.was_attached;
                  was_activated = λ a. inl refl;
                  not_revoked = before.not_revoked;
                  was_seen = before.was_seen;
                } in
              subst (λ x. IsTracked x g s.table.seen (activated_entry c ∷ log)) same
                (subst (λ x. IsTracked c x s.table.seen (activated_entry c ∷ log)) equal after)
          | inr e ↦
              let there : lookup s.table.grants d ≡ some g =
                sym (lookup-insert_other s.table.grants c active d e) ∙ now in
              activated-IsTracked c d g s.table.seen log (h.tracked d g there)
        ];
    revoked_seen = h.revoked_seen;
    same_baseline = h.same_baseline;
    same_protected = h.same_protected;
  }

  activated-IsAlive :
      (s : State) (c : Str) (grant : Grant)
      → lookup s.table.grants c ≡ some grant
      → (d : Str) (g : Grant) → IsAlive s d g
      → IsAlive (activated_state c s grant) d g
  activated-IsAlive s c grant found d g (inl e) = inl e
  activated-IsAlive s c grant found d g (inr held) =
      let active : Grant = record grant { active = true } in
      elim (Bool-cases (str_eq c d)) [
        | inl e ↦
            let same : c ≡ d = (str_eq_iff c d).0 e in
            let here : lookup s.table.grants d ≡ some grant =
              subst (λ x. lookup s.table.grants x ≡ some grant) same found in
            let equal : held.current ≡ grant = let there = held.found in cc in
            inr (record {
              current = record grant { active = true };
              found = lookup-insert_hit s.table.grants c active d e;
              same_policy = ap (λ x. x.policy) (sym equal) ∙ held.same_policy;
              same_cancel = ap (λ x. x.cancel) (sym equal) ∙ held.same_cancel;
              is_active = refl;
            })
        | inr e ↦ inr (found-IsHeldGrant (lookup-insert_other s.table.grants c active d e) held)
      ]

  activate_grant-Moved :
      (s t : State) (log : List Entry) (c : Str) (found : Option Grant)
      → lookup s.table.grants c ≡ found
      → activate_grant c s found ≡ ok t
      → Tracks baseline protected s log
      → Moved baseline protected s t log (activated_entry c ∷ log)
  activate_grant-Moved s t log c none found h tracks = absurd cc
  activate_grant-Moved s t log c (some grant) found h tracks =
      elim (Bool-cases (is_cancelled s grant.cancel)) [
        | inl e ↦
            let failed : ◌≡◌ {A = Result Error State} (err denied) (ok t) = rw e at h in absurd cc
        | inr e ↦
            let made : ◌≡◌ {A = Result Error State} (ok (activated_state c s grant)) (ok t) =
              rw e at h in
            subst (λ x. Moved baseline protected s x log (activated_entry c ∷ log))
              (ok-injective {E = Error} made)
              (record {
                tracks = activated-Tracks s log c grant found tracks;
                alive = activated-IsAlive s c grant found;
                seen_kept = λ d k. k;
                authorized = λ a. a;
              })
      ]

  pub activate-Moved :
      (s t : State) (log : List Entry) (c : Str)
      → activate c s ≡ ok t
      → Tracks baseline protected s log
      → Moved baseline protected s t log (activated_entry c ∷ log)
  unfolding activate
  activate-Moved s t log c h tracks = elim (Bool-cases s.is_poisoned) [
    | inl e ↦
        let failed : ◌≡◌ {A = Result Error State} (err poisoned) (ok t) = rw e at h in absurd cc
    | inr e ↦
        activate_grant-Moved s t log c (lookup s.table.grants c) refl (unlocked-ok _ _ e h) tracks
  ]
