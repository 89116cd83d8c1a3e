-- ===== src/Service/Gateway/Changes.antt =====
-- What attaching, activating and revoking a credential does to the grants and their history
-- (crates/wrix-service/src/gateway/mod.rs).
use wrix.Common.{
  ◌≡◌, refl, sym, subst, ◌∙◌, inl, inr, Bool, true, false, ◌||◌, List, ◌∷◌, Option, some, arith,
  ◌<◌, leb, leb-false→lt, if◌then◌else◌, length, Bool-cases, Result, ok, err, ok-injective,
}
use wrix.Common.Text.{Str, str_eq, str_eq_iff, str_eq_refl}
use wrix.Common.Maps.{lookup, lookup-insert, lookup-insert_other}
use wrix.Service.Policy.{Rule}
use wrix.Service.Policy.Baseline.{Address, Range}
use wrix.Service.Gateway.{
  Error, poisoned, denied, exhausted, Grant, State, contains_secret, max_seen, new_grant,
  attached_state, attach,
}
use wrix.Service.Gateway.Run.{Entry}
use wrix.Service.Gateway.Authorized.{
  is_revoked, entered, IsTracked, Tracks, found-IsHeldGrant, IsAlive, Moved, fresh-not_revoked,
  entered-IsTracked, entered-older, entered-IsAuthorized, entered-is_revoked,
}

or-false : (a b : Bool) → (a || b) ≡ false → b ≡ false
or-false a b h = ground arith

passed-checks :
    (a b c : Bool) (s t : State)
    → ◌≡◌ {A = Result Error State}
        (if a then err poisoned else if b then err denied else if c then err exhausted else ok s)
        (ok t)
    → (a ≡ false) × (b ≡ false) × (c ≡ false) × (s ≡ t)
passed-checks true b c s t h = absurd cc
passed-checks false true c s t h = absurd cc
passed-checks false false true s t h = absurd cc
passed-checks false false false s t h = (refl, refl, refl, ok-injective {E = Error} h)

-- An attachment is of a fresh credential, on a table with room.
pub attach-fresh :
    (c : Str) (policy : List Rule) (probe active : Bool) (s t : State)
    → attach c policy probe active s ≡ ok t
    → (contains_secret s.table.seen c ≡ false)
      × (length s.table.seen < max_seen)
      × (attached_state c policy probe active s ≡ t)
unfolding attach
attach-fresh c policy probe active s t h =
    let (lock, free, room, same) =
      passed-checks s.is_poisoned (s.table.draining || contains_secret s.table.seen c)
        (leb max_seen (length s.table.seen)) (attached_state c policy probe active s) t h in
    (or-false s.table.draining _ free, leb-false→lt max_seen (length s.table.seen) room, same)

module _ (baseline : List Range) (protected : List Address) where
  attached-lookup :
      (c : Str) (policy : List Rule) (probe active : Bool) (s : State) (d : Str)
      → lookup (attached_state c policy probe active s).table.grants d ≡ (
          if str_eq c d
          then some (new_grant policy s.next_channel probe active)
          else lookup s.table.grants d)
  unfolding attached_state
  attached-lookup c policy probe active s d =
      lookup-insert s.table.grants c (new_grant policy s.next_channel probe active) d

  attached-seen :
      (c : Str) (policy : List Rule) (probe active : Bool) (s : State)
      → contains_secret s.table.seen c ≡ false
      → (attached_state c policy probe active s).table.seen ≡ c ∷ s.table.seen
  unfolding attached_state
  attached-seen c policy probe active s fresh = rw fresh

  attached-Tracks :
      (c : Str) (policy : List Rule) (probe active : Bool) (s : State) (log : List Entry)
      → Tracks baseline protected s log
      → contains_secret s.table.seen c ≡ false
      → Tracks baseline protected
          (attached_state c policy probe active s)
          (entered active c policy log)
  unfolding attached_state
  attached-Tracks c policy probe active s log h fresh = record {
    tracked = λ d g found.
        let seen_now = attached-seen c policy probe active s fresh in
        let look = attached-lookup c policy probe active s d in
        subst (λ seen. IsTracked d g seen (entered active c policy log)) (sym seen_now)
          (elim (Bool-cases (str_eq c d)) [
            | inl e ↦
                let same : c ≡ d = (str_eq_iff c d).0 e in
                let here : ◌≡◌ {A = Option Grant}
                    (some (new_grant policy s.next_channel probe active)) (some g) =
                  rw e at (sym look ∙ found) in
                let grant : new_grant policy s.next_channel probe active ≡ g = cc in
                subst (λ x. IsTracked x g (c ∷ s.table.seen) (entered active c policy log)) same
                  (subst (λ x. IsTracked c x (c ∷ s.table.seen) (entered active c policy log)) grant
                    (entered-IsTracked baseline protected active c policy s.next_channel probe
                      s.table.seen log (fresh-not_revoked baseline protected s log c h fresh)))
            | inr e ↦
                let there : lookup s.table.grants d ≡ some g = rw e at (sym look ∙ found) in
                entered-older baseline protected active c d policy g s.table.seen log
                  (h.tracked d g there)
          ]);
    revoked_seen = λ d r.
        let before : is_revoked log d ≡ true =
          sym (entered-is_revoked baseline protected active c policy log d) ∙ r in
        let seen = h.revoked_seen d before in rw fresh (ground arith);
    same_baseline = h.same_baseline;
    same_protected = h.same_protected;
  }

  attached-IsAlive :
      (c : Str) (policy : List Rule) (probe active : Bool) (s : State) (log : List Entry)
      → Tracks baseline protected s log
      → contains_secret s.table.seen c ≡ false
      → (d : Str) (g : Grant) → IsAlive s d g
      → IsAlive (attached_state c policy probe active s) d g
  unfolding attached_state
  attached-IsAlive c policy probe active s log h fresh d g (inl e) = inl e
  attached-IsAlive c policy probe active s log h fresh d g (inr held) =
      elim (Bool-cases (str_eq c d)) [
        | inl e ↦
            let same : c ≡ d = (str_eq_iff c d).0 e in
            let seen = (h.tracked d held.current held.found).was_seen in
            let unseen : contains_secret s.table.seen d ≡ false =
              subst (λ x. contains_secret s.table.seen x ≡ false) same fresh in
            absurd cc
        | inr e ↦ inr (
            found-IsHeldGrant
              (lookup-insert_other s.table.grants c (new_grant policy s.next_channel probe active) d
                e)
              held)
      ]

  pub attached-Moved :
      (c : Str) (policy : List Rule) (probe active : Bool) (s : State) (log : List Entry)
      → Tracks baseline protected s log
      → contains_secret s.table.seen c ≡ false
      → Moved baseline protected s
          (attached_state c policy probe active s)
          log
          (entered active c policy log)
  unfolding attached_state
  attached-Moved c policy probe active s log h fresh = record {
    tracks = attached-Tracks c policy probe active s log h fresh;
    alive = attached-IsAlive c policy probe active s log h fresh;
    seen_kept = λ d seen. rw fresh (ground arith);
    authorized = entered-IsAuthorized baseline protected active c policy log;
  }

pub attached-contains :
    (c : Str) (policy : List Rule) (probe active : Bool) (s : State)
    → contains_secret s.table.seen c ≡ false
    → contains_secret (attached_state c policy probe active s).table.seen c ≡ true
unfolding attached_state
attached-contains c policy probe active s fresh = rw (fresh, str_eq_refl c)
