-- ===== src/Service/Gateway/Held.antt =====
-- An attachment's connection (`hold` of crates/wrix-service/src/gateway/management/mod.rs) against
-- the history of a run.
use wrix.Common.{
  ℕ, ◌≡◌, refl, subst, inl, inr, Bool, true, List, [], ◌∷◌, ◌==◌, All, All-map, Bool-cases, Result,
  ok, err,
}
use wrix.Common.Text.{Str, str_eq, str_eq_iff}
use wrix.Service.Policy.{Rule}
use wrix.Service.Policy.Baseline.{Address, Range}
use wrix.Service.Gateway.{Error, State, contains_secret, attach, activate, revoke}
use wrix.Service.Gateway.Management.{
  Read, failed_read, end_of_stream, byte, hold_round, start_hold, activated,
}
use wrix.Service.Gateway.Run.{
  Entry, revoked_entry, attachment, held_after, held_on, hold_entries, remove_secret,
}
use wrix.Service.Gateway.Authorized.{Tracks, Moved, stayed-Moved, then-Moved, entered}
use wrix.Service.Gateway.Changes.{attach-fresh, attached-Moved, attached-contains}
use wrix.Service.Gateway.Revoked.{revoke-Moved}
use wrix.Service.Gateway.Activated.{activate-Moved}

-- Every credential of a list was seen.
abbrev pub AllSeen : State → List Str → Type 0
AllSeen s held = All (λ c. contains_secret s.table.seen c ≡ true) held

remove-AllSeen :
    (s : State) (c : Str) (held : List Str) → AllSeen s held → AllSeen s (remove_secret c held)
remove-AllSeen s c [] h = tt
remove-AllSeen s c (d ∷ held) (h, hs) = elim (Bool-cases (str_eq d c)) [
  | inl e ↦ rw e (remove-AllSeen s c held hs)
  | inr e ↦ rw e (h, remove-AllSeen s c held hs)
]

held-seen :
    (s : State) (c : Str) (held : List Str)
    → AllSeen s held
    → contains_secret held c ≡ true
    → contains_secret s.table.seen c ≡ true
held-seen s c [] h k = cc
held-seen s c (d ∷ held) (h, hs) k = elim (Bool-cases (str_eq d c)) [
  | inl e ↦ subst (λ x. contains_secret s.table.seen x ≡ true) ((str_eq_iff d c).0 e) h
  | inr e ↦ held-seen s c held hs (rw e at k)
]

module _ (baseline : List Range) (protected : List Address) where
  -- A change of the table that keeps what is held seen.
  pub record IsKept (s : State) (t : State) (log : List Entry) (later : List Entry)
      (held : List Str) : Type 0 where
    pub moved : Moved baseline protected s t log later
    pub all_seen : AllSeen t held

  pub Moved-AllSeen :
      {s t : State} {log later : List Entry} (held : List Str)
      → Moved baseline protected s t log later
      → AllSeen s held
      → AllSeen t held
  Moved-AllSeen {s} {t} held h =
      All-map (λ c. contains_secret s.table.seen c ≡ true)
        (λ c. contains_secret t.table.seen c ≡ true) held h.seen_kept

  pub stayed-IsKept :
      (s : State) (log : List Entry) (held : List Str)
      → Tracks baseline protected s log
      → AllSeen s held
      → IsKept s s log log held
  stayed-IsKept s log held h seen = record {
    moved = stayed-Moved baseline protected s log h;
    all_seen = seen;
  }

  -- A change of what the grants do not read.
  pub beside-Moved :
      (s : State) (log : List Entry) (draining lock : Bool) (available : ℕ)
      → Tracks baseline protected s log
      → Moved baseline protected s
          (record s {
            table = record s.table { draining = draining };
            is_poisoned = lock;
            available = available;
          })
          log
          log
  beside-Moved s log draining lock available h = record {
    tracks = record {
      tracked = h.tracked;
      revoked_seen = h.revoked_seen;
      same_baseline = h.same_baseline;
      same_protected = h.same_protected;
    };
    alive = λ c g a. elim a [
      | inl e ↦ inl e
      | inr held ↦ inr (record {
        current = held.current;
        found = held.found;
        same_policy = held.same_policy;
        same_cancel = held.same_cancel;
        is_active = held.is_active;
      })
    ];
    seen_kept = λ c k. k;
    authorized = λ k. k;
  }

  -- The revoker is dropped after a change.
  dropped-IsKept :
      {s t : State} {log later : List Entry} (c : Str) (held : List Str)
      → Moved baseline protected s t log later
      → contains_secret t.table.seen c ≡ true
      → AllSeen s held
      → IsKept s (revoke c t) log (revoked_entry c ∷ later) held
  dropped-IsKept {s} {t} {log} {later} c held h seen all =
      let both =
        then-Moved baseline protected h (revoke-Moved baseline protected t later c h.tracks seen) in
      record { moved = both; all_seen = Moved-AllSeen held both all }

  pub start_hold-IsKept :
      (c : Str) (policy : List Rule) (probe active : Bool) (s : State) (log : List Entry)
      (held : List Str) (write : Result Error (Unit {0})) (r : Result Error State)
      → attach c policy probe active s ≡ r
      → Tracks baseline protected s log
      → AllSeen s held
      → (let out = start_hold c write s r in
          IsKept s out.after log
            (attachment c policy active out log)
            (held_after out.progress held))
  start_hold-IsKept c policy probe active s log held write (err e) q h all =
      stayed-IsKept s log held h all
  start_hold-IsKept c policy probe active s log held (ok done) (ok t) q h all =
      let (fresh, room, same) = attach-fresh c policy probe active s t q in
      let moved = attached-Moved baseline protected c policy probe active s log h fresh in
      subst (λ x. IsKept s x log (entered active c policy log) (c ∷ held)) same
        (record {
          moved = moved;
          all_seen =
              (attached-contains c policy probe active s fresh, Moved-AllSeen held moved all);
        })
  start_hold-IsKept c policy probe active s log held (err e) (ok t) q h all =
      let (fresh, room, same) = attach-fresh c policy probe active s t q in
      let moved = attached-Moved baseline protected c policy probe active s log h fresh in
      subst (λ x. IsKept s (revoke c x) log (revoked_entry c ∷ entered active c policy log) held)
        same (dropped-IsKept c held moved (attached-contains c policy probe active s fresh) all)

  activated-IsKept :
      (c : Str) (s : State) (log : List Entry) (held : List Str) (write : Result Error (Unit {0}))
      (r : Result Error State)
      → activate c s ≡ r
      → contains_secret s.table.seen c ≡ true
      → Tracks baseline protected s log
      → AllSeen s held
      → (let out = activated c write s r in
          IsKept s out.after log (hold_entries c out log) (held_on c out.progress held))
  activated-IsKept c s log held write (err e) q seen h all =
      dropped-IsKept c (remove_secret c held) (stayed-Moved baseline protected s log h) seen
        (remove-AllSeen s c held all)
  activated-IsKept c s log held (ok done) (ok t) q seen h all =
      let moved = activate-Moved baseline protected s t log c q h in
      record { moved = moved; all_seen = Moved-AllSeen held moved all }
  activated-IsKept c s log held (err e) (ok t) q seen h all =
      let moved = activate-Moved baseline protected s t log c q h in
      dropped-IsKept c (remove_secret c held) moved (moved.seen_kept c seen)
        (remove-AllSeen s c held all)

  pub hold_round-IsKept :
      (c : Str) (input : Read) (write : Result Error (Unit {0})) (s : State) (log : List Entry)
      (held : List Str)
      → contains_secret held c ≡ true
      → Tracks baseline protected s log
      → AllSeen s held
      → (let out = hold_round c input write s in
          IsKept s out.after log (hold_entries c out log) (held_on c out.progress held))
  unfolding hold_round
  hold_round-IsKept c failed_read write s log held holds h all =
      dropped-IsKept c (remove_secret c held) (stayed-Moved baseline protected s log h)
        (held-seen s c held all holds) (remove-AllSeen s c held all)
  hold_round-IsKept c end_of_stream write s log held holds h all =
      dropped-IsKept c (remove_secret c held) (stayed-Moved baseline protected s log h)
        (held-seen s c held all holds) (remove-AllSeen s c held all)
  hold_round-IsKept c (byte b) write s log held holds h all =
      let seen = held-seen s c held all holds in
      let dropped =
        dropped-IsKept c (remove_secret c held) (stayed-Moved baseline protected s log h) seen
          (remove-AllSeen s c held all) in
      elim (Bool-cases (b == 0)) [
        | inl e ↦ rw e dropped
        | inr e ↦ elim (Bool-cases (b == 1)) [
          | inl f ↦ rw (e, f) (activated-IsKept c s log held write (activate c s) refl seen h all)
          | inr f ↦ rw (e, f) dropped
        ]
      ]
