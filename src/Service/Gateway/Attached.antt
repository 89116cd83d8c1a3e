-- ===== src/Service/Gateway/Attached.antt =====
-- The private protocol of crates/wrix-service/src/gateway/management/mod.rs: a grant lasts as long
-- as the connection that holds it.
use wrix.Common.{
  ℕ, ◌≡◌, refl, subst, ◌∙◌, inl, inr, Bool, true, false, not, ◌||◌, List, ◌∷◌, Option, none, ◌==◌,
  if◌then◌else◌, Bool-cases, Result, ok, err,
}
use wrix.Common.Text.{Str, str_eq_refl}
use wrix.Service.Policy.{Rule}
use wrix.Service.Gateway.{
  Error, poisoned, State, contains_secret, attached_state, attach, activate, revoke, matches,
}
use wrix.Service.Gateway.Management.{
  Operation, status_operation, drain_operation, attach_operation, prepare_operation,
  probe_operation, Envelope, outcome, ended, Status, Read, failed_read, end_of_stream, byte, serve,
  operate, hold_round, probe_policy, start_hold, write_status, gateway_status, version,
  closed_table, activated, attach_probe,
}
use wrix.Service.Gateway.Run.{held_after, held_on, remove_secret}
use wrix.Service.Gateway.Changes.{attach-fresh}
use wrix.Service.Gateway.Matched.{
  IsMatched, Matches, removed-absent, attached-Matches, revoke-Matches, activate-Matches,
}

pub same-Matches : (s : State) (held : List Str) → IsMatched s held → Matches s s held
same-Matches s held h = record { matched = h; same_available = refl; same_capacity = refl }

then-Matches :
    {s t u : State} {held later : List Str}
    → Matches s t held
    → Matches t u later
    → Matches s u later
then-Matches h k = record {
  matched = k.matched;
  same_available = k.same_available ∙ h.same_available;
  same_capacity = k.same_capacity ∙ h.same_capacity;
}

-- What is held counts by its members.
members-IsMatched :
    (s : State) (held other : List Str)
    → ((c : Str) → contains_secret held c ≡ contains_secret other c)
    → IsMatched s held
    → IsMatched s other
members-IsMatched s held other e h = record {
  same_keys = λ c. h.same_keys c ∙ e c;
  all_seen = λ c k. h.all_seen c (e c ∙ k);
  bounded = h.bounded;
}

not-held :
    (s : State) (held : List Str) (c : Str)
    → IsMatched s held
    → contains_secret s.table.seen c ≡ false
    → contains_secret held c ≡ false
not-held s held c h fresh = elim (Bool-cases (contains_secret held c)) [
  | inl e ↦ let seen = h.all_seen c e in absurd cc
  | inr e ↦ e
]

-- A credential that is let go at once leaves what was held before.
let_go :
    (held : List Str) (c : Str) (d : Str)
    → contains_secret held c ≡ false
    → contains_secret (remove_secret c (c ∷ held)) d ≡ contains_secret held d
let_go held c d h = rw (str_eq_refl c) (removed-absent c held d h)

start_hold-Matches :
    (c : Str) (policy : List Rule) (probe active : Bool) (s : State) (held : List Str)
    (write : Result Error (Unit {0})) (r : Result Error State)
    → attach c policy probe active s ≡ r
    → IsMatched s held
    → (let out = start_hold c write s r in Matches s out.after (held_after out.progress held))
start_hold-Matches c policy probe active s held write (err e) q h = same-Matches s held h
start_hold-Matches c policy probe active s held (ok done) (ok t) q h =
    let (fresh, room, same) = attach-fresh c policy probe active s t q in
    subst (λ x. Matches s x (c ∷ held)) same
      (attached-Matches c policy probe active s held fresh room h)
start_hold-Matches c policy probe active s held (err e) (ok t) q h =
    let (fresh, room, same) = attach-fresh c policy probe active s t q in
    let first = attached-Matches c policy probe active s held fresh room h in
    let second =
      then-Matches first
        (revoke-Matches c (attached_state c policy probe active s) (c ∷ held) first.matched) in
    subst (λ x. Matches s (revoke c x) held) same
      (record {
        matched =
            members-IsMatched _ (remove_secret c (c ∷ held)) held
              (λ d. let_go held c d (not-held s held c h fresh)) second.matched;
        same_available = second.same_available;
        same_capacity = second.same_capacity;
      })

activated-Matches :
    (c : Str) (s : State) (held : List Str) (write : Result Error (Unit {0}))
    (r : Result Error State)
    → activate c s ≡ r
    → IsMatched s held
    → (let out = activated c write s r in Matches s out.after (held_on c out.progress held))
activated-Matches c s held write (err e) q h = revoke-Matches c s held h
activated-Matches c s held (ok done) (ok t) q h = activate-Matches c s t held q h
activated-Matches c s held (err e) (ok t) q h =
    let first = activate-Matches c s t held q h in
    then-Matches first (revoke-Matches c t held first.matched)

pub hold_round-Matches :
    (c : Str) (input : Read) (write : Result Error (Unit {0})) (s : State) (held : List Str)
    → IsMatched s held
    → (let out = hold_round c input write s in Matches s out.after (held_on c out.progress held))
unfolding hold_round
hold_round-Matches c failed_read write s held h = revoke-Matches c s held h
hold_round-Matches c end_of_stream write s held h = revoke-Matches c s held h
hold_round-Matches c (byte b) write s held h = elim (Bool-cases (b == 0)) [
  | inl e ↦ rw e (revoke-Matches c s held h)
  | inr e ↦ elim (Bool-cases (b == 1)) [
    | inl f ↦ rw (e, f) (activated-Matches c s held write (activate c s) refl h)
    | inr f ↦ rw (e, f) (revoke-Matches c s held h)
  ]
]

write_status-Matches :
    (s t : State) (held : List Str) (write : Result Error (Unit {0})) (r : Result Error Status)
    → Matches s t held
    → (let out = write_status write t r in Matches s out.after (held_after out.progress held))
write_status-Matches s t held write (err e) h = h
write_status-Matches s t held write (ok status) h = h

draining-Matches :
    (lock draining : Bool) (s : State) (held : List Str) (write : Result Error (Unit {0}))
    (r : Result Error Status)
    → IsMatched s held
    → (let out =
          if lock
          then outcome none (ended (err poisoned)) s
          else write_status write (closed_table draining s) r in
        Matches s out.after (held_after out.progress held))
draining-Matches true draining s held write r h = same-Matches s held h
draining-Matches false draining s held write r h =
    write_status-Matches s (closed_table draining s) held write r (record {
      matched = record { same_keys = h.same_keys; all_seen = h.all_seen; bounded = h.bounded };
      same_available = refl;
      same_capacity = refl;
    })

module _ (parse_ipv4 : Str → Option ℕ) where
  attach_probe-Matches :
      (c : Str) (s : State) (held : List Str) (write : Result Error (Unit {0}))
      (r : Result Error (List Rule))
      → IsMatched s held
      → (let out = attach_probe parse_ipv4 c write s r in
          Matches s out.after (held_after out.progress held))
  attach_probe-Matches c s held write (err e) h = same-Matches s held h
  attach_probe-Matches c s held write (ok policy) h =
      start_hold-Matches c policy true true s held write (attach c policy true true s) refl h

  operate-Matches :
      (operation : Operation) (write : Result Error (Unit {0})) (s : State) (held : List Str)
      → IsMatched s held
      → (let out = operate parse_ipv4 operation write s in
          Matches s out.after (held_after out.progress held))
  unfolding operate
  operate-Matches status_operation write s held h =
      write_status-Matches s s held write (gateway_status s) (same-Matches s held h)
  operate-Matches (drain_operation draining) write s held h =
      draining-Matches s.is_poisoned draining s held write
        (gateway_status (closed_table draining s)) h
  operate-Matches (attach_operation c policy) write s held h =
      start_hold-Matches c policy false true s held write (attach c policy false true s) refl h
  operate-Matches (prepare_operation c policy) write s held h =
      start_hold-Matches c policy false false s held write (attach c policy false false s) refl h
  operate-Matches (probe_operation c) write s held h =
      attach_probe-Matches c s held write (probe_policy parse_ipv4) h

  pub serve-Matches :
      (key : Str) (request : Result Error Envelope) (write : Result Error (Unit {0})) (s : State)
      (held : List Str)
      → IsMatched s held
      → (let out = serve parse_ipv4 key request write s in
          Matches s out.after (held_after out.progress held))
  unfolding serve
  serve-Matches key (err e) write s held h = same-Matches s held h
  serve-Matches key (ok envelope) write s held h =
      elim (Bool-cases
        (not (envelope.envelope_version == version) || not (matches key envelope.key))) [
          | inl e ↦ rw e (same-Matches s held h)
          | inr e ↦ rw e (operate-Matches envelope.operation write s held h)
        ]
