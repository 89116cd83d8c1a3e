-- ===== src/Service/Gateway/Served.antt =====
-- The private protocol (crates/wrix-service/src/gateway/management/mod.rs) against the history of a
-- run.
use wrix.Common.{
  ℕ, ◌≡◌, refl, sym, subst, inl, inr, Bool, true, false, not, ◌||◌, List, Option, none, some, ◌==◌,
  if◌then◌else◌, Bool-cases, Result, ok, err, ◌>>◌,
}
use wrix.Common.Text.{Str}
use wrix.Service.Policy.{Rule}
use wrix.Service.Policy.Baseline.{Address, Range}
use wrix.Service.Gateway.{Error, denied, poisoned, State, attach, matches}
use wrix.Service.Gateway.Management.{
  Operation, status_operation, drain_operation, attach_operation, prepare_operation,
  probe_operation, Envelope, outcome, Progress, ended, Status, serve, operate, probe_policy,
  write_status, gateway_status, version, closed_table, attach_probe, denied_reply,
}
use wrix.Service.Gateway.Run.{Entry, held_after, operation_entries, policy_entries, serve_entries}
use wrix.Service.Gateway.Authorized.{Tracks}
use wrix.Service.Gateway.Held.{
  AllSeen, IsKept, Moved-AllSeen, stayed-IsKept, beside-Moved, start_hold-IsKept,
}

-- A reply that refuses a request enters nothing.
refused-policy :
    (c : Str) (r : Result Error (List Rule)) (p : Progress) (s : State) (log : List Entry)
    → policy_entries c (outcome (some denied_reply) p s) r log ≡ log
refused-policy c (err e) p s log = refl
refused-policy c (ok policy) p s log = refl

refused-entries :
    (parse_ipv4 : Str → Option ℕ) (operation : Operation) (p : Progress) (s : State)
    (log : List Entry)
    → operation_entries parse_ipv4 operation (outcome (some denied_reply) p s) log ≡ log
refused-entries parse_ipv4 status_operation p s log = refl
refused-entries parse_ipv4 (drain_operation draining) p s log = refl
refused-entries parse_ipv4 (attach_operation c policy) p s log = refl
refused-entries parse_ipv4 (prepare_operation c policy) p s log = refl
refused-entries parse_ipv4 (probe_operation c) p s log =
    refused-policy c (probe_policy parse_ipv4) p s log

module _ (baseline : List Range) (protected : List Address) where
  write_status-IsKept :
      (s t : State) (log : List Entry) (held : List Str) (write : Result Error (Unit {0}))
      (r : Result Error Status)
      → IsKept baseline protected s t log log held
      → (let out = write_status write t r in
          IsKept baseline protected s out.after log log (held_after out.progress held))
  write_status-IsKept s t log held write (err e) h = h
  write_status-IsKept s t log held write (ok status) h = h

  draining-IsKept :
      (lock draining : Bool) (s : State) (log : List Entry) (held : List Str)
      (write : Result Error (Unit {0})) (r : Result Error Status)
      → Tracks baseline protected s log
      → AllSeen s held
      → (let out =
            if lock
            then outcome none (ended (err poisoned)) s
            else write_status write (closed_table draining s) r in
          IsKept baseline protected s out.after log log (held_after out.progress held))
  draining-IsKept true draining s log held write r h all =
      stayed-IsKept baseline protected s log held h all
  draining-IsKept false draining s log held write r h all =
      let moved = beside-Moved baseline protected s log draining s.is_poisoned s.available h in
      write_status-IsKept s (closed_table draining s) log held write r
        (record { moved = moved; all_seen = Moved-AllSeen baseline protected held moved all })

  module _ (parse_ipv4 : Str → Option ℕ) where
    attach_probe-IsKept :
        (c : Str) (s : State) (log : List Entry) (held : List Str) (write : Result Error (Unit {0}))
        (r : Result Error (List Rule))
        → Tracks baseline protected s log
        → AllSeen s held
        → (let out = attach_probe parse_ipv4 c write s r in
            IsKept baseline protected s out.after log
              (policy_entries c out r log)
              (held_after out.progress held))
    attach_probe-IsKept c s log held write (err e) h all =
        stayed-IsKept baseline protected s log held h all
    attach_probe-IsKept c s log held write (ok policy) h all =
        start_hold-IsKept baseline protected c policy true true s log held write
          (attach c policy true true s) refl h all

    operate-IsKept :
        (operation : Operation) (write : Result Error (Unit {0})) (s : State) (log : List Entry)
        (held : List Str)
        → Tracks baseline protected s log
        → AllSeen s held
        → (let out = operate parse_ipv4 operation write s in
            IsKept baseline protected s out.after log
              (operation_entries parse_ipv4 operation out log)
              (held_after out.progress held))
    unfolding operate
    operate-IsKept status_operation write s log held h all =
        write_status-IsKept s s log held write (gateway_status s)
          (stayed-IsKept baseline protected s log held h all)
    operate-IsKept (drain_operation draining) write s log held h all =
        draining-IsKept s.is_poisoned draining s log held write
          (gateway_status (closed_table draining s)) h all
    operate-IsKept (attach_operation c policy) write s log held h all =
        start_hold-IsKept baseline protected c policy false true s log held write
          (attach c policy false true s) refl h all
    operate-IsKept (prepare_operation c policy) write s log held h all =
        start_hold-IsKept baseline protected c policy false false s log held write
          (attach c policy false false s) refl h all
    operate-IsKept (probe_operation c) write s log held h all =
        attach_probe-IsKept c s log held write (probe_policy parse_ipv4) h all

    pub serve-IsKept :
        (key : Str) (request : Result Error Envelope) (write : Result Error (Unit {0})) (s : State)
        (log : List Entry) (held : List Str)
        → Tracks baseline protected s log
        → AllSeen s held
        → (let out = serve parse_ipv4 key request write s in
            IsKept baseline protected s out.after log
              (serve_entries parse_ipv4 request out log)
              (held_after out.progress held))
    unfolding serve
    serve-IsKept key (err e) write s log held h all =
        stayed-IsKept baseline protected s log held h all
    serve-IsKept key (ok envelope) write s log held h all =
        elim (Bool-cases
          (not (envelope.envelope_version == version) || not (matches key envelope.key))) [
            | inl e ↦ rw e (
                subst (λ later. IsKept baseline protected s s log later held)
                  (sym (
                    refused-entries parse_ipv4 envelope.operation (ended (write >> err denied)) s
                      log))
                  (stayed-IsKept baseline protected s log held h all))
            | inr e ↦ rw e (operate-IsKept envelope.operation write s log held h all)
          ]
