-- ===== src/Service/Drain/Tests.antt =====
-- A drain on a role with two requests that end one by one.
use wrix.Common.{ℕ, ◌+◌, ◌-◌, ◌≡◌, refl, true, false, [], some, Result, ok, err, arith}
use wrix.Service.Drain
use wrix.Service.Drain.{
  Command, begin_command, quiesce_command, status_command, abort_command, release_command, Phase,
  draining, serving_phase, released, Status, Response, Failure, busy, World, Session, quiesce,
  release,
}
use wrix.Service.Drain.Halts.{IsMonotonic, quiesce-HasResult}
use wrix.Service.Drain.Settled.{IsSettled, quiesce-IsSettled}

record Role : Type 0 where
  clock : ℕ
  requests : ℕ

abbrev with_phase : Phase → Role → Result Failure Response
with_phase phase role = ok (record {
  accepted = true;
  status = record {
    phase = phase;
    requests = role.requests;
    workflows = 0;
    background = 0;
    has_failed = false;
  };
})

abbrev answer : Role → Command → Result Failure Response
answer role begin_command = with_phase draining role
answer role quiesce_command = with_phase draining role
answer role status_command = with_phase draining role
answer role abort_command = with_phase serving_phase role
answer role release_command = with_phase released role

abbrev world : World Role
world = record {
  answer = answer;
  answered = λ role command. record role { requests = role.requests - 1 };
  elapsed = λ role. role.clock;
  read_clock = λ role. role;
  slept = λ n role. record role { clock = role.clock + n };
}

abbrev start : ℕ → Session Role
start n = record { state = record { clock = 0; requests = n }; sent = [] }

monotonic : IsMonotonic world (λ role. role.clock)
monotonic = record {
  not_before = λ s. omega arith;
  not_after = λ s. omega arith;
  commands_later = λ s c. omega arith;
  sleeps_long = λ s n. omega arith;
}

quiesce-HasResult_example :
    (r : Result Failure Status × Session Role) × (quiesce world 7 100000000 (start 2) ≡ some r)
quiesce-HasResult_example =
    quiesce-HasResult world (λ role. role.clock) monotonic 7 100000000 (start 2) (omega arith)

abbrev drained_status : Status
drained_status = record {
  phase = draining;
  requests = 0;
  workflows = 0;
  background = 0;
  has_failed = false;
}

-- Two rounds of 20 milliseconds, and the drain.
abbrev drained_session : Session Role
drained_session = Drain.after_command world quiesce_command (
    Drain.after_command world status_command (
      Drain.sleep_for world 20000000 (
        Drain.after_command world status_command
          (Drain.sleep_for world 20000000 (Drain.after_command world begin_command (start 2))))))

drains : quiesce world 7 100000000 (start 2) ≡ some (ok drained_status, drained_session)
unfolding quiesce Drain.drain_loop Drain.checked Drain.drained Drain.sleep_round
drains = refl

quiesce-IsSettled_example : IsSettled world (ok drained_status, drained_session)
quiesce-IsSettled_example =
    quiesce-IsSettled world 7 100000000 (start 2) drained_session (ok drained_status) refl drains

-- A budget that ends before the work does.
abbrev busy_session : Session Role
busy_session = Drain.after_command world abort_command (
    Drain.after_command world status_command
      (Drain.sleep_for world 20000000 (Drain.after_command world begin_command (start 9))))

stays_busy : quiesce world 7 20000000 (start 9) ≡ some (err busy, busy_session)
unfolding quiesce Drain.drain_loop Drain.checked Drain.drained Drain.sleep_round
stays_busy = refl

releases :
    (release world (start 0)).0
    ≡ ok (record {
      phase = released;
      requests = 0;
      workflows = 0;
      background = 0;
      has_failed = false;
    })
unfolding release Drain.checked
releases = refl
