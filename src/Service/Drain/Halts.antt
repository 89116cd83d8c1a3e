-- ===== src/Service/Drain/Halts.antt =====
-- The loop of `quiesce` ends.
use wrix.Common.{
  ℕ, zero, suc, ◌+◌, ◌-◌, ◌*◌, ◌/◌, ◌≤◌, ◌≡◌, refl, false, not, ◌||◌, some, leb, Result, ok, err,
  Bool-cases, leb-false→lt, min, arith, inl, inr,
}
use wrix.Service.Drain.{
  Command, begin_command, quiesce_command, status_command, abort_command, Status, Failure, busy,
  uncertain, drained, is_draining, World, Session, Run, checked, checked_response, after_command,
  at_clock, sleep_round, quiescent_status, continue_with, drain_loop, settle, quiesce, reopened,
}

-- A clock that never goes back, and sleeps that last as long as they are asked to.
pub record IsMonotonic {S : Type 0} (world : World S) (time : S → ℕ) : Type 0 where
  pub not_before : (s : S) → time s ≤ world.elapsed s
  pub not_after : (s : S) → world.elapsed s ≤ time (world.read_clock s)
  pub commands_later : (s : S) (c : Command) → time s ≤ time (world.answered s c)
  pub sleeps_long : (s : S) (n : ℕ) → time s + n ≤ time (world.slept n s)

module _ {S : Type 0} (world : World S) (time : S → ℕ) (clock : IsMonotonic world time) where
  abbrev HasResult : Run world → Type 0
  HasResult run = (r : Result Failure Status × Session S) × (run ≡ some r)

  round-later :
      (left budget : ℕ) (session : Session S)
      → budget ≤ time session.state + suc left * 20000000
      → budget
        ≤ time
            (after_command world status_command
              (sleep_round world budget (at_clock world session))).state
          + left * 20000000
  unfolding sleep_round
  round-later left budget session h =
      let s = world.read_clock session.state in
      let a = clock.not_before session.state in
      let b = clock.not_after session.state in
      let c = clock.not_before s in
      let d = clock.not_after s in
      let slept =
        clock.sleeps_long (world.read_clock s) (min 20000000 (budget - world.elapsed s)) in
      let e =
        clock.commands_later
          (world.slept (min 20000000 (budget - world.elapsed s)) (world.read_clock s))
          status_command in
      omega arith

  continue-HasResult :
      (next : Status → Session S → Run world) (r : Result Failure Status) (session : Session S)
      → ((status : Status) → HasResult (next status session))
      → HasResult (continue_with world next (r, session))
  continue-HasResult next (err e) session h = ((err e, session), refl)
  continue-HasResult next (ok status) session h = h status

  settle-HasResult : (r : Result Failure Status × Session S) → HasResult (settle world (some r))
  settle-HasResult (ok status, session) = ((ok status, session), refl)
  settle-HasResult (err e, session) = (reopened world e (checked world abort_command session), refl)

  -- A round ends when what it goes on with ends.
  round-HasResult :
      (left budget : ℕ) (status : Status) (session : Session S)
      → (leb budget (world.elapsed session.state) ≡ false
          → HasResult (
              continue_with world
                (drain_loop world left budget)
                (checked world status_command (sleep_round world budget (at_clock world session)))))
      → HasResult (drain_loop world (suc left) budget status session)
  unfolding drain_loop checked
  round-HasResult left budget status session rest = elim (Bool-cases (drained status)) [
    | inl e ↦ (quiescent_status world (checked world quiesce_command session), rw e)
    | inr e ↦ elim (Bool-cases (not (is_draining status.phase) || status.has_failed)) [
      | inl f ↦ ((err uncertain, session), rw (e, f))
      | inr f ↦ elim (Bool-cases (leb budget (world.elapsed session.state))) [
        | inl g ↦ ((err busy, at_clock world session), rw (e, f, g))
        | inr g ↦ let (r, q) = rest g in (r, rw (e, f, g, q))
      ]
    ]
  ]

  pub drain_loop-HasResult :
      (left budget : ℕ) (status : Status) (session : Session S)
      → budget ≤ time session.state + left * 20000000
      → HasResult (drain_loop world (suc left) budget status session)
  unfolding checked
  drain_loop-HasResult zero budget status session h =
      round-HasResult zero budget status session (λ g.
        let early = leb-false→lt budget (world.elapsed session.state) g in
        let late = clock.not_before session.state in absurd (omega arith))
  drain_loop-HasResult (suc left) budget status session h =
      round-HasResult (suc left) budget status session (λ g.
        let slept = sleep_round world budget (at_clock world session) in
        let after = after_command world status_command slept in
        continue-HasResult (drain_loop world (suc left) budget)
          (checked_response status_command (world.answer slept.state status_command)) after
          (λ next. drain_loop-HasResult left budget next after (round-later left budget session h)))

  -- With one round for every 20 milliseconds of the budget, one for the rest and one to end, `quiesce`
  -- ends, whatever the role answers, when the clock never goes back and a sleep lasts as long as it is
  -- asked to.
  pub quiesce-HasResult :
      (fuel budget : ℕ) (session : Session S)
      → budget / 20000000 + 2 ≤ fuel
      → (r : Result Failure Status × Session S) × (quiesce world fuel budget session ≡ some r)
  unfolding quiesce checked
  quiesce-HasResult zero budget session h = absurd (omega arith)
  quiesce-HasResult (suc left) budget session h =
      let after = after_command world begin_command session in
      let enough : budget ≤ time after.state + left * 20000000 = omega arith in
      let (r, q) =
        continue-HasResult (drain_loop world (suc left) budget)
          (checked_response begin_command (world.answer session.state begin_command)) after
          (λ status. drain_loop-HasResult left budget status after enough) in
      rw q (settle-HasResult r)
