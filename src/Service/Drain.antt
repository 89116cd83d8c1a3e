-- ===== src/Service/Drain.antt =====
-- crates/wrix-service/src/lifecycle/drain/mod.rs: the drain of a native role before its release.
-- The native role and the clock are a world whose every answer changes its state. `sent` is the
-- history of a run, the latest exchange first. Times are in nanoseconds.
pub mod Settled
pub mod Halts
mod Tests
use wrix.Common.{
  ℕ, zero, suc, ◌-◌, min, Bool, true, false, not, ◌&&◌, ◌||◌, List, [], ◌∷◌, Option, none, some,
  ◌==◌, leb, if◌then◌else◌, Result, ok, err,
}

pub data Command : Type 0 where
  begin_command : Command
  quiesce_command : Command
  status_command : Command
  abort_command : Command
  release_command : Command

pub data Phase : Type 0 where
  serving_phase : Phase
  draining : Phase
  releasing : Phase
  released : Phase

pub record Status : Type 0 where
  pub phase : Phase
  pub requests : ℕ
  pub workflows : ℕ
  pub background : ℕ
  pub has_failed : Bool

pub record Response : Type 0 where
  pub accepted : Bool
  pub status : Status

-- The errors of the system and of JSON stand for themselves.
pub data Failure : Type 0 where
  io : Failure
  json : Failure
  oversize : Failure
  rejected : Command → Failure
  unreleased : Failure
  busy : Failure
  uncertain : Failure
  not_reopened : Failure → Failure

abbrev pub is_draining : Phase → Bool
is_draining serving_phase = false
is_draining draining = true
is_draining releasing = false
is_draining released = false

abbrev pub is_serving : Phase → Bool
is_serving serving_phase = true
is_serving draining = false
is_serving releasing = false
is_serving released = false

abbrev pub is_released : Phase → Bool
is_released serving_phase = false
is_released draining = false
is_released releasing = false
is_released released = true

-- `Status::drained`.
unfoldable pub drained : Status → Bool
drained status =
    is_draining status.phase
    && (status.requests == 0
        && (status.workflows == 0 && (status.background == 0 && not status.has_failed)))

-- `Native`, and what the loop asks of the clock.
pub record World (S : Type 0) : Type 0 where
  pub answer : S → Command → Result Failure Response
  pub answered : S → Command → S
  pub elapsed : S → ℕ
  pub read_clock : S → S
  pub slept : ℕ → S → S

abbrev pub Exchange : Type 0
Exchange = Command × Result Failure Response

pub record Session (S : Type 0) : Type 0 where
  pub state : S
  pub sent : List Exchange

abbrev pub checked_response : Command → Result Failure Response → Result Failure Status
checked_response command (err e) = err e
checked_response command (ok response) =
    if response.accepted then ok response.status else err (rejected command)

module _ {S : Type 0} (world : World S) where
  abbrev pub after_command : Command → Session S → Session S
  after_command command session = record {
    state = world.answered session.state command;
    sent = (command, world.answer session.state command) ∷ session.sent;
  }

  -- `checked`: the status, and the session after the command.
  unfoldable pub checked : Command → Session S → Result Failure Status × Session S
  checked command session =
      (checked_response command (world.answer session.state command), after_command command session)

  abbrev pub at_clock : Session S → Session S
  at_clock session = record session { state = world.read_clock session.state }

  abbrev pub sleep_for : ℕ → Session S → Session S
  sleep_for nanoseconds session = record session { state = world.slept nanoseconds session.state }

  abbrev pub twenty_milliseconds : ℕ
  twenty_milliseconds = 20000000

  -- The sleep of a round, at most until the budget ends.
  unfoldable pub sleep_round : ℕ → Session S → Session S
  sleep_round budget session =
      sleep_for (min twenty_milliseconds (budget - world.elapsed session.state)) (at_clock session)

  abbrev pub quiescent_status :
      Result Failure Status × Session S → Result Failure Status × Session S
  quiescent_status (err e, session) = (err e, session)
  quiescent_status (ok status, session) =
      if drained status then (ok status, session) else (err uncertain, session)

  abbrev pub Run : Type 0
  Run = Option (Result Failure Status × Session S)

  -- The rest of a loop that has the next status.
  abbrev pub continue_with : (Status → Session S → Run) → Result Failure Status × Session S → Run
  continue_with next (err e, session) = some (err e, session)
  continue_with next (ok status, session) = next status session

  -- The loop of `quiesce`, on fuel: `none` is a loop that still runs.
  unfoldable pub drain_loop : ℕ → ℕ → Status → Session S → Run
  unfolding checked sleep_round
  drain_loop zero budget status session = none
  drain_loop (suc fuel) budget status session =
      let slept = sleep_round budget (at_clock session) in
      let rest = continue_with (drain_loop fuel budget) (checked status_command slept) in
      if drained status
      then some (quiescent_status (checked quiesce_command session))
      else if not (is_draining status.phase) || status.has_failed
      then some (err uncertain, session)
      else if leb budget (world.elapsed session.state)
      then some (err busy, at_clock session)
      else rest

  -- `match checked(native, Command::Abort)`.
  abbrev pub reopened :
      Failure → Result Failure Status × Session S → Result Failure Status × Session S
  reopened failure (err e, session) = (err (not_reopened e), session)
  reopened failure (ok status, session) =
      if is_serving status.phase
      then (err failure, session)
      else (err (not_reopened unreleased), session)

  abbrev pub settle : Run → Run
  settle none = none
  settle (some (ok status, session)) = some (ok status, session)
  settle (some (err e, session)) = some (reopened e (checked abort_command session))

  -- `quiesce`; the start's clock was read before the session.
  unfoldable pub quiesce : ℕ → ℕ → Session S → Run
  unfolding drain_loop checked
  quiesce fuel budget session =
      settle (continue_with (drain_loop fuel budget) (checked begin_command session))

  abbrev pub released_status : Result Failure Status × Session S → Result Failure Status × Session S
  released_status (err e, session) = (err e, session)
  released_status (ok status, session) =
      if not (is_released status.phase)
        || (not (status.requests == 0)
            || (not (status.workflows == 0) || (not (status.background == 0) || status.has_failed)))
      then (err unreleased, session)
      else (ok status, session)

  -- `release`.
  unfoldable pub release : Session S → Result Failure Status × Session S
  unfolding checked
  release session = released_status (checked release_command session)
