-- ===== src/Service/Drain/Settled.antt =====
-- What `quiesce` has established when it returns.
use wrix.Common.{
  ℕ, zero, suc, ◌≡◌, refl, ap, subst, ◌∙◌, Bool, true, false, not, ◌||◌, List, ◌∷◌, none, some, leb,
  Result, ok, err, Bool-cases, ◌⊎◌, inl, inr, all,
}
use wrix.Service.Drain.{
  Command, begin_command, quiesce_command, status_command, abort_command, release_command, Status,
  Response, Failure, rejected, unreleased, not_reopened, drained, is_draining, is_serving, Exchange,
  World, Session, Run, checked, checked_response, after_command, at_clock, sleep_round,
  quiescent_status, continue_with, drain_loop, settle, quiesce, reopened,
}

abbrev accepted_exchange : Command → Status → Exchange
accepted_exchange command status = (command, ok (record { accepted = true; status = status }))

abbrev is_release : Command → Bool
is_release begin_command = false
is_release quiesce_command = false
is_release status_command = false
is_release abort_command = false
is_release release_command = true

-- No release was sent.
abbrev pub IsHeld : List Exchange → Type 0
IsHeld sent = all (λ exchange. not (is_release exchange.0)) sent ≡ true

checked_response-ok :
    (command : Command) (r : Result Failure Response) {status : Status}
    → checked_response command r ≡ ok status
    → r ≡ ok (record { accepted = true; status = status })
checked_response-ok command (err e) h = cc
checked_response-ok command (ok response) {status} h = elim (Bool-cases response.accepted) [
  | inl e ↦
      let same : ◌≡◌ {A = Result Failure Status} (ok response.status) (ok status) = rw e at h in
      let equal : response.status ≡ status = cc in
      λ i. ok (record { accepted = e i; status = equal i })
  | inr e ↦
      let failed : ◌≡◌ {A = Result Failure Status} (err (rejected command)) (ok status) =
        rw e at h in
      absurd cc
]

module _ {S : Type 0} (world : World S) where
  -- The last exchange gave the status.
  abbrev IsReported : Status → Session S → Type 0
  IsReported status session =
      (command : Command) × (older : List Exchange) × (session.sent
        ≡ accepted_exchange command status ∷ older)

  -- The role accepted the command to quiesce with a drained status, after it reported a drained one.
  pub record IsQuiescent (status : Status) (session : Session S) : Type 0 where
    pub is_drained : drained status ≡ true
    pub reporter : Command
    pub reported : Status
    pub older : List Exchange
    pub reported_drained : drained reported ≡ true
    pub history :
        session.sent
        ≡ accepted_exchange quiesce_command status ∷ accepted_exchange reporter reported ∷ older

  -- The role accepted the abort, and serves again.
  pub record IsReopened (session : Session S) : Type 0 where
    pub status : Status
    pub older : List Exchange
    pub is_serving_again : is_serving status.phase ≡ true
    pub history : session.sent ≡ accepted_exchange abort_command status ∷ older

  -- What holds when the loop ends.
  abbrev IsDone : Result Failure Status × Session S → Type 0
  IsDone (err e, session) = IsHeld session.sent
  IsDone (ok status, session) = IsQuiescent status session × IsHeld session.sent

  -- The role is quiescent, or it serves again, or that it does not is the error.
  abbrev pub IsSettled : Result Failure Status × Session S → Type 0
  IsSettled (ok status, session) = IsQuiescent status session × IsHeld session.sent
  IsSettled (err e, session) =
      (IsReopened session ⊎ ((inner : Failure) × (e ≡ not_reopened inner))) × IsHeld session.sent

  abbrev AllRuns : (Result Failure Status × Session S → Type 0) → Run world → Type 0
  AllRuns P none = Unit {0}
  AllRuns P (some r) = P r

  quiescent_status-IsDone :
      (r : Result Failure Status) (session : Session S) (reporter : Command) (reported : Status)
      (older : List Exchange)
      → ((status : Status)
          → r ≡ ok status
          → session.sent
            ≡ accepted_exchange quiesce_command status
              ∷ accepted_exchange reporter reported
              ∷ older)
      → drained reported ≡ true
      → IsHeld session.sent
      → IsDone (quiescent_status world (r, session))
  quiescent_status-IsDone (err e) session reporter reported older said d held = held
  quiescent_status-IsDone (ok status) session reporter reported older said d held =
      elim (Bool-cases (drained status)) [
        | inl e ↦ rw e (
          record {
            is_drained = e;
            reporter = reporter;
            reported = reported;
            older = older;
            reported_drained = d;
            history = said status refl;
          },
          held,
        )
        | inr e ↦ rw e held
      ]

  continue-IsDone :
      (P : Result Failure Status × Session S → Type 0) (next : Status → Session S → Run world)
      (r : Result Failure Status) (session : Session S)
      → ((e : Failure) → P (err e, session))
      → ((status : Status) → r ≡ ok status → AllRuns P (next status session))
      → AllRuns P (continue_with world next (r, session))
  continue-IsDone P next (err e) session failed h = failed e
  continue-IsDone P next (ok status) session failed h = h status refl

  drain_loop-IsDone :
      (fuel budget : ℕ) (status : Status) (session : Session S)
      → IsReported status session
      → IsHeld session.sent
      → AllRuns IsDone (drain_loop world fuel budget status session)
  unfolding drain_loop checked sleep_round
  drain_loop-IsDone zero budget status session reported held = tt
  drain_loop-IsDone (suc fuel) budget status session (reporter, older, last) held =
      elim (Bool-cases (drained status)) [
        | inl e ↦
            let answer = world.answer session.state quiesce_command in
            rw e (
              quiescent_status-IsDone (checked_response quiesce_command answer)
                (after_command world quiesce_command session) reporter status older
                (λ next q.
                  let a = checked_response-ok quiesce_command answer q in
                  ap (λ x. (quiesce_command, x) ∷ session.sent) a
                  ∙ ap (λ h. accepted_exchange quiesce_command next ∷ h) last)
                e held)
        | inr e ↦ elim (Bool-cases (not (is_draining status.phase) || status.has_failed)) [
          | inl f ↦ rw (e, f) held
          | inr f ↦ elim (Bool-cases (leb budget (world.elapsed session.state))) [
            | inl g ↦ rw (e, f, g) held
            | inr g ↦
                let slept = sleep_round world budget (at_clock world session) in
                let answer = world.answer slept.state status_command in
                rw (e, f, g)
                  (continue-IsDone IsDone (drain_loop world fuel budget)
                    (checked_response status_command answer)
                    (after_command world status_command slept) (λ failure. held)
                    (λ next q.
                      drain_loop-IsDone fuel budget next (after_command world status_command slept)
                        (
                          status_command,
                          session.sent,
                          ap (λ x. (status_command, x) ∷ session.sent)
                              (checked_response-ok status_command answer q),
                        )
                        held))
          ]
        ]
      ]

  reopened-IsSettled :
      (failure : Failure) (r : Result Failure Status) (session : Session S) (older : List Exchange)
      → ((status : Status)
          → r ≡ ok status
          → session.sent ≡ accepted_exchange abort_command status ∷ older)
      → IsHeld session.sent
      → IsSettled (reopened world failure (r, session))
  reopened-IsSettled failure (err e) session older said held = (inr (e, refl), held)
  reopened-IsSettled failure (ok status) session older said held =
      elim (Bool-cases (is_serving status.phase)) [
        | inl e ↦ rw e (
          inl (record {
            status = status;
            older = older;
            is_serving_again = e;
            history = said status refl;
          }),
          held,
        )
        | inr e ↦ rw e (inr (unreleased, refl), held)
      ]

  settle-IsSettled : (run : Run world) → AllRuns IsDone run → AllRuns IsSettled (settle world run)
  unfolding checked
  settle-IsSettled none h = tt
  settle-IsSettled (some (ok status, session)) h = h
  settle-IsSettled (some (err e, session)) h =
      let answer = world.answer session.state abort_command in
      reopened-IsSettled e (checked_response abort_command answer)
        (after_command world abort_command session) session.sent
        (λ status q.
          ap (λ x. (abort_command, x) ∷ session.sent) (checked_response-ok abort_command answer q))
        h

  -- When `quiesce` returns a status, the role accepted the command to quiesce with that status, which
  -- is drained, right after it had reported a drained one; when it returns an error, the role accepted
  -- the abort last and serves again, or the error says that this is not so. No release is sent, when
  -- none was sent before.
  pub quiesce-IsSettled :
      (fuel budget : ℕ) (session after : Session S) (r : Result Failure Status)
      → IsHeld session.sent
      → quiesce world fuel budget session ≡ some (r, after)
      → IsSettled (r, after)
  unfolding quiesce checked
  quiesce-IsSettled fuel budget session after r held h =
      let answer = world.answer session.state begin_command in
      let started = after_command world begin_command session in
      let done =
        continue-IsDone IsDone (drain_loop world fuel budget)
          (checked_response begin_command answer) started (λ failure. held)
          (λ status q.
            drain_loop-IsDone fuel budget status started
              (
                begin_command,
                session.sent,
                ap (λ x. (begin_command, x) ∷ session.sent)
                    (checked_response-ok begin_command answer q),
              )
              held) in
      subst (AllRuns IsSettled) h (settle-IsSettled _ done)
