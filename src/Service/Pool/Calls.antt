-- ===== src/Service/Pool/Calls.antt =====
-- The calls of the queue of crates/wrix-service/src/control/pool/mod.rs, and what every sequence of
-- them keeps.
use wrix.Common.{
  ℕ, ◌≡◌, refl, sym, subst, Bool, true, false, inl, inr, List, [], ◌∷◌, none, some, length, leb,
  Bool-cases, Result, ok, err,
}
use wrix.Common.Text.{Str, str_eq, str_eq_iff}
use wrix.Common.Maps.{
  lookup, contains_key, DistinctKeys, lookup-insert, lookup-contains, lookup-retain,
}
use wrix.Service.Pool.{
  Job, running, Jobs, Threads, Surroundings, finish, make_room, limit, environment, record_job,
  prepare_checked, spawn_job, admit_job, prepare_locked, prepare, delivery, inspect, check_host,
  Error, pool_queued, is_running,
}
use wrix.Service.Pool.Finish.{settle, lookup-finish}
use wrix.Service.Pool.Bounded.{IsBounded, finish-IsBounded, make_room-IsBounded, insert-IsBounded}

record_job-IsBounded :
    (jobs : Jobs) (id : Str) (outcome : Result Error ℕ)
    → IsBounded jobs
    → leb limit (length jobs) ≡ false
    → IsBounded (record_job jobs id outcome).0
record_job-IsBounded jobs id (err e) h k = h
record_job-IsBounded jobs id (ok handle) h k = insert-IsBounded id (running handle) jobs h k

admit_job-IsBounded :
    (host : Surroundings) (jobs : Jobs) (id : Str)
    → IsBounded jobs
    → IsBounded (admit_job host jobs id).0
unfolding admit_job spawn_job
admit_job-IsBounded host jobs id h = elim (Bool-cases (leb limit (length jobs))) [
  | inl e ↦ rw e h
  | inr e ↦ rw e (record_job-IsBounded jobs id (environment host) h e)
]

prepare_locked-IsBounded :
    (host : Surroundings) (threads : Threads) (jobs : Jobs) (id : Str)
    → IsBounded jobs
    → IsBounded (prepare_locked host threads jobs id).0
unfolding prepare_locked
prepare_locked-IsBounded host threads jobs id h =
    let room = make_room-IsBounded (finish threads jobs) (finish-IsBounded threads jobs h) in
    elim (Bool-cases (contains_key jobs id)) [
      | inl e ↦ rw e h
      | inr e ↦ rw e (admit_job-IsBounded host (make_room (finish threads jobs)) id room)
    ]

prepare_checked-IsBounded :
    (host : Surroundings) (threads : Threads) (jobs : Jobs) (id : Str)
    (checked : Result Error (Unit {0}))
    → IsBounded jobs
    → IsBounded (prepare_checked host threads jobs id checked).0
prepare_checked-IsBounded host threads jobs id (err e) h = h
prepare_checked-IsBounded host threads jobs id (ok u) h = elim (Bool-cases host.poisoned) [
  | inl e ↦ simp e h
  | inr e ↦ simp e (prepare_locked-IsBounded host threads jobs id h)
]

-- One call of the queue, with what the threads have come to when it runs.
pub data Call : Type 0 where
  call_prepare : Surroundings → Threads → Str → Call
  call_delivery : Bool → Threads → Str → Call
  call_inspect : Bool → Threads → Str → Call

unfoldable pub run_call : Call → Jobs → Jobs
unfolding prepare delivery inspect
run_call (call_prepare host threads id) jobs = (prepare host threads jobs id).0
run_call (call_delivery poisoned threads id) jobs = (delivery poisoned threads jobs id).0
run_call (call_inspect poisoned threads id) jobs = (inspect poisoned threads jobs id).0

unfoldable pub run_calls : List Call → Jobs → Jobs
unfolding run_call
run_calls [] jobs = jobs
run_calls (call ∷ calls) jobs = run_calls calls (run_call call jobs)

run_call-IsBounded : (call : Call) (jobs : Jobs) → IsBounded jobs → IsBounded (run_call call jobs)
unfolding run_call prepare delivery inspect
run_call-IsBounded (call_prepare host threads id) jobs h =
    prepare_checked-IsBounded host threads jobs id (check_host host) h
run_call-IsBounded (call_delivery poisoned threads id) jobs h = elim (Bool-cases poisoned) [
  | inl e ↦ rw e h
  | inr e ↦ rw e (finish-IsBounded threads jobs h)
]
run_call-IsBounded (call_inspect poisoned threads id) jobs h = elim (Bool-cases poisoned) [
  | inl e ↦ rw e h
  | inr e ↦ rw e (finish-IsBounded threads jobs h)
]

-- A queue with distinct ids and at most 128 jobs keeps both over every sequence of calls.
pub run_calls-IsBounded :
    (calls : List Call) (jobs : Jobs) → IsBounded jobs → IsBounded (run_calls calls jobs)
unfolding run_calls
run_calls-IsBounded [] jobs h = h
run_calls-IsBounded (call ∷ calls) jobs h =
    run_calls-IsBounded calls (run_call call jobs) (run_call-IsBounded call jobs h)

record_job-kept :
    (jobs : Jobs) (id i : Str) (outcome : Result Error ℕ) (job : Job)
    → str_eq id i ≡ false
    → lookup jobs i ≡ some job
    → lookup (record_job jobs id outcome).0 i ≡ some job
record_job-kept jobs id i (err e) job h k = k
record_job-kept jobs id i (ok handle) job h k = rw (lookup-insert jobs id (running handle) i, h, k)

make_room-kept :
    (jobs : Jobs) (i : Str) (handle : ℕ)
    → lookup jobs i ≡ some (running handle)
    → lookup (make_room jobs) i ≡ some (running handle)
unfolding make_room
make_room-kept jobs i handle h = elim (Bool-cases (leb limit (length jobs))) [
  | inl e ↦ rw e (lookup-retain is_running jobs i h refl)
  | inr e ↦ rw e h
]

finish-kept :
    (threads : Threads) (jobs : Jobs) (i : Str) (handle : ℕ)
    → DistinctKeys jobs
    → lookup jobs i ≡ some (running handle)
    → threads handle ≡ none
    → lookup (finish threads jobs) i ≡ some (running handle)
unfolding settle
finish-kept threads jobs i handle d h k = rw (lookup-finish threads jobs i d, h, settle, k)

lookup-holds :
    (jobs : Jobs) (id : Str) (job : Job) → lookup jobs id ≡ some job → contains_key jobs id ≡ true
lookup-holds jobs id job h = elim (Bool-cases (contains_key jobs id)) [
  | inl e ↦ e
  | inr e ↦ let absent = lookup-contains jobs id e in absurd cc
]

other_id :
    (jobs : Jobs) (id i : Str) (job : Job)
    → contains_key jobs id ≡ false
    → lookup jobs i ≡ some job
    → str_eq id i ≡ false
other_id jobs id i job h k = elim (Bool-cases (str_eq id i)) [
  | inl e ↦
      let absent =
        subst (λ j. lookup jobs j ≡ none) ((str_eq_iff id i).0 e) (lookup-contains jobs id h) in
      cc
  | inr e ↦ e
]

admit_job-kept :
    (host : Surroundings) (jobs : Jobs) (id i : Str) (job : Job)
    → str_eq id i ≡ false
    → lookup jobs i ≡ some job
    → lookup (admit_job host jobs id).0 i ≡ some job
unfolding admit_job spawn_job
admit_job-kept host jobs id i job h k = elim (Bool-cases (leb limit (length jobs))) [
  | inl e ↦ rw e k
  | inr e ↦ rw e (record_job-kept jobs id i (environment host) job h k)
]

prepare_locked-kept :
    (host : Surroundings) (threads : Threads) (jobs : Jobs) (id i : Str) (handle : ℕ)
    → DistinctKeys jobs
    → lookup jobs i ≡ some (running handle)
    → threads handle ≡ none
    → lookup (prepare_locked host threads jobs id).0 i ≡ some (running handle)
unfolding prepare_locked
prepare_locked-kept host threads jobs id i handle d h k =
    let room =
      make_room-kept (finish threads jobs) i handle (finish-kept threads jobs i handle d h k) in
    elim (Bool-cases (contains_key jobs id)) [
      | inl e ↦ rw e h
      | inr e ↦ rw e (
          admit_job-kept host (make_room (finish threads jobs)) id i (running handle)
            (other_id jobs id i (running handle) e h) room)
    ]

prepare_checked-kept :
    (host : Surroundings) (threads : Threads) (jobs : Jobs) (id i : Str) (handle : ℕ)
    (checked : Result Error (Unit {0}))
    → DistinctKeys jobs
    → lookup jobs i ≡ some (running handle)
    → threads handle ≡ none
    → lookup (prepare_checked host threads jobs id checked).0 i ≡ some (running handle)
prepare_checked-kept host threads jobs id i handle (err e) d h k = h
prepare_checked-kept host threads jobs id i handle (ok u) d h k = elim (Bool-cases host.poisoned) [
  | inl e ↦ simp e h
  | inr e ↦ simp e (prepare_locked-kept host threads jobs id i handle d h k)
]

-- What the threads have come to in a call.
abbrev pub threads_of : Call → Threads
threads_of (call_prepare host threads id) = threads
threads_of (call_delivery poisoned threads id) = threads
threads_of (call_inspect poisoned threads id) = threads

-- No call to a queue with distinct ids and at most 128 jobs drops or replaces a job whose thread
-- still runs, even when it makes room in a full queue.
pub running_job_kept :
    (call : Call) (jobs : Jobs) (i : Str) (handle : ℕ)
    → IsBounded jobs
    → lookup jobs i ≡ some (running handle)
    → threads_of call handle ≡ none
    → lookup (run_call call jobs) i ≡ some (running handle)
unfolding run_call prepare delivery inspect
running_job_kept (call_prepare host threads id) jobs i handle d h k =
    prepare_checked-kept host threads jobs id i handle (check_host host) d.0 h k
running_job_kept (call_delivery poisoned threads id) jobs i handle d h k =
    elim (Bool-cases poisoned) [
      | inl e ↦ rw e h
      | inr e ↦ rw e (finish-kept threads jobs i handle d.0 h k)
    ]
running_job_kept (call_inspect poisoned threads id) jobs i handle d h k =
    elim (Bool-cases poisoned) [
      | inl e ↦ rw e h
      | inr e ↦ rw e (finish-kept threads jobs i handle d.0 h k)
    ]

prepare_locked-held :
    (host : Surroundings) (threads : Threads) (jobs : Jobs) (id : Str)
    → contains_key jobs id ≡ true
    → prepare_locked host threads jobs id ≡ (jobs, ok (pool_queued id))
unfolding prepare_locked
prepare_locked-held host threads jobs id h = rw h

-- The thread of a handle runs still in each of the calls.
abbrev pub IsUnended : ℕ → List Call → Type 0
IsUnended handle [] = Unit {0}
IsUnended handle (call ∷ calls) = (threads_of call handle ≡ none) × IsUnended handle calls

running_job_stays :
    (calls : List Call) (jobs : Jobs) (i : Str) (handle : ℕ)
    → IsBounded jobs
    → lookup jobs i ≡ some (running handle)
    → IsUnended handle calls
    → lookup (run_calls calls jobs) i ≡ some (running handle)
unfolding run_calls
running_job_stays [] jobs i handle b h u = h
running_job_stays (call ∷ calls) jobs i handle b h (k, u) =
    running_job_stays calls (run_call call jobs) i handle (run_call-IsBounded call jobs b)
      (running_job_kept call jobs i handle b h k) u

-- While a job's thread runs, a retry of its id starts nothing: after every sequence of calls in each
-- of which the thread runs, from a queue with distinct ids and at most 128 jobs, the id still refers
-- to that thread, and `prepare` replies that it is queued and leaves the queue as it is, whatever the
-- environment says by then and whether or not the thread has ended since, when the host is the same
-- and the lock is not poisoned.
pub prepare_again :
    (calls : List Call) (later : Surroundings) (threads : Threads) (jobs : Jobs) (id : Str)
    (handle : ℕ)
    → IsBounded jobs
    → lookup jobs id ≡ some (running handle)
    → IsUnended handle calls
    → check_host later ≡ ok tt
    → later.poisoned ≡ false
    → (lookup (run_calls calls jobs) id ≡ some (running handle))
      × (prepare later threads (run_calls calls jobs) id
          ≡ (run_calls calls jobs, ok (pool_queued id)))
unfolding prepare
prepare_again calls later threads jobs id handle b h u c p =
    let after = run_calls calls jobs in
    let stays = running_job_stays calls jobs id handle b h u in
    let held = lookup-holds after id (running handle) stays in
    (
      stays,
      subst
          (λ checked. prepare_checked later threads after id checked ≡ (after, ok (pool_queued id)))
          (sym c) (simp (p, prepare_locked-held later threads after id held)),
    )
