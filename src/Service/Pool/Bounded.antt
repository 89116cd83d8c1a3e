-- ===== src/Service/Pool/Bounded.antt =====
-- The queue of crates/wrix-service/src/control/pool/mod.rs over any sequence of calls.
use wrix.Common.{
  suc, ◌≤◌, ◌≡◌, true, false, inl, inr, List, [], ◌∷◌, Option, none, some, arith, length, leb,
  Bool-cases, Option-cases,
}
use wrix.Common.Text.{Str}
use wrix.Common.Maps.{
  lookup, contains_key, remove_key, insert_key, DistinctKeys, contains-bound, remove-DistinctKeys,
  insert-DistinctKeys, retain-DistinctKeys, length-remove, length-remove_bound, length-retain,
  remove-remove,
}
use wrix.Service.Pool.{
  status_of, Job, running, finished, Jobs, Threads, join_job, finish_loop, finished_ids, finish,
  make_room, limit, is_running,
}

-- The keys are distinct and the jobs at most 128.
abbrev pub IsBounded : Jobs → Type 0
IsBounded jobs = DistinctKeys jobs × (length jobs ≤ limit)

join_job-DistinctKeys :
    (threads : Threads) (id : Str) (jobs : Jobs) (o : Option Job)
    → DistinctKeys jobs
    → DistinctKeys (join_job threads id jobs o)
unfolding join_job
join_job-DistinctKeys threads id jobs none h = h
join_job-DistinctKeys threads id jobs (some (finished outcome)) h = h
join_job-DistinctKeys threads id jobs (some (running handle)) h =
    elim (Option-cases (threads handle)) [
      | inl e ↦ rw e h
      | inr (joined, e) ↦ rw e (insert-DistinctKeys jobs id (finished (status_of joined)) h)
    ]

finish_loop-DistinctKeys :
    (threads : Threads) (ids : List Str) (jobs : Jobs)
    → DistinctKeys jobs
    → DistinctKeys (finish_loop threads ids jobs)
unfolding finish_loop
finish_loop-DistinctKeys threads [] jobs h = h
finish_loop-DistinctKeys threads (id ∷ ids) jobs h =
    let removed = remove-DistinctKeys jobs id h in
    finish_loop-DistinctKeys threads ids (join_job threads id (remove_key id jobs) (lookup jobs id))
      (join_job-DistinctKeys threads id (remove_key id jobs) (lookup jobs id) removed)

length-joined :
    (threads : Threads) (id : Str) (jobs : Jobs) (job : Job)
    → contains_key jobs id ≡ true
    → length (join_job threads id (remove_key id jobs) (some job)) ≤ length jobs
unfolding join_job
length-joined threads id jobs (finished outcome) h = length-remove jobs id
length-joined threads id jobs (running handle) h =
    let shorter = length-remove_bound jobs id h in
    let same : remove_key id (remove_key id jobs) ≡ remove_key id jobs = remove-remove jobs id in
    elim (Option-cases (threads handle)) [
      | inl e ↦ rw e (length-remove jobs id)
      | inr (joined, e) ↦ rw (e, same) shorter
    ]

length-join_job :
    (threads : Threads) (id : Str) (jobs : Jobs)
    → length (join_job threads id (remove_key id jobs) (lookup jobs id)) ≤ length jobs
unfolding join_job
length-join_job threads id jobs = elim (Option-cases (lookup jobs id)) [
  | inl e ↦ rw e (length-remove jobs id)
  | inr (job, e) ↦ rw e (length-joined threads id jobs job (contains-bound jobs id e))
]

length-finish_loop :
    (threads : Threads) (ids : List Str) (jobs : Jobs)
    → length (finish_loop threads ids jobs) ≤ length jobs
unfolding finish_loop
length-finish_loop threads [] jobs = omega arith
length-finish_loop threads (id ∷ ids) jobs = omega (
  arith,
  length-join_job threads id jobs,
  length-finish_loop threads ids (join_job threads id (remove_key id jobs) (lookup jobs id)),
)

pub finish-IsBounded :
    (threads : Threads) (jobs : Jobs) → IsBounded jobs → IsBounded (finish threads jobs)
unfolding finish
finish-IsBounded threads jobs (h, k) = (
  finish_loop-DistinctKeys threads (finished_ids threads jobs) jobs h,
  omega (arith, k, length-finish_loop threads (finished_ids threads jobs) jobs),
)

pub make_room-IsBounded : (jobs : Jobs) → IsBounded jobs → IsBounded (make_room jobs)
unfolding make_room
make_room-IsBounded jobs (h, k) =
    let kept = retain-DistinctKeys is_running jobs h in
    let short = length-retain is_running jobs in
    elim (Bool-cases (leb limit (length jobs))) [
      | inl e ↦ rw e (kept, omega (arith, short, k))
      | inr e ↦ rw e (h, k)
    ]

pub insert-IsBounded :
    (id : Str) (job : Job) (jobs : Jobs)
    → IsBounded jobs
    → leb limit (length jobs) ≡ false
    → IsBounded (insert_key id job jobs)
insert-IsBounded id job jobs (h, k) e =
    let short = length-remove jobs id in
    let room : suc (length jobs) ≤ limit = ground arith in
    (insert-DistinctKeys jobs id job h, omega (arith, short, room))
