-- ===== src/Service/Pool/Replies.antt =====
-- What `inspect` and `delivery` of crates/wrix-service/src/control/pool/mod.rs tell of a job.
use wrix.Common.{◌≡◌, refl, ap, ◌∙◌, false, inl, inr, Option, none, some, Option-cases, ok, err}
use wrix.Common.Text.{Str}
use wrix.Common.Maps.{lookup, DistinctKeys}
use wrix.Service.Pool.{
  Status, pending, ready, failed, unknown, prepared_pool, prepared_execution, outcome_ready,
  outcome_failed, Joined, returned, panicked, Job, running, finished, Jobs, Threads, finish, Reply,
  pool_delivery, pool_preparation, status_of, job_status, delivery_reply, delivery, inspect,
}
use wrix.Service.Pool.Finish.{settle, settle_option, lookup-finish}

-- What a caller should hear of a thread, by what the thread has come to.
abbrev pub thread_status : Option Joined → Status
thread_status none = pending
thread_status (some (returned (ok value))) = ready
thread_status (some (returned (err error))) = failed
thread_status (some panicked) = failed

-- What a caller should hear of an id, by its entry before the call.
abbrev pub status_now : Threads → Option Job → Status
status_now threads none = unknown
status_now threads (some (running handle)) = thread_status (threads handle)
status_now threads (some (finished (outcome_ready value))) = ready
status_now threads (some (finished outcome_failed)) = failed

abbrev pub thread_delivery : Option Joined → Reply
thread_delivery none = pool_preparation pending
thread_delivery (some (returned (ok (prepared_execution name)))) = pool_delivery name
thread_delivery (some (returned (ok prepared_pool))) = pool_preparation unknown
thread_delivery (some (returned (err error))) = pool_preparation failed
thread_delivery (some panicked) = pool_preparation failed

-- What a caller should get for an id: the delivery of an execution, and else a status.
abbrev pub delivery_now : Threads → Option Job → Reply
delivery_now threads none = pool_preparation unknown
delivery_now threads (some (running handle)) = thread_delivery (threads handle)
delivery_now threads (some (finished (outcome_ready (prepared_execution name)))) =
    pool_delivery name
delivery_now threads (some (finished (outcome_ready prepared_pool))) = pool_preparation unknown
delivery_now threads (some (finished outcome_failed)) = pool_preparation failed

joined_status :
    (joined : Joined)
    → job_status (some (finished (status_of joined))) ≡ thread_status (some joined)
unfolding job_status status_of
joined_status (returned (ok value)) = refl
joined_status (returned (err error)) = refl
joined_status panicked = refl

job_status-settle :
    (threads : Threads) (entry : Option Job)
    → job_status (settle_option threads entry) ≡ status_now threads entry
unfolding job_status settle
job_status-settle threads none = refl
job_status-settle threads (some (finished (outcome_ready value))) = refl
job_status-settle threads (some (finished outcome_failed)) = refl
job_status-settle threads (some (running handle)) = elim (Option-cases (threads handle)) [
  | inl e ↦ rw e
  | inr (joined, e) ↦ rw e (joined_status joined)
]

joined_delivery :
    (joined : Joined)
    → delivery_reply (some (finished (status_of joined))) ≡ thread_delivery (some joined)
unfolding delivery_reply status_of
joined_delivery (returned (ok prepared_pool)) = refl
joined_delivery (returned (ok (prepared_execution name))) = refl
joined_delivery (returned (err error)) = refl
joined_delivery panicked = refl

delivery_reply-settle :
    (threads : Threads) (entry : Option Job)
    → delivery_reply (settle_option threads entry) ≡ delivery_now threads entry
unfolding delivery_reply settle
delivery_reply-settle threads none = refl
delivery_reply-settle threads (some (finished (outcome_ready prepared_pool))) = refl
delivery_reply-settle threads (some (finished (outcome_ready (prepared_execution name)))) = refl
delivery_reply-settle threads (some (finished outcome_failed)) = refl
delivery_reply-settle threads (some (running handle)) = elim (Option-cases (threads handle)) [
  | inl e ↦ rw e
  | inr (joined, e) ↦ rw e (joined_delivery joined)
]

-- In a queue with distinct ids whose lock is not poisoned, `inspect` and `delivery` join the threads
-- that ended and tell what the entry of the id before the call has come to: a thread that runs is
-- pending, one that failed or panicked has failed, and an id without a job is unknown; of a value,
-- `inspect` tells that it is ready, and `delivery` gives an execution's delivery and knows none of a
-- pool.
pub inspect-delivery_lem :
    (threads : Threads) (jobs : Jobs) (id : Str)
    → DistinctKeys jobs
    → (inspect false threads jobs id
        ≡ (finish threads jobs, ok (pool_preparation (status_now threads (lookup jobs id)))))
      × (delivery false threads jobs id
          ≡ (finish threads jobs, ok (delivery_now threads (lookup jobs id))))
unfolding inspect delivery
inspect-delivery_lem threads jobs id h =
    let settled = lookup-finish threads jobs id h in
    let status = ap job_status settled ∙ job_status-settle threads (lookup jobs id) in
    let reply = ap delivery_reply settled ∙ delivery_reply-settle threads (lookup jobs id) in
    (
      ap (λ s. (finish threads jobs, ok (pool_preparation s))) status,
      ap (λ r. (finish threads jobs, ok r)) reply,
    )
