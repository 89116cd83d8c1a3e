-- ===== src/Service/Pool/Finish.antt =====
-- `finish` of crates/wrix-service/src/control/pool/mod.rs, described by the lookups of the queue.
use wrix.Common.{
  ℕ, ◌≡◌, refl, subst, Bool, true, false, inl, inr, List, [], ◌∷◌, Option, none, some, arith,
  if◌then◌else◌, Bool-cases, Option-cases,
}
use wrix.Common.Text.{Str, str_eq, str_eq_refl, str_eq_iff}
use wrix.Common.Maps.{
  lookup, remove_key, DistinctKeys, lookup-insert, lookup-remove_other, lookup-contains,
}
use wrix.Service.Pool.{
  Joined, Job, running, finished, Jobs, Threads, has_ended, status_of, join_job, finished_ids,
  finish_loop, finish,
}

-- What a job is once the threads that ended are joined.
abbrev pub settle_joined : ℕ → Option Joined → Job
settle_joined handle none = running handle
settle_joined handle (some joined) = finished (status_of joined)

unfoldable pub settle : Threads → Job → Job
settle threads (running handle) = settle_joined handle (threads handle)
settle threads (finished outcome) = finished outcome

abbrev pub settle_option : Threads → Option Job → Option Job
settle_option threads none = none
settle_option threads (some job) = some (settle threads job)

abbrev pub ended_option : Threads → Option Job → Bool
ended_option threads none = false
ended_option threads (some job) = has_ended threads job

abbrev listed : List Str → Str → Bool
listed [] i = false
listed (id ∷ ids) i = if str_eq id i then true else listed ids i

-- The ids are distinct, and each names a job whose thread ended.
abbrev Joinable : Threads → List Str → Jobs → Type 0
Joinable threads [] jobs = Unit {0}
Joinable threads (id ∷ ids) jobs =
    (ended_option threads (lookup jobs id) ≡ true)
    × (listed ids id ≡ false)
    × Joinable threads ids jobs

unended-settle :
    (threads : Threads) (job : Job) → has_ended threads job ≡ false → settle threads job ≡ job
unfolding has_ended settle
unended-settle threads (running handle) h = elim (Option-cases (threads handle)) [
  | inl e ↦ rw e
  | inr (joined, e) ↦ let run : has_ended threads (running handle) ≡ true = rw e in cc
]
unended-settle threads (finished outcome) h = refl

unended-option :
    (threads : Threads) (o : Option Job)
    → ended_option threads o ≡ false
    → settle_option threads o ≡ o
unended-option threads none h = refl
unended-option threads (some job) h = rw (unended-settle threads job h)

join_job-ended :
    (threads : Threads) (jobs : Jobs) (id : Str) (o : Option Job)
    → ended_option threads o ≡ true
    → lookup (join_job threads id jobs o) id ≡ settle_option threads o
unfolding has_ended settle join_job
join_job-ended threads jobs id none h = cc
join_job-ended threads jobs id (some (finished outcome)) h = cc
join_job-ended threads jobs id (some (running handle)) h = elim (Option-cases (threads handle)) [
  | inl e ↦ let run : has_ended threads (running handle) ≡ false = rw e in cc
  | inr (joined, e) ↦ rw (e, str_eq_refl id)
]

join_job-other :
    (threads : Threads) (jobs : Jobs) (id i : Str) (o : Option Job)
    → str_eq id i ≡ false
    → lookup (join_job threads id (remove_key id jobs) o) i ≡ lookup jobs i
unfolding join_job
join_job-other threads jobs id i none h = lookup-remove_other jobs id i h
join_job-other threads jobs id i (some (finished outcome)) h = lookup-remove_other jobs id i h
join_job-other threads jobs id i (some (running handle)) h = elim (Option-cases (threads handle)) [
  | inl e ↦ rw (e, lookup-remove_other jobs id i h)
  | inr (joined, e) ↦
      let inserted = lookup-insert (remove_key id jobs) id (finished (status_of joined)) i in
      rw (e, inserted, h, lookup-remove_other jobs id i h)
]

listed-cons :
    (id : Str) (ids : List Str) (i : Str) → listed ids i ≡ true → listed (id ∷ ids) i ≡ true
listed-cons id ids i h = ground arith

listed-apart :
    (ids : List Str) (id i : Str)
    → listed ids id ≡ false
    → listed ids i ≡ true
    → str_eq id i ≡ false
listed-apart ids id i h k = elim (Bool-cases (str_eq id i)) [
  | inl e ↦
      let same = (str_eq_iff id i).0 e in
      let absent : listed ids i ≡ false = subst (λ j. listed ids j ≡ false) same h in cc
  | inr e ↦ e
]

Joinable-lookup :
    (threads : Threads) (ids : List Str) (jobs after : Jobs)
    → ((i : Str) → listed ids i ≡ true → lookup after i ≡ lookup jobs i)
    → Joinable threads ids jobs
    → Joinable threads ids after
Joinable-lookup threads [] jobs after same h = tt
Joinable-lookup threads (id ∷ ids) jobs after same (h, k, hs) =
    let head : lookup after id ≡ lookup jobs id = same id (rw (str_eq_refl id)) in
    let tail : (i : Str) → listed ids i ≡ true → lookup after i ≡ lookup jobs i =
      λ i l. same i (listed-cons id ids i l) in
    (rw (head, h), k, Joinable-lookup threads ids jobs after tail hs)

-- The loop settles the jobs it is given, and leaves the others.
lookup-finish_loop :
    (threads : Threads) (ids : List Str) (jobs : Jobs) (i : Str)
    → Joinable threads ids jobs
    → lookup (finish_loop threads ids jobs) i
      ≡ (if listed ids i then settle_option threads (lookup jobs i) else lookup jobs i)
unfolding finish_loop
lookup-finish_loop threads [] jobs i h = refl
lookup-finish_loop threads (id ∷ ids) jobs i (h, k, hs) =
    let after = join_job threads id (remove_key id jobs) (lookup jobs id) in
    let rest =
      Joinable-lookup threads ids jobs after
        (λ j l. join_job-other threads jobs id j (lookup jobs id) (listed-apart ids id j k l)) hs in
    let loop = lookup-finish_loop threads ids after i rest in
    elim (Bool-cases (str_eq id i)) [
      | inl e ↦
          let loop_id : lookup (finish_loop threads ids after) id
              ≡ settle_option threads (lookup jobs id) =
            rw (
              lookup-finish_loop threads ids after id rest,
              k,
              join_job-ended threads (remove_key id jobs) id (lookup jobs id) h,
            ) in
          let loop_i =
            subst
              (λ j.
                lookup (finish_loop threads ids after) j ≡ settle_option threads (lookup jobs j))
              ((str_eq_iff id i).0 e) loop_id in
          rw (e, loop_i)
      | inr e ↦ rw (e, loop, join_job-other threads jobs id i (lookup jobs id) e)
    ]

-- The ids collected are those of the jobs whose thread ended.
listed-finished_ids :
    (threads : Threads) (jobs : Jobs) (i : Str)
    → DistinctKeys jobs
    → listed (finished_ids threads jobs) i ≡ ended_option threads (lookup jobs i)
unfolding finished_ids
listed-finished_ids threads [] i h = refl
listed-finished_ids threads ((id, job) ∷ jobs) i (h, hs) =
    let rest = listed-finished_ids threads jobs i hs in
    elim (Bool-cases (str_eq id i)) [
      | inl e ↦
          let none_left : lookup jobs i ≡ none =
            subst (λ j. lookup jobs j ≡ none) ((str_eq_iff id i).0 e) (lookup-contains jobs id h) in
          ground (arith, rest, none_left)
      | inr e ↦ ground (arith, rest)
    ]

finished_ids-Joinable :
    (threads : Threads) (jobs : Jobs)
    → DistinctKeys jobs
    → Joinable threads (finished_ids threads jobs) jobs
unfolding finished_ids
finished_ids-Joinable threads [] h = tt
finished_ids-Joinable threads ((id, job) ∷ jobs) (h, hs) =
    let absent : listed (finished_ids threads jobs) id ≡ false =
      rw (listed-finished_ids threads jobs id hs, lookup-contains jobs id h) in
    let rest =
      Joinable-lookup threads (finished_ids threads jobs) jobs ((id, job) ∷ jobs)
        (λ i l. rw (listed-apart (finished_ids threads jobs) id i absent l))
        (finished_ids-Joinable threads jobs hs) in
    elim (Bool-cases (has_ended threads job)) [
      | inl e ↦ rw e ((rw (str_eq_refl id, e)), absent, rest)
      | inr e ↦ rw e rest
    ]

-- In a queue with distinct ids, `finish` settles every job: a job whose thread ended becomes its
-- result, and nothing else changes.
pub lookup-finish :
    (threads : Threads) (jobs : Jobs) (i : Str)
    → DistinctKeys jobs
    → lookup (finish threads jobs) i ≡ settle_option threads (lookup jobs i)
unfolding finish
lookup-finish threads jobs i h =
    let loop =
      lookup-finish_loop threads (finished_ids threads jobs) jobs i
        (finished_ids-Joinable threads jobs h) in
    let ended = listed-finished_ids threads jobs i h in
    elim (Bool-cases (ended_option threads (lookup jobs i))) [
      | inl e ↦ rw (loop, ended, e)
      | inr e ↦ rw (loop, ended, e, unended-option threads (lookup jobs i) e)
    ]
