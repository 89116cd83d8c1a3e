-- ===== src/Service/Pool.antt =====
-- crates/wrix-service/src/control/pool/mod.rs: the bounded queue of preparation jobs.
-- A thread is the number of its handle, and what the threads have come to at one moment is an
-- argument: no value for a thread that still runs, and the result of `join` for one that ended. The
-- threads, the host's discovery and the environment are the arguments of a call; the work a job's
-- closure does belongs to the components that it calls.
pub mod Finish
pub mod Bounded
pub mod Calls
pub mod Replies
use wrix.Common.{
  ℕ, Bool, true, false, not, List, [], ◌∷◌, ◌++◌, Option, none, some, leb, if◌then◌else◌, length,
  Result, ok, err, ◌>>=◌, ◌>>◌, guard,
}
use wrix.Common.Text.{Str, str_eq, codes}
use wrix.Common.Maps.{lookup, contains_key, remove_key, insert_key, retain}

abbrev pub limit : ℕ
limit = 128

pub data Status : Type 0 where
  pending : Status
  ready : Status
  failed : Status
  unknown : Status

pub data Prepared : Type 0 where
  prepared_pool : Prepared
  prepared_execution : Str → Prepared

pub data Outcome : Type 0 where
  outcome_ready : Prepared → Outcome
  outcome_failed : Outcome

pub data Job : Type 0 where
  running : ℕ → Job
  finished : Outcome → Job

-- The errors of a call, with the text of those of the system.
pub data Error : Type 0 where
  io_error : Str → Error
  private_root : Error
  lock_poisoned : Error
  backend_error : Str → Error

pub data Reply : Type 0 where
  pool_queued : Str → Reply
  capacity : Reply
  pool_delivery : Str → Reply
  pool_preparation : Status → Reply

-- What `join` gives: the closure's result, or a panic.
pub data Joined : Type 0 where
  returned : Result Str Prepared → Joined
  panicked : Joined

abbrev pub Jobs : Type 0
Jobs = List (Str × Job)

-- `handle.is_finished()` and `handle.join()`, at one moment.
abbrev pub Threads : Type 0
Threads = ℕ → Option Joined

-- What a call to `prepare` finds outside the queue, in the order it asks for it.
pub record Surroundings : Type 0 where
  pub state_root : Result Str Str
  pub local_address : Result Str (Option Str)
  pub poisoned : Bool
  pub candidate : Result Str (Unit {0})
  pub tools : Result Str (Unit {0})
  pub spawned : Result Str ℕ

abbrev pub is_running : Job → Bool
is_running (running handle) = true
is_running (finished outcome) = false

unfoldable pub status_of : Joined → Outcome
status_of (returned (ok prepared)) = outcome_ready prepared
status_of (returned (err error)) = outcome_failed
status_of panicked = outcome_failed

abbrev pub is_finished : Option Joined → Bool
is_finished none = false
is_finished (some joined) = true

unfoldable pub has_ended : Threads → Job → Bool
has_ended threads (running handle) = is_finished (threads handle)
has_ended threads (finished outcome) = false

-- The ids that `finish` collects.
unfoldable pub finished_ids : Threads → Jobs → List Str
finished_ids threads [] = []
finished_ids threads ((id, job) ∷ jobs) =
    let rest = finished_ids threads jobs in if has_ended threads job then id ∷ rest else rest

abbrev pub insert_joined : Str → Jobs → Option Joined → Jobs
insert_joined id jobs none = jobs
insert_joined id jobs (some joined) = insert_key id (finished (status_of joined)) jobs

-- One round of the loop of `finish`: the job is taken out, and a thread's is put back joined. `join`
-- waits for a thread that still runs, and the loop reaches none.
unfoldable pub join_job : Threads → Str → Jobs → Option Job → Jobs
join_job threads id jobs (some (running handle)) = insert_joined id jobs (threads handle)
join_job threads id jobs (some (finished outcome)) = jobs
join_job threads id jobs none = jobs

unfoldable pub finish_loop : Threads → List Str → Jobs → Jobs
unfolding join_job
finish_loop threads [] jobs = jobs
finish_loop threads (id ∷ ids) jobs =
    finish_loop threads ids (join_job threads id (remove_key id jobs) (lookup jobs id))

unfoldable pub finish : Threads → Jobs → Jobs
unfolding finished_ids finish_loop
finish threads jobs = finish_loop threads (finished_ids threads jobs) jobs

-- `jobs.retain` when the queue is full.
unfoldable pub make_room : Jobs → Jobs
make_room jobs = if leb limit (length jobs) then retain is_running jobs else jobs

abbrev pub io_failure {ℓ} : {A : Type ℓ} → Result Str A → Result Error A
io_failure (ok a) = ok a
io_failure (err e) = err (io_error e)

abbrev pub backend_failure {ℓ} : {A : Type ℓ} → Result Str A → Result Error A
backend_failure (ok a) = ok a
backend_failure (err e) = err (backend_error e)

abbrev pub is_socket : Str → Option Str → Bool
is_socket path none = false
is_socket path (some other) = str_eq other path

-- `host.roots().state().join("control/authority").join("control.sock")`.
abbrev pub control_sock : Str → Str
control_sock root = root ++ codes "/control/authority/control.sock"

-- The checks before the queue is locked.
unfoldable pub check_host : Surroundings → Result Error (Unit {0})
check_host host = io_failure host.state_root >>= λ root.
    io_failure host.local_address >>= λ address.
    guard (is_socket (control_sock root) address) private_root

-- What a job's closure needs is read from the environment, then its thread starts.
unfoldable pub environment : Surroundings → Result Error ℕ
environment host =
    backend_failure host.candidate >> backend_failure host.tools >> io_failure host.spawned

-- The job of a thread that started.
abbrev pub record_job : Jobs → Str → Result Error ℕ → Jobs × Result Error Reply
record_job jobs id (err e) = (jobs, err e)
record_job jobs id (ok handle) = (insert_key id (running handle) jobs, ok (pool_queued id))

unfoldable pub spawn_job : Surroundings → Jobs → Str → Jobs × Result Error Reply
unfolding environment
spawn_job host jobs id = record_job jobs id (environment host)

unfoldable pub admit_job : Surroundings → Jobs → Str → Jobs × Result Error Reply
unfolding spawn_job
admit_job host jobs id =
    if leb limit (length jobs) then (jobs, ok capacity) else spawn_job host jobs id

unfoldable pub prepare_locked : Surroundings → Threads → Jobs → Str → Jobs × Result Error Reply
unfolding admit_job
prepare_locked host threads jobs id =
    if contains_key jobs id
    then (jobs, ok (pool_queued id))
    else admit_job host (make_room (finish threads jobs)) id

-- The queue, once its lock is asked for.
abbrev pub prepare_checked :
    Surroundings → Threads → Jobs → Str → Result Error (Unit {0}) → Jobs × Result Error Reply
prepare_checked host threads jobs id (err e) = (jobs, err e)
prepare_checked host threads jobs id (ok checked) =
    if host.poisoned then (jobs, err lock_poisoned) else prepare_locked host threads jobs id

unfoldable pub prepare : Surroundings → Threads → Jobs → Str → Jobs × Result Error Reply
unfolding check_host prepare_locked
prepare host threads jobs id = prepare_checked host threads jobs id (check_host host)

unfoldable pub delivery_reply : Option Job → Reply
delivery_reply (some (finished (outcome_ready (prepared_execution delivery)))) =
    pool_delivery delivery
delivery_reply (some (finished (outcome_ready prepared_pool))) = pool_preparation unknown
delivery_reply (some (running handle)) = pool_preparation pending
delivery_reply (some (finished outcome_failed)) = pool_preparation failed
delivery_reply none = pool_preparation unknown

unfoldable pub delivery : Bool → Threads → Jobs → Str → Jobs × Result Error Reply
unfolding finish delivery_reply
delivery is_poisoned threads jobs id =
    if is_poisoned
    then (jobs, err lock_poisoned)
    else let after = finish threads jobs in (after, ok (delivery_reply (lookup after id)))

unfoldable pub job_status : Option Job → Status
job_status (some (running handle)) = pending
job_status (some (finished (outcome_ready prepared))) = ready
job_status (some (finished outcome_failed)) = failed
job_status none = unknown

unfoldable pub inspect : Bool → Threads → Jobs → Str → Jobs × Result Error Reply
unfolding finish job_status
inspect is_poisoned threads jobs id =
    if is_poisoned
    then (jobs, err lock_poisoned)
    else let after = finish threads jobs in
      (after, ok (pool_preparation (job_status (lookup after id))))
