-- ===== src/Service/Tests.antt =====
-- The shared service on concrete inputs.
use wrix.Common.{
  ℕ, zero, suc, ◌<◌, ◌≡◌, ◌≢◌, ◌↔◌, map, refl, sym, ap, Bool, true, false, List, [], ◌∷◌, Option,
  none, some, arith, Result, ok, err, ok-injective,
}
use wrix.Common.Text.{Str, codes}
use wrix.Common.Maps.{lookup}
use wrix.Service.Pool
use wrix.Service.Pool.{
  Job, running, finished, outcome_failed, Jobs, Joined, panicked, Threads, Surroundings, finish,
  prepare, inspect, delivery, Reply, pool_queued, pool_preparation, job_status, pending, failed,
}
use wrix.Service.Pool.Finish.{settle_option, lookup-finish}
use wrix.Service.Pool.Bounded.{IsBounded}
use wrix.Service.Pool.Calls.{
  call_prepare, call_inspect, run_call, run_calls, run_calls-IsBounded, running_job_kept, Call,
  prepare_again,
}
use wrix.Service.Pool.Replies.{inspect-delivery_lem}
use wrix.Service.Supervisor
use wrix.Service.Supervisor.{
  Record, Intent, active, retired, Epoch, serving, clean, Owner, Opening, Metadata, saved,
  not_found, open_owner,
}
use wrix.Service.Supervisor.Epochs.{
  Operation, op_begin, op_intend, run_operation, run_operations, healthy, unclean_never_opens,
  finished_opens,
}
use wrix.Service.Route.{Role, sql, Fault, Listeners, listener_of, bind_deployment}
use wrix.Service.Route.Retained.{retained_not_relocated}
use wrix.Service.FrontDoor.{FrontDoor, stream_accepted, task_finished, serve}
use wrix.Service.FrontDoor.Accounting.{IsAccounted, serve-IsAccounted}
use wrix.Service.Policy.{
  Host, Rule, to_lowercase, parse_host, new_rule, try_from_raw, from_rule, permits,
}
use wrix.Service.Policy.Hosts.{Grants, parse_host-text, permits_iff}

abbrev id_a : Str
id_a = codes "a"

abbrev id_b : Str
id_b = codes "b"

-- The first thread panicked, the others still run.
abbrev first_panicked : Threads
first_panicked zero = some panicked
first_panicked (suc handle) = none

abbrev host : Surroundings
host = record {
  state_root = ok (codes "/s");
  local_address = ok (some (codes "/s/control/authority/control.sock"));
  poisoned = false;
  candidate = ok tt;
  tools = ok tt;
  spawned = ok 7;
}

abbrev two_jobs : Jobs
two_jobs = (id_a, running 0) ∷ (id_b, running 1) ∷ []

two_jobs-IsBounded : IsBounded two_jobs
two_jobs-IsBounded = ((refl, (refl, tt)), omega arith)

lookup-finish_example :
    lookup (finish first_panicked two_jobs) id_a ≡ settle_option first_panicked (some (running 0))
lookup-finish_example = lookup-finish first_panicked two_jobs id_a (refl, (refl, tt))

run_calls-IsBounded_example : IsBounded (
    run_calls
      (call_prepare host first_panicked (codes "c") ∷ call_inspect false first_panicked id_a ∷ [])
      two_jobs)
run_calls-IsBounded_example =
    run_calls-IsBounded
      (call_prepare host first_panicked (codes "c") ∷ call_inspect false first_panicked id_a ∷ [])
      two_jobs two_jobs-IsBounded

running_job_kept_example :
    lookup (run_call (call_prepare host first_panicked (codes "c")) two_jobs) id_b
    ≡ some (running 1)
running_job_kept_example =
    running_job_kept (call_prepare host first_panicked (codes "c")) two_jobs id_b 1
      two_jobs-IsBounded refl refl

host-checked : Pool.check_host host ≡ ok tt
unfolding Pool.check_host
host-checked = refl

abbrev later_calls : List Call
later_calls = call_inspect false first_panicked id_a ∷ call_prepare host first_panicked id_a ∷ []

prepare_again_example :
    (lookup (run_calls later_calls two_jobs) id_b ≡ some (running 1))
    × (prepare host first_panicked (run_calls later_calls two_jobs) id_b
        ≡ (run_calls later_calls two_jobs, ok (pool_queued id_b)))
prepare_again_example =
    prepare_again later_calls host first_panicked two_jobs id_b 1 two_jobs-IsBounded refl
      (refl, (refl, tt)) host-checked refl

abbrev numbered_jobs : ℕ → Jobs
numbered_jobs zero = []
numbered_jobs (suc n) = (n ∷ [], finished outcome_failed) ∷ numbered_jobs n

-- A full queue forgets the jobs that ended, and a retry of one of them starts another thread.
restarted :
    prepare host first_panicked
      (prepare host first_panicked (numbered_jobs 128) (codes "new")).0
      (5 ∷ [])
    ≡ ((5 ∷ [], running 7) ∷ (codes "new", running 7) ∷ [], ok (pool_queued (5 ∷ [])))
unfolding prepare Pool.check_host Pool.prepare_locked Pool.admit_job Pool.spawn_job Pool.environment
    Pool.make_room Pool.finish Pool.finished_ids Pool.finish_loop Pool.has_ended
restarted = refl

inspect-delivery_lem_example :
    (inspect false first_panicked two_jobs id_a
      ≡ (finish first_panicked two_jobs, ok (pool_preparation failed)))
    × (delivery false first_panicked two_jobs id_a
        ≡ (finish first_panicked two_jobs, ok (pool_preparation failed)))
inspect-delivery_lem_example = inspect-delivery_lem first_panicked two_jobs id_a (refl, (refl, tt))

-- A stand-in for JSON: a record as its numbers, then its namespace.
abbrev of_intent : Intent → ℕ
of_intent active = 0
of_intent retired = 1

abbrev of_epoch : Epoch → ℕ
of_epoch serving = 0
of_epoch clean = 1

abbrev to_intent : ℕ → Intent
to_intent zero = active
to_intent (suc n) = retired

abbrev to_epoch : ℕ → Epoch
to_epoch zero = serving
to_epoch (suc n) = clean

abbrev encode : Record → Str
encode r = r.version ∷ of_intent r.intent ∷ of_epoch r.epoch ∷ r.namespace

abbrev decode : Str → Result Str Record
decode (v ∷ i ∷ e ∷ name) =
    ok (record { version = v; namespace = name; intent = to_intent i; epoch = to_epoch e })
decode s = err s

intent-round_trip : (i : Intent) → to_intent (of_intent i) ≡ i
intent-round_trip active = refl
intent-round_trip retired = refl

epoch-round_trip : (e : Epoch) → to_epoch (of_epoch e) ≡ e
epoch-round_trip serving = refl
epoch-round_trip clean = refl

decode-encode : (r : Record) → decode (encode r) ≡ ok r
decode-encode r = rw (intent-round_trip r.intent, epoch-round_trip r.epoch)

abbrev fresh : Owner
fresh = record {
  owner_uid = 1000;
  state = record { version = 1; namespace = codes "ns"; intent = active; epoch = clean };
}

abbrev retire : List Operation
retire = op_intend retired saved ∷ []

unclean_never_opens_example :
    open_owner encode decode
      (healthy 1000)
      (run_operations encode decode retire
        (run_operation encode decode (op_begin saved) (fresh, not_found))).1
      (codes "ns")
    ≢ ok fresh
unclean_never_opens_example =
    unclean_never_opens encode decode decode-encode saved fresh not_found retire (healthy 1000)
      (codes "ns") fresh tt

finished_opens_example :
    open_owner encode decode
      (healthy 1000)
      (Supervisor.finish encode decode saved fresh not_found).1.0
      (codes "ns")
    ≡ ok (Supervisor.with_epoch encode decode clean fresh)
finished_opens_example =
    finished_opens encode decode decode-encode fresh not_found refl (omega arith)

-- A system whose ports are all free.
abbrev free_port : Unit {0} → ℕ → Unit {0} × Result Fault ℕ
free_port w port = (tt, ok port)

free_port-fixed :
    (w next : Unit {0}) (port listener : ℕ)
    → 0 < port
    → free_port w port ≡ (next, ok listener)
    → listener ≡ port
free_port-fixed w next port listener pos h =
    let same : ◌≡◌ {A = Result Fault ℕ} (ok port) (ok listener) = ap (λ p. p.1) h in
    sym (ok-injective {E = Fault} same)

abbrev prior : Role → Option ℕ
prior sql = some 23500
prior role = none

abbrev retained : Role → Bool
retained sql = true
retained role = false

abbrev bound : Listeners
bound = record {
  sql_listener = 23500;
  cache_listener = 21000;
  egress_listener = 0;
  compiler_listener = 0;
  sync_listener = 23000;
}

bound-deployment : bind_deployment free_port prior retained tt ≡ (tt, ok bound)
unfolding bind_deployment
bound-deployment = refl

retained_not_relocated_example : listener_of bound sql ≡ 23500
retained_not_relocated_example =
    retained_not_relocated free_port free_port-fixed prior retained sql 23500 (omega arith) refl
      refl tt tt bound bound-deployment

abbrev door : FrontDoor
door = record { capacity = 1; selection = λ role. some 3; counts = λ target. 0; tasks = [] }

serve-IsAccounted_example : IsAccounted (
    serve
      (stream_accepted sql false false ∷ stream_accepted sql false false ∷ task_finished 0 ∷ [])
      door)
serve-IsAccounted_example =
    serve-IsAccounted
      (stream_accepted sql false false ∷ stream_accepted sql false false ∷ task_finished 0 ∷ [])
      door (λ target. refl, (omega arith, omega arith))

-- No text is an address.
abbrev no_address : Str → Option ℕ
no_address s = none

abbrev example_host : Host
example_host = record { text = codes "a.io" }

parsed : parse_host no_address (codes "A.io") ≡ ok example_host
unfolding parse_host
parsed = refl

parse_host-text_example :
    (example_host.text ≡ map to_lowercase (codes "A.io"))
    × (parse_host no_address example_host.text ≡ ok example_host)
parse_host-text_example = parse_host-text no_address (codes "A.io") example_host parsed

abbrev web : Rule
web = record { host = example_host; ports = 80 ∷ 443 ∷ [] }

permits_iff_example :
    (permits (web ∷ []) example_host 443 ≡ true) ↔ Grants (web ∷ []) example_host 443
permits_iff_example = permits_iff (web ∷ []) example_host 443

accepted_rule : new_rule example_host (80 ∷ 443 ∷ []) ≡ ok web
unfolding new_rule
accepted_rule = refl

read_back : try_from_raw (from_rule web) ≡ ok web
unfolding try_from_raw from_rule new_rule
read_back = refl
