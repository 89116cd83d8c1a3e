-- ===== src/Service/FrontDoor/Accounting.antt =====
-- The accounting of crates/wrix-service/src/route/mod.rs: the number a target reports is that of its
-- connections, whatever the events.
use wrix.Common.{
  remove_at, ℕ, zero, suc, ◌-◌, ◌≤◌, ◌<◌, ◌≡◌, refl, ◌∙◌, Bool, not, ◌&&◌, inl, inr, List, [], ◌∷◌,
  Option, none, some, arith, ◌==◌, leb, if◌then◌else◌, length, get_elem?, Bool-cases,
}
use wrix.Service.Route.{Role}
use wrix.Service.FrontDoor.{
  FrontDoor, Counts, usize_mod, max_connections, fetch_add, fetch_sub, select, close, admit,
  accept_stream, drop_task, finish_task, Event, stream_accepted, task_finished, role_selected,
  role_closed, handle_event, serve,
}

-- How many of the tasks hold a connection to a target.
abbrev pub connections_to : ℕ → List ℕ → ℕ
connections_to target [] = 0
connections_to target (t ∷ ts) =
    let rest = connections_to target ts in if target == t then suc rest else rest

-- Every count is the number of tasks of the target, and the tasks are within the capacity, which is at
-- most 1024.
abbrev pub IsAccounted : FrontDoor → Type 0
IsAccounted door =
    ((target : ℕ) → door.counts target ≡ connections_to target door.tasks)
    × ((length door.tasks ≤ door.capacity) × (door.capacity ≤ max_connections))

connections_to-bound : (target : ℕ) (ts : List ℕ) → connections_to target ts ≤ length ts
connections_to-bound target [] = omega arith
connections_to-bound target (t ∷ ts) = ground (arith, connections_to-bound target ts)

length-remove_at : (i : ℕ) (ts : List ℕ) → length (remove_at i ts) ≤ length ts
length-remove_at i [] = omega arith
length-remove_at zero (t ∷ ts) = omega arith
length-remove_at (suc i) (t ∷ ts) = omega (arith, length-remove_at i ts)

-- Removing a task takes one from its target, and nothing from the others.
connections_to-remove_at :
    (i : ℕ) (ts : List ℕ) (t target : ℕ)
    → get_elem? ts i ≡ some t
    → connections_to target ts ≡ (
        if target == t
        then suc (connections_to target (remove_at i ts))
        else connections_to target (remove_at i ts))
connections_to-remove_at i [] t target h = cc
connections_to-remove_at zero (u ∷ ts) t target h = let same : u ≡ t = cc in rw same
connections_to-remove_at (suc i) (u ∷ ts) t target h =
    ground (arith, connections_to-remove_at i ts t target h)

add-exact :
    (counts : Counts) (t target n : ℕ)
    → counts target ≡ n
    → n < usize_mod - 1
    → fetch_add counts t target ≡ (if target == t then suc n else n)
unfolding fetch_add
add-exact counts t target n h k = ground arith

sub-exact :
    (counts : Counts) (t target n : ℕ)
    → counts target ≡ (if target == t then suc n else n)
    → n < usize_mod - 1
    → fetch_sub counts t target ≡ n
unfolding fetch_sub
sub-exact counts t target n h k = ground arith

admit-IsAccounted :
    (door : FrontDoor) (selected : Option ℕ)
    → IsAccounted door
    → length door.tasks < door.capacity
    → IsAccounted (admit door selected)
admit-IsAccounted door none h room = h
admit-IsAccounted door (some t) (counted, (tasks, ceiling)) room = (
  λ target.
      let bound = connections_to-bound target door.tasks in
      add-exact door.counts t target (connections_to target door.tasks) (counted target)
        (omega arith),
  (room, ceiling),
)

accept_stream-IsAccounted :
    (role : Role) (guest accepts : Bool) (door : FrontDoor)
    → IsAccounted door
    → IsAccounted (accept_stream role guest accepts door)
unfolding accept_stream
accept_stream-IsAccounted role guest accepts door h = elim (Bool-cases (guest && not accepts)) [
  | inl e ↦ simp e h
  | inr e ↦ elim (Bool-cases (leb door.capacity (length door.tasks))) [
    | inl f ↦ simp (e, f) h
    | inr f ↦
        let room : length door.tasks < door.capacity = ground arith in
        simp (e, f) (admit-IsAccounted door (door.selection role) h room)
  ]
]

drop_task-IsAccounted :
    (i : ℕ) (o : Option ℕ) (door : FrontDoor)
    → get_elem? door.tasks i ≡ o
    → IsAccounted door
    → IsAccounted (drop_task i o door)
drop_task-IsAccounted i none door e h = h
drop_task-IsAccounted i (some t) door e (counted, (tasks, ceiling)) =
    let shorter = length-remove_at i door.tasks in
    (
      λ target.
          let bound = connections_to-bound target (remove_at i door.tasks) in
          let counts = counted target ∙ connections_to-remove_at i door.tasks t target e in
          sub-exact door.counts t target (connections_to target (remove_at i door.tasks)) counts
            (omega arith),
      (omega arith, ceiling),
    )

handle_event-IsAccounted :
    (event : Event) (door : FrontDoor) → IsAccounted door → IsAccounted (handle_event event door)
unfolding handle_event finish_task select close
handle_event-IsAccounted (stream_accepted role guest accepts) door h =
    accept_stream-IsAccounted role guest accepts door h
handle_event-IsAccounted (task_finished i) door h =
    drop_task-IsAccounted i (get_elem? door.tasks i) door refl h
handle_event-IsAccounted (role_selected role target) door h = h
handle_event-IsAccounted (role_closed role) door h = h

-- A front door that is accounted for stays so over every sequence of events: the count of each target
-- is exactly the number of tasks that hold a connection to it, never wrapping, and the tasks never
-- exceed the capacity.
pub serve-IsAccounted :
    (events : List Event) (door : FrontDoor) → IsAccounted door → IsAccounted (serve events door)
unfolding serve
serve-IsAccounted [] door h = h
serve-IsAccounted (event ∷ events) door h =
    serve-IsAccounted events (handle_event event door) (handle_event-IsAccounted event door h)
