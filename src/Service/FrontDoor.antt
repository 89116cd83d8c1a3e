-- ===== src/Service/FrontDoor.antt =====
-- `Selection` and `FrontDoor` of crates/wrix-service/src/route/mod.rs: which target a role's new
-- connections go to, how many each target has, and the rounds of `serve`. A target is its number, and
-- the connections of the tasks are the list of their targets. A task that ends drops its connection,
-- and it is joined before the capacity is next read, so the two are one event. Left out: the selection's
-- lock, which nothing that panics holds, and the errors of a socket or a task, which end `serve`.
pub mod Accounting
use wrix.Common.{
  ℕ, zero, suc, ◌+◌, ◌-◌, ◌%◌, Bool, true, false, not, ◌&&◌, List, [], ◌∷◌, Option, none, some,
  ◌==◌, ltb, leb, if◌then◌else◌, length, get_elem?, remove_at, Result, ok, err,
}
use wrix.Service.Route.{Role, index, set_slot, Error, capacity_exceeded}

abbrev pub max_connections : ℕ
max_connections = 1024

-- One more than the largest `usize`.
abbrev pub usize_mod : ℕ
usize_mod = 18446744073709551616

abbrev pub Selection : Type 0
Selection = Role → Option ℕ

-- `Target::connections` of every target.
abbrev pub Counts : Type 0
Counts = ℕ → ℕ

pub record FrontDoor : Type 0 where
  pub capacity : ℕ
  pub selection : Selection
  pub counts : Counts
  pub tasks : List ℕ

-- `fetch_add(1)` and `fetch_sub(1)`, which wrap.
unfoldable pub fetch_add : Counts → ℕ → Counts
fetch_add counts target other =
    if other == target then (counts other + 1) % usize_mod else counts other

unfoldable pub fetch_sub : Counts → ℕ → Counts
fetch_sub counts target other =
    if other == target then (counts other + (usize_mod - 1)) % usize_mod else counts other

-- `FrontDoor::new`: no role is selected.
unfoldable pub new_door : ℕ → Counts → Result Error FrontDoor
new_door capacity counts =
    if ltb max_connections capacity
    then err capacity_exceeded
    else ok (record { capacity = capacity; selection = λ role. none; counts = counts; tasks = [] })

unfoldable pub select : Role → ℕ → FrontDoor → FrontDoor
unfolding set_slot
select role target door = record door { selection = set_slot door.selection role (some target) }

unfoldable pub close : Role → FrontDoor → FrontDoor
unfolding set_slot
close role door = record door { selection = set_slot door.selection role none }

-- `Selection::admit`, and the task that holds the connection.
abbrev pub admit : FrontDoor → Option ℕ → FrontDoor
admit door none = door
admit door (some target) = record door {
  counts = fetch_add door.counts target;
  tasks = target ∷ door.tasks;
}

-- One accepted stream of `serve`: a guest's from outside the subnet, and one over the capacity, is
-- dropped.
unfoldable pub accept_stream : Role → Bool → Bool → FrontDoor → FrontDoor
unfolding fetch_add
accept_stream role guest accepts door =
    if guest && not accepts
    then door
    else if leb door.capacity (length door.tasks)
    then door
    else admit door (door.selection role)

abbrev pub drop_task : ℕ → Option ℕ → FrontDoor → FrontDoor
drop_task i none door = door
drop_task i (some target) door = record door {
  counts = fetch_sub door.counts target;
  tasks = remove_at i door.tasks;
}

-- The task at a place ends: its connection is dropped.
unfoldable pub finish_task : ℕ → FrontDoor → FrontDoor
unfolding fetch_sub
finish_task i door = drop_task i (get_elem? door.tasks i) door

-- What reaches a front door that serves.
pub data Event : Type 0 where
  stream_accepted : Role → Bool → Bool → Event
  task_finished : ℕ → Event
  role_selected : Role → ℕ → Event
  role_closed : Role → Event

unfoldable pub handle_event : Event → FrontDoor → FrontDoor
unfolding accept_stream finish_task select close
handle_event (stream_accepted role guest accepts) door = accept_stream role guest accepts door
handle_event (task_finished i) door = finish_task i door
handle_event (role_selected role target) door = select role target door
handle_event (role_closed role) door = close role door

unfoldable pub serve : List Event → FrontDoor → FrontDoor
unfolding handle_event
serve [] door = door
serve (event ∷ events) door = serve events (handle_event event door)
