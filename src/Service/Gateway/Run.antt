-- ===== src/Service/Gateway/Run.antt =====
-- The loop of crates/wrix-service/src/gateway/mod.rs (`run_network`), as a sequence of events: the
-- two listeners accept, private connections are read, requests arrive and their dials end, and
-- tasks end. Each event is what one task does between two waits. `log` is the history of a run, the
-- latest entry first: what the gateway has attached, activated, revoked, and connected to. Left
-- out: the limit of the private connections, and the end of the loop by shutdown, by an error of a
-- listener, or by a poisoned lock when a connection is accepted, after which all tasks are aborted.
pub mod History
pub use History.*
use wrix.Common.{
  ℕ, suc, ◌-◌, Bool, true, false, not, ◌||◌, List, [], ◌∷◌, ◌++◌, Option, none, some, ◌==◌, ltb,
  if◌then◌else◌, get_elem?, set_at, remove_at, Result, ok, err,
}
use wrix.Common.Text.{Str, str_eq}
use wrix.Service.Policy.{Host, Rule}
use wrix.Service.Policy.Baseline.{Address}
use wrix.Service.Gateway.{Error, State, contains_secret}
use wrix.Service.Gateway.Management.{
  Operation, status_operation, drain_operation, attach_operation, prepare_operation,
  probe_operation, Envelope, Reply, status_reply, attached_reply, activated_reply, detached_reply,
  denied_reply, Progress, holding, ended, Outcome, Read, probe_policy, serve, hold_round,
}
use wrix.Service.Gateway.Headers.{HeaderMap}
use wrix.Service.Gateway.Traffic.{
  Request, Connection, Pending, Admission, answered, dialing, Network, admit, resume,
}

pub record Slot : Type 0 where
  pub connection : Connection
  pub is_open : Bool

pub record System (M : Type 0) : Type 0 where
  pub state : State
  -- The credentials whose private connection is open.
  pub held : List Str
  pub slots : List Slot
  -- The requests that wait for a dial, and the children of connections, with the connection's
  -- number.
  pub pending : List (ℕ × Pending M)
  pub children : List ℕ
  pub log : List Entry

pub data Event (M : Type 0) : Type 0 where
  managed : Result Error Envelope → Result Error (Unit {0}) → Event M
  heard : Str → Read → Result Error (Unit {0}) → Event M
  accepted : Event M
  requested : ℕ → Request M → Event M
  dialled : ℕ → Network → Event M
  child_ended : ℕ → Event M
  closed : ℕ → Event M
  poisoned_lock : Event M

-- `requests` of a connection, when a permit comes back.
abbrev pub return_permit : Slot → Slot
return_permit slot = record slot {
  connection = record slot.connection { requests = suc slot.connection.requests };
}

abbrev pub new_slot : Slot
new_slot = record { connection = record { identity = none; requests = 8 }; is_open = true }

abbrev pub not_child : ℕ → List ℕ → List ℕ
not_child i [] = []
not_child i (child ∷ children) =
    let rest = not_child i children in if child == i then rest else child ∷ rest

module _ {M : Type 0} where
  abbrev pub after_hold : System M → Str → Outcome → System M
  after_hold system credential outcome = record system {
    state = outcome.after;
    held = held_on credential outcome.progress system.held;
    log = hold_entries credential outcome system.log;
  }

  -- `try_acquire_owned` and the task of the connection.
  unfoldable pub accept_connection : System M → System M
  accept_connection system =
      if system.state.is_poisoned
        || (system.state.table.draining || not (ltb 0 system.state.available))
      then system
      else record system {
        state = record system.state { available = system.state.available - 1 };
        slots = system.slots ++ new_slot ∷ [];
      }

  abbrev pub set_connection : ℕ → Slot → Connection → System M → System M
  set_connection i slot connection system = record system {
    slots = set_at i (record slot { connection = connection }) system.slots;
  }

  abbrev pub after_admission :
      ℕ → Slot → System M → Result Error (Admission M) × Connection → System M
  after_admission i slot system (err e, connection) = set_connection i slot connection system
  after_admission i slot system (ok (answered status), connection) =
      set_connection i slot connection system
  after_admission i slot system (ok (dialing pending), connection) =
      record (set_connection i slot connection system) { pending = (i, pending) ∷ system.pending }

  abbrev pub give_back : ℕ → System M → Option Slot → System M
  give_back i system none = system
  give_back i system (some slot) = record system {
    slots = set_at i (return_permit slot) system.slots;
  }

  -- A dial that failed gives the permit back, and one that succeeded hands it to a child.
  abbrev pub after_dial : ℕ → Pending M → System M → Result Error Address → System M
  after_dial i pending system (err e) = give_back i system (get_elem? system.slots i)
  after_dial i pending system (ok address) = record system {
    children = i ∷ system.children;
    log = connected_entry i pending.secret pending.to_host pending.to_port address ∷ system.log;
  }

  abbrev pub end_child : ℕ → System M → Option ℕ → System M
  end_child k system none = system
  end_child k system (some i) =
      give_back i (record system { children = remove_at k system.children })
        (get_elem? system.slots i)

  abbrev pub not_at : ℕ → List (ℕ × Pending M) → List (ℕ × Pending M)
  not_at i [] = []
  not_at i (entry ∷ pending) =
      let rest = not_at i pending in if entry.0 == i then rest else entry ∷ rest

  -- The end of a connection: its requests and children are dropped, and its permit comes back.
  abbrev pub close_slot : ℕ → System M → Option Slot → System M
  close_slot i system none = system
  close_slot i system (some slot) =
      if slot.is_open
      then record system {
        state = record system.state { available = suc system.state.available };
        slots = set_at i (record slot { is_open = false }) system.slots;
        pending = not_at i system.pending;
        children = not_child i system.children;
      }
      else system

module _ {M V : Type 0} (headers : HeaderMap M V) (parse_ipv4 : Str → Option ℕ) where
  abbrev pub after_request : System M → Result Error Envelope → Outcome → System M
  after_request system request outcome = record system {
    state = outcome.after;
    held = held_after outcome.progress system.held;
    log = serve_entries parse_ipv4 request outcome system.log;
  }

  abbrev pub end_dial : ℕ → Network → System M → Option (ℕ × Pending M) → System M
  end_dial j network system none = system
  end_dial j network system (some (i, pending)) =
      after_dial i pending (record system { pending = remove_at j system.pending })
        (resume headers network pending system.state)

  module _ (decode : Str → Option Str) (is_utf8 : Str → Bool) (key : Str) where
    abbrev pub admit_at : ℕ → Request M → System M → Option Slot → System M
    admit_at i request system none = system
    admit_at i request system (some slot) =
        if slot.is_open
        then after_admission i slot system
            (admit headers parse_ipv4 decode is_utf8 slot.connection request system.state)
        else system

    unfoldable pub step : System M → Event M → System M
    unfolding serve hold_round accept_connection admit resume
    step system (managed request write) =
        after_request system request (serve parse_ipv4 key request write system.state)
    step system (heard credential input write) =
        if contains_secret system.held credential
        then after_hold system credential (hold_round credential input write system.state)
        else system
    step system accepted = accept_connection system
    step system (requested i request) = admit_at i request system (get_elem? system.slots i)
    step system (dialled j network) = end_dial j network system (get_elem? system.pending j)
    step system (child_ended k) = end_child k system (get_elem? system.children k)
    step system (closed i) = close_slot i system (get_elem? system.slots i)
    step system poisoned_lock = record system { state = record system.state { is_poisoned = true } }

    unfoldable pub run : List (Event M) → System M → System M
    unfolding step
    run [] system = system
    run (event ∷ events) system = run events (step system event)

abbrev pub start : {M : Type 0} → State → System M
start state = record { state = state; held = []; slots = []; pending = []; children = []; log = [] }
