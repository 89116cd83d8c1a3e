-- ===== src/Service/Gateway/Sound.antt =====
-- The runs of `run_network` (crates/wrix-service/src/gateway/mod.rs) with the private protocol and
-- the traffic: what accounts for the table in the history of a run.
use wrix.Common.{
  ℕ, suc, ◌-◌, ◌≡◌, refl, subst, inl, inr, ◌||◌, Bool, true, false, not, List, [], ◌∷◌, ◌++◌,
  Option, none, some, ◌==◌, ltb, if◌then◌else◌, get_elem?, set_at, remove_at, All, All-map,
  Bool-cases, Result, ok, err, ok-injective, length,
}
use wrix.Common.Text.{Str}
use wrix.Service.Policy.Baseline.{Address, Range}
use wrix.Service.Gateway.{Error, exhausted, Grant, State, new_state}
use wrix.Service.Gateway.Traffic.{Pending}
use wrix.Service.Gateway.Run.{
  Entry, connected_entry, Slot, new_slot, System, start, accept_connection, end_child, give_back,
  close_slot, not_at, not_child,
}
use wrix.Service.Gateway.Authorized.{IsAuthorized, IsTracked, Tracks, Moved}
use wrix.Service.Gateway.Admitted.{IsAdmitted}
use wrix.Service.Gateway.Held.{AllSeen, IsKept, Moved-AllSeen, beside-Moved}

abbrev pub AllAdmitted : {M : Type 0} → State → List (ℕ × Pending M) → Type 0
AllAdmitted s pending = All (λ e. IsAdmitted s e.1) pending

not_at-AllAdmitted :
    {M : Type 0} (s : State) (i : ℕ) (pending : List (ℕ × Pending M))
    → AllAdmitted s pending
    → AllAdmitted s (not_at i pending)
not_at-AllAdmitted s i [] h = tt
not_at-AllAdmitted s i (e ∷ pending) (h, hs) = elim (Bool-cases (e.0 == i)) [
  | inl q ↦ rw q (not_at-AllAdmitted s i pending hs)
  | inr q ↦ rw q (h, not_at-AllAdmitted s i pending hs)
]

pub checked-ok :
    (test : Bool) (s : State) {t : State}
    → ◌≡◌ {A = Result Error State} (if test then err exhausted else ok s) (ok t)
    → s ≡ t
checked-ok true s h = absurd cc
checked-ok false s h = ok-injective {E = Error} h

pub connected-IsTracked :
    {M : Type 0} (i : ℕ) (pending : Pending M) (address : Address) {c : Str} {g : Grant}
    {seen : List Str} {log : List Entry}
    → IsTracked c g seen log
    → IsTracked c g seen
        (connected_entry i pending.secret pending.to_host pending.to_port address ∷ log)
connected-IsTracked i pending address h = record {
  was_attached = inr h.was_attached;
  was_activated = λ a. inr (h.was_activated a);
  not_revoked = h.not_revoked;
  was_seen = h.was_seen;
}

module _ (baseline : List Range) (protected : List Address) where
  -- The history accounts for the table, the attachments and the requests that wait.
  pub record IsSound {M : Type 0} (system : System M) : Type 0 where
    pub tracks : Tracks baseline protected system.state system.log
    pub held_seen : AllSeen system.state system.held
    pub admitted : AllAdmitted system.state system.pending
    pub authorized : IsAuthorized baseline protected system.log

  kept-AllAdmitted :
      {M : Type 0} {s t : State} {log later : List Entry} (pending : List (ℕ × Pending M))
      → Moved baseline protected s t log later
      → AllAdmitted s pending
      → AllAdmitted t pending
  kept-AllAdmitted {s = s} {t} pending h =
      All-map (λ e. IsAdmitted s e.1) (λ e. IsAdmitted t e.1) pending
        (λ e k. record {
          is_permitted = k.is_permitted;
          alive = h.alive e.1.secret e.1.grant k.alive;
        })

  pub kept-IsSound :
      {M : Type 0} (system : System M) (t : State) (later : List Entry) (held : List Str)
      → IsSound system
      → IsKept baseline protected system.state t system.log later held
      → IsSound (record system { state = t; held = held; log = later })
  kept-IsSound system t later held h k = record {
    tracks = k.moved.tracks;
    held_seen = k.all_seen;
    admitted = kept-AllAdmitted system.pending k.moved h.admitted;
    authorized = k.moved.authorized h.authorized;
  }

  -- Changes beside the grants, and fewer requests that wait.
  pub beside-IsSound :
      {M : Type 0} (system : System M) (lock : Bool) (available : ℕ) (slots : List Slot)
      (pending : List (ℕ × Pending M)) (children : List ℕ)
      → IsSound system
      → AllAdmitted system.state pending
      → IsSound (record system {
        state = record system.state { is_poisoned = lock; available = available };
        slots = slots;
        pending = pending;
        children = children;
      })
  beside-IsSound system lock available slots pending children h admitted =
      let moved =
        beside-Moved baseline protected system.state system.log system.state.table.draining lock
          available h.tracks in
      record {
        tracks = moved.tracks;
        held_seen = Moved-AllSeen baseline protected system.held moved h.held_seen;
        admitted = kept-AllAdmitted pending moved admitted;
        authorized = h.authorized;
      }

  pub slots-IsSound :
      {M : Type 0} (system : System M) (slots : List Slot) (children : List ℕ)
      → IsSound system
      → IsSound (record system { slots = slots; children = children })
  slots-IsSound system slots children h = record {
    tracks = h.tracks;
    held_seen = h.held_seen;
    admitted = h.admitted;
    authorized = h.authorized;
  }

  pub accept-IsSound :
      {M : Type 0} (system : System M) → IsSound system → IsSound (accept_connection system)
  unfolding accept_connection
  accept-IsSound system h =
      elim (Bool-cases (
        system.state.is_poisoned
        || (system.state.table.draining || not (ltb 0 system.state.available)))) [
          | inl e ↦ simp (e) h
          | inr e ↦ simp (e) (
              beside-IsSound system system.state.is_poisoned (system.state.available - 1)
                (system.slots ++ new_slot ∷ []) system.pending system.children h h.admitted)
        ]

  pub give_back-IsSound :
      {M : Type 0} (i : ℕ) (system : System M) (slot : Option Slot)
      → IsSound system
      → IsSound (give_back i system slot)
  give_back-IsSound i system none h = h
  give_back-IsSound i system (some slot) h = slots-IsSound system _ system.children h

  pub end_child-IsSound :
      {M : Type 0} (k : ℕ) (system : System M) (child : Option ℕ)
      → IsSound system
      → IsSound (end_child k system child)
  end_child-IsSound k system none h = h
  end_child-IsSound k system (some i) h =
      give_back-IsSound i (record system { children = remove_at k system.children })
        (get_elem? system.slots i) (slots-IsSound system system.slots _ h)

  pub close-IsSound :
      {M : Type 0} (i : ℕ) (system : System M) (slot : Option Slot)
      → IsSound system
      → IsSound (close_slot i system slot)
  close-IsSound i system none h = h
  close-IsSound i system (some slot) h = elim (Bool-cases slot.is_open) [
    | inl e ↦ simp (e) (
        beside-IsSound system system.state.is_poisoned (suc system.state.available)
          (set_at i (record { connection = slot.connection; is_open = false }) system.slots)
          (not_at i system.pending) (not_child i system.children) h
          (not_at-AllAdmitted system.state i system.pending h.admitted))
    | inr e ↦ simp (e) h
  ]

  pub start-IsSound :
      {M : Type 0} (capacity : ℕ) (state : State)
      → new_state capacity protected baseline ≡ ok state
      → IsSound (start {M = M} state)
  unfolding new_state
  start-IsSound {M} capacity state h =
      let made = checked-ok (ltb 4096 capacity || ltb 4096 (length protected)) _ h in
      subst (λ s. IsSound (start {M = M} s)) made
        (record {
          tracks = record {
            tracked = λ c g found. cc;
            revoked_seen = λ c r. cc;
            same_baseline = refl;
            same_protected = refl;
          };
          held_seen = tt;
          admitted = tt;
          authorized = tt;
        })
