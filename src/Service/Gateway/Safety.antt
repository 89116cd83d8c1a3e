-- ===== src/Service/Gateway/Safety.antt =====
-- The runs of `run_network` (crates/wrix-service/src/gateway/mod.rs) with the private protocol and
-- the traffic: every connection to an address had the authority for it.
use wrix.Common.{
  ℕ, ◌≡◌, refl, inl, inr, Bool, true, List, [], ◌∷◌, Option, none, some, get_elem?, remove_at,
  All-remove_at, All-get, Bool-cases, Result, ok, err,
}
use wrix.Common.Text.{Str}
use wrix.Service.Policy.Baseline.{Address, Range}
use wrix.Service.Gateway.{Error, State, new_state, contains_secret}
use wrix.Service.Gateway.Headers.{HeaderMap}
use wrix.Service.Gateway.Traffic.{
  Request, Connection, Pending, Admission, answered, dialing, Network, admit, resume,
}
use wrix.Service.Gateway.Run.{
  Slot, System, Event, managed, heard, accepted, requested, dialled, child_ended, closed,
  poisoned_lock, step, run, start, after_admission, after_dial, end_dial, admit_at,
}
use wrix.Service.Gateway.Authorized.{IsAuthorized}
use wrix.Service.Gateway.Admitted.{IsAdmitted, admit-IsAdmitted}
use wrix.Service.Gateway.Dialled.{resume-Authority}
use wrix.Service.Gateway.Held.{hold_round-IsKept}
use wrix.Service.Gateway.Served.{serve-IsKept}
use wrix.Service.Gateway.Sound.{
  connected-IsTracked, IsSound, kept-IsSound, beside-IsSound, slots-IsSound, accept-IsSound,
  give_back-IsSound, end_child-IsSound, close-IsSound, start-IsSound,
}

module _ (baseline : List Range) (protected : List Address) where
  module _ {M V : Type 0} (headers : HeaderMap M V) (parse_ipv4 : Str → Option ℕ) where
    after_dial-IsSound :
        (i : ℕ) (pending : Pending M) (network : Network) (system : System M)
        (r : Result Error Address)
        → resume headers network pending system.state ≡ r
        → IsSound baseline protected system
        → IsAdmitted system.state pending
        → IsSound baseline protected (after_dial i pending system r)
    after_dial-IsSound i pending network system (err e) q h admitted =
        give_back-IsSound baseline protected i system (get_elem? system.slots i) h
    after_dial-IsSound i pending network system (ok address) q h admitted = record {
      tracks = record {
        tracked = λ c g found. connected-IsTracked i pending address (h.tracks.tracked c g found);
        revoked_seen = h.tracks.revoked_seen;
        same_baseline = h.tracks.same_baseline;
        same_protected = h.tracks.same_protected;
      };
      held_seen = h.held_seen;
      admitted = h.admitted;
      authorized = (
        resume-Authority baseline protected headers system.state system.log network pending h.tracks
            admitted q,
        h.authorized,
      );
    }

    end_dial-IsSound :
        (j : ℕ) (network : Network) (system : System M) (e : Option (ℕ × Pending M))
        → get_elem? system.pending j ≡ e
        → IsSound baseline protected system
        → IsSound baseline protected (end_dial headers parse_ipv4 j network system e)
    end_dial-IsSound j network system none q h = h
    end_dial-IsSound j network system (some (i, pending)) q h =
        let fewer : IsSound baseline protected
            (record system { pending = remove_at j system.pending }) =
          beside-IsSound baseline protected system system.state.is_poisoned system.state.available
            system.slots (remove_at j system.pending) system.children h
            (All-remove_at (λ e. IsAdmitted system.state e.1) j system.pending h.admitted) in
        after_dial-IsSound i pending network
          (record system { pending = remove_at j system.pending })
          (resume headers network pending system.state) refl fewer
          (All-get (λ e. IsAdmitted system.state e.1) j system.pending h.admitted q)

    module _ (decode : Str → Option Str) (is_utf8 : Str → Bool) (key : Str) where
      after_admission-IsSound :
          (i : ℕ) (slot : Slot) (request : Request M) (system : System M)
          (r : Result Error (Admission M) × Connection)
          → admit headers parse_ipv4 decode is_utf8 slot.connection request system.state ≡ r
          → IsSound baseline protected system
          → IsSound baseline protected (after_admission i slot system r)
      after_admission-IsSound i slot request system (err e, connection) q h =
          slots-IsSound baseline protected system _ system.children h
      after_admission-IsSound i slot request system (ok (answered status), connection) q h =
          slots-IsSound baseline protected system _ system.children h
      after_admission-IsSound i slot request system (ok (dialing pending), connection) q h =
          let admitted =
            admit-IsAdmitted headers parse_ipv4 decode is_utf8 slot.connection request system.state
              q in
          record {
            tracks = h.tracks;
            held_seen = h.held_seen;
            admitted = (admitted, h.admitted);
            authorized = h.authorized;
          }

      admit_at-IsSound :
          (i : ℕ) (request : Request M) (system : System M) (slot : Option Slot)
          → IsSound baseline protected system
          → IsSound baseline protected
              (admit_at headers parse_ipv4 decode is_utf8 key i request system slot)
      admit_at-IsSound i request system none h = h
      admit_at-IsSound i request system (some slot) h = elim (Bool-cases slot.is_open) [
        | inl e ↦ simp (e) (
            after_admission-IsSound i slot request system
              (admit headers parse_ipv4 decode is_utf8 slot.connection request system.state) refl h)
        | inr e ↦ simp (e) h
      ]

      step-IsSound :
          (system : System M) (event : Event M)
          → IsSound baseline protected system
          → IsSound baseline protected (step headers parse_ipv4 decode is_utf8 key system event)
      unfolding step
      step-IsSound system (managed request write) h =
          kept-IsSound baseline protected system _ _ _ h (
            serve-IsKept baseline protected parse_ipv4 key request write system.state system.log
              system.held h.tracks h.held_seen)
      step-IsSound system (heard c input write) h =
          elim (Bool-cases (contains_secret system.held c)) [
            | inl e ↦ simp (e) (
                kept-IsSound baseline protected system _ _ _ h (
                  hold_round-IsKept baseline protected c input write system.state system.log
                    system.held e h.tracks h.held_seen))
            | inr e ↦ simp (e) h
          ]
      step-IsSound system accepted h = accept-IsSound baseline protected system h
      step-IsSound system (requested i request) h =
          admit_at-IsSound i request system (get_elem? system.slots i) h
      step-IsSound system (dialled j network) h =
          end_dial-IsSound j network system (get_elem? system.pending j) refl h
      step-IsSound system (child_ended k) h =
          end_child-IsSound baseline protected k system (get_elem? system.children k) h
      step-IsSound system (closed i) h =
          close-IsSound baseline protected i system (get_elem? system.slots i) h
      step-IsSound system poisoned_lock h =
          beside-IsSound baseline protected system true system.state.available system.slots
            system.pending system.children h h.admitted

      run-IsSound :
          (events : List (Event M)) (system : System M)
          → IsSound baseline protected system
          → IsSound baseline protected (run headers parse_ipv4 decode is_utf8 key events system)
      unfolding run
      run-IsSound [] system h = h
      run-IsSound (event ∷ events) system h =
          run-IsSound events (step headers parse_ipv4 decode is_utf8 key system event)
            (step-IsSound system event h)

      -- Whatever the order of the private requests, the requests, the dials and the ends of
      -- connections, and whatever the environment answers: each connection of the gateway to an
      -- address was for a credential that had been attached with a policy that permits the
      -- destination, had been activated, and had not been revoked by then, and the address is
      -- outside the baseline's ranges and is not protected.
      pub run-IsAuthorized :
          (capacity : ℕ) (state : State) (events : List (Event M))
          → new_state capacity protected baseline ≡ ok state
          → IsAuthorized baseline protected
              (run headers parse_ipv4 decode is_utf8 key events (start state)).log
      run-IsAuthorized capacity state events h =
          (run-IsSound events (start state)
            (start-IsSound baseline protected capacity state h)).authorized
