-- ===== src/Service/Gateway/Authorized.antt =====
-- The grants of crates/wrix-service/src/gateway/mod.rs against the history of a run: what each
-- change of the table keeps.
use wrix.Common.{
  ℕ, ◌≡◌, refl, ◌∙◌, ◌⊎◌, inl, inr, Bool, true, false, ◌||◌, List, [], ◌∷◌, some, arith,
  if◌then◌else◌, any, IsIn, Bool-cases,
}
use wrix.Common.Text.{Str, str_eq, str_eq_refl}
use wrix.Common.Maps.{lookup}
use wrix.Service.Policy.{Host, Rule, permits}
use wrix.Service.Policy.Baseline.{Address, address_eq, baseline_permits, Range}
use wrix.Service.Gateway.{Grant, State, contains_secret, new_grant, is_cancelled}
use wrix.Service.Gateway.Run.{
  Entry, attached_entry, activated_entry, revoked_entry, connected_entry,
}

-- The history holds a revocation of the credential.
abbrev pub is_revoked : List Entry → Str → Bool
is_revoked [] credential = false
is_revoked (attached_entry c policy ∷ log) credential = is_revoked log credential
is_revoked (activated_entry c ∷ log) credential = is_revoked log credential
is_revoked (revoked_entry c ∷ log) credential = str_eq c credential || is_revoked log credential
is_revoked (connected_entry i c host port address ∷ log) credential = is_revoked log credential

abbrev pub entered : Bool → Str → List Rule → List Entry → List Entry
entered active credential policy log =
    if active
    then activated_entry credential ∷ attached_entry credential policy ∷ log
    else attached_entry credential policy ∷ log

-- What a grant of the table has in the history.
pub record IsTracked (credential : Str) (grant : Grant) (seen : List Str) (log : List Entry)
    : Type 0 where
  pub was_attached : IsIn (attached_entry credential grant.policy) log
  pub was_activated : grant.active ≡ true → IsIn (activated_entry credential) log
  pub not_revoked : is_revoked log credential ≡ false
  pub was_seen : contains_secret seen credential ≡ true

-- The table still holds the grant that a request was admitted with.
pub record IsHeldGrant (state : State) (credential : Str) (grant : Grant) : Type 0 where
  pub current : Grant
  pub found : lookup state.table.grants credential ≡ some current
  pub same_policy : current.policy ≡ grant.policy
  pub same_cancel : current.cancel ≡ grant.cancel
  pub is_active : current.active ≡ true

pub found-IsHeldGrant :
    {s t : State} {d : Str} {g : Grant}
    → lookup t.table.grants d ≡ lookup s.table.grants d
    → IsHeldGrant s d g
    → IsHeldGrant t d g
found-IsHeldGrant e held = record {
  current = held.current;
  found = e ∙ held.found;
  same_policy = held.same_policy;
  same_cancel = held.same_cancel;
  is_active = held.is_active;
}

-- A request's grant was cancelled, or it stands.
abbrev pub IsAlive : State → Str → Grant → Type 0
IsAlive state credential grant =
    (is_cancelled state grant.cancel ≡ true) ⊎ IsHeldGrant state credential grant

module _ (baseline : List Range) (protected : List Address) where
  -- What a connection to an address needs of the history before it.
  pub record Authority (credential : Str) (host : Host) (port : ℕ) (address : Address)
      (older : List Entry) : Type 0 where
    pub policy : List Rule
    pub was_attached : IsIn (attached_entry credential policy) older
    pub is_permitted : permits policy host port ≡ true
    pub was_activated : IsIn (activated_entry credential) older
    pub not_revoked : is_revoked older credential ≡ false
    pub in_baseline : baseline_permits baseline address ≡ true
    pub not_protected : any (address_eq address) protected ≡ false

  abbrev pub IsAuthorized : List Entry → Type 0
  IsAuthorized [] = Unit {0}
  IsAuthorized (attached_entry c policy ∷ log) = IsAuthorized log
  IsAuthorized (activated_entry c ∷ log) = IsAuthorized log
  IsAuthorized (revoked_entry c ∷ log) = IsAuthorized log
  IsAuthorized (connected_entry i c host port address ∷ log) =
      Authority c host port address log × IsAuthorized log

  pub record Tracks (state : State) (log : List Entry) : Type 0 where
    pub tracked :
        (c : Str) (g : Grant)
        → lookup state.table.grants c ≡ some g
        → IsTracked c g state.table.seen log
    pub revoked_seen :
        (c : Str) → is_revoked log c ≡ true → contains_secret state.table.seen c ≡ true
    pub same_baseline : state.baseline ≡ baseline
    pub same_protected : state.protected ≡ protected

  -- What a change of the table keeps.
  pub record Moved (s : State) (t : State) (log : List Entry) (later : List Entry) : Type 0 where
    pub tracks : Tracks t later
    pub alive : (c : Str) (g : Grant) → IsAlive s c g → IsAlive t c g
    pub seen_kept :
        (c : Str) → contains_secret s.table.seen c ≡ true → contains_secret t.table.seen c ≡ true
    pub authorized : IsAuthorized log → IsAuthorized later

  pub stayed-Moved : (s : State) (log : List Entry) → Tracks s log → Moved s s log log
  stayed-Moved s log h = record {
    tracks = h;
    alive = λ c g k. k;
    seen_kept = λ c k. k;
    authorized = λ k. k;
  }

  pub then-Moved :
      {s t u : State} {log later latest : List Entry}
      → Moved s t log later
      → Moved t u later latest
      → Moved s u log latest
  then-Moved h k = record {
    tracks = k.tracks;
    alive = λ c g a. k.alive c g (h.alive c g a);
    seen_kept = λ c a. k.seen_kept c (h.seen_kept c a);
    authorized = λ a. k.authorized (h.authorized a);
  }

  pub fresh-not_revoked :
      (s : State) (log : List Entry) (c : Str)
      → Tracks s log
      → contains_secret s.table.seen c ≡ false
      → is_revoked log c ≡ false
  fresh-not_revoked s log c h fresh = elim (Bool-cases (is_revoked log c)) [
    | inl e ↦ let seen = h.revoked_seen c e in absurd cc
    | inr e ↦ e
  ]

  pub entered-IsTracked :
      (active : Bool) (c : Str) (policy : List Rule) (cancel : ℕ) (probe : Bool) (seen : List Str)
      (log : List Entry)
      → is_revoked log c ≡ false
      → IsTracked c (new_grant policy cancel probe active) (c ∷ seen) (entered active c policy log)
  entered-IsTracked true c policy cancel probe seen log h = record {
    was_attached = inr (inl refl);
    was_activated = λ e. inl refl;
    not_revoked = h;
    was_seen = rw (str_eq_refl c);
  }
  entered-IsTracked false c policy cancel probe seen log h = record {
    was_attached = inl refl;
    was_activated = λ e. absurd cc;
    not_revoked = h;
    was_seen = rw (str_eq_refl c);
  }

  pub entered-older :
      (active : Bool) (c d : Str) (policy : List Rule) (g : Grant) (seen : List Str)
      (log : List Entry)
      → IsTracked d g seen log
      → IsTracked d g (c ∷ seen) (entered active c policy log)
  entered-older true c d policy g seen log h = record {
    was_attached = inr (inr h.was_attached);
    was_activated = λ e. inr (inr (h.was_activated e));
    not_revoked = h.not_revoked;
    was_seen = let s = h.was_seen in ground arith;
  }
  entered-older false c d policy g seen log h = record {
    was_attached = inr h.was_attached;
    was_activated = λ e. inr (h.was_activated e);
    not_revoked = h.not_revoked;
    was_seen = let s = h.was_seen in ground arith;
  }

  pub entered-IsAuthorized :
      (active : Bool) (c : Str) (policy : List Rule) (log : List Entry)
      → IsAuthorized log
      → IsAuthorized (entered active c policy log)
  entered-IsAuthorized true c policy log h = h
  entered-IsAuthorized false c policy log h = h

  pub entered-is_revoked :
      (active : Bool) (c : Str) (policy : List Rule) (log : List Entry) (d : Str)
      → is_revoked (entered active c policy log) d ≡ is_revoked log d
  entered-is_revoked true c policy log d = refl
  entered-is_revoked false c policy log d = refl
