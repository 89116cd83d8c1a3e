-- ===== src/State/Association.antt =====
-- crates/wrix-state/src/store/association.rs: host associations of checkouts with a namespace.
-- The host's checks, the discovery of a checkout and its rechecks are other components': what they
-- answer during a call is an argument. JSON is the pair of functions that serde derives for `Former`.
pub mod Laws
pub mod Reserve
pub mod Written
pub mod Committed
pub mod Found
pub mod Moves
use wrix.Common.{
  ℕ, Bool, true, false, not, ◌&&◌, ◌||◌, List, [], ◌∷◌, Option, none, some, ◌==◌, ltb, leb, all,
  length, if◌then◌else◌, is_empty, Result, ok, err, ◌>>=◌, ◌>>◌, guard,
}
use wrix.Common.Text.{Str, str_eq, codes, contains_byte}
use wrix.Common.Maps.{lookup, contains_key}
use wrix.Core.Workspace.{parse_hash}
use wrix.State.{
  Error, integration_error, unsupported, conflict, uninitialized, invalid, other_error, Checkout,
  Binding, Participant, Metadata, Database, insert_or_ignore, metadata_value, insert_metadata,
  registration, hash_of, is_absolute, is_some,
}

-- `HOST` and `FORMER`.
abbrev pub host_slot : Str
host_slot = codes "wrix-host-association"

abbrev pub former_owner : Str
former_owner = codes "namespace/associated-former"

pub record Former : Type 0 where
  pub version : ℕ
  pub destination : Str
  pub checkout : Str
  pub evidence : Str

pub record Association : Type 0 where
  pub key : Str
  pub associated : Checkout
  pub primary : Checkout

-- What the code takes from crates and from the standard library: `is_normal` says that a path's
-- components, none of them a parent, collect to the path.
pub record Library : Type 0 where
  pub digest : Str → List ℕ
  pub encode : Former → Str
  pub decode : Str → Option Former
  pub is_normal : Str → Bool

-- What the other components answer during one call.
pub record World : Type 0 where
  pub host_check : Result Error (Unit {0})
  pub discover : Str → Result Error Checkout
  pub check_retention : Str → Result Error (Unit {0})
  pub mutate : Result Error (Unit {0})
  pub scope_check : Str → Str → Result Error (Unit {0})
  pub recheck_before : Checkout → Result Error (Unit {0})
  pub recheck_after : Checkout → Result Error (Unit {0})
  pub check_evidence : Str → Result Error (Unit {0})

abbrev pub is_letter : ℕ → Bool
is_letter byte = (leb b'a' byte && leb byte b'z') || (leb b'A' byte && leb byte b'Z')

abbrev pub is_slot_byte : ℕ → Bool
is_slot_byte byte =
    (is_letter byte || (leb b'0' byte && leb byte b'9'))
    || (byte == b'_' || (byte == b'-' || byte == b'.'))

-- `Slot::parse`, in the store's error.
unfoldable pub parse_slot : Str → Result Error Str
parse_slot [] = err integration_error
parse_slot (byte ∷ bytes) =
    if ltb 64 (length (byte ∷ bytes))
      || (not (is_letter byte) || not (all is_slot_byte (byte ∷ bytes)))
    then err integration_error
    else ok (byte ∷ bytes)

-- `Store::integration`, on the row of the table: a slot and the bytes of a path.
unfoldable pub read_integration : Option (Str × Str) → Result Error (Option (Str × Str))
unfolding parse_slot
read_integration none = ok none
read_integration (some (value, path)) = do
  slot ← parse_slot value
  guard (is_absolute path) unsupported
  ok (some (slot, path))

abbrev pub same_participant : Str → Checkout → Option Participant → Bool
same_participant key checkout none = true
same_participant key checkout (some row) =
    str_eq row.native_key key && str_eq row.observed checkout.evidence

-- `participant`: a checkout that takes part already does so in this namespace, unchanged.
unfoldable pub check_participant : Database → Checkout → Str → Result Error (Unit {0})
check_participant db checkout key =
    guard (same_participant key checkout (lookup db.participants checkout.root)) conflict

abbrev pub same_binding : Str → Str → Checkout → Option Binding → Bool
same_binding slot membership primary none = true
same_binding slot membership primary (some row) =
    str_eq row.slot slot
    && (str_eq row.membership membership
        && (str_eq row.primary_root primary.root && str_eq row.primary_evidence primary.evidence))

-- Whether a row has the slot and the membership, which are unique in the table.
abbrev pub is_taken : List (Str × Binding) → Str → Str → Bool
is_taken [] slot membership = false
is_taken ((k, row) ∷ rows) slot membership =
    (str_eq row.slot slot && str_eq row.membership membership) || is_taken rows slot membership

-- `INSERT OR IGNORE INTO binding`: ignored where the key, or the slot with the membership, has a row.
abbrev pub insert_binding : Str → Binding → List (Str × Binding) → List (Str × Binding)
insert_binding key row rows =
    if is_taken rows row.slot row.membership then rows else insert_or_ignore key row rows

abbrev pub binding_row : Str → Str → Checkout → Binding
binding_row slot membership primary = record {
  slot = slot;
  membership = membership;
  primary_root = primary.root;
  primary_evidence = primary.evidence;
}

abbrev pub bound_database : Database → Str → Str → Str → Checkout → Database
bound_database db key slot membership primary = record db {
  bindings = insert_binding key (binding_row slot membership primary) db.bindings;
}

-- `binding`.
unfoldable pub bind_namespace : Database → Str → Str → Str → Checkout → Result Error Database
bind_namespace db key slot membership primary = do
  guard (same_binding slot membership primary (lookup db.bindings key)) conflict
  ok (bound_database db key slot membership primary)

abbrev pub same_bytes : Str → Option Str → Bool
same_bytes bytes none = true
same_bytes bytes (some previous) = str_eq previous bytes

abbrev pub row_of : Str → Checkout → Participant
row_of key checkout = record { native_key = key; observed = checkout.evidence }

-- `INSERT OR IGNORE INTO participant`: a row that is not ignored refers to a row of `binding`.
unfoldable pub insert_participant : Str → Checkout → Database → Result Error Database
insert_participant key checkout db =
    if contains_key db.participants checkout.root
    then ok db
    else if contains_key db.bindings key
    then ok (record db { participants = (checkout.root, row_of key checkout) ∷ db.participants })
    else err (other_error (codes "FOREIGN KEY constraint failed"))

-- The loop over both checkouts.
unfoldable pub insert_participants : Str → Checkout → Checkout → Database → Result Error Database
unfolding insert_participant
insert_participants key primary checkout db = do
  first ← insert_participant key primary db
  insert_participant key checkout first

abbrev pub reserved_database : Database → Str → Str → Database
reserved_database db former bytes = record db {
  metadata =
      insert_metadata (record { meta_key = former; owner = former_owner; value = bytes })
        db.metadata;
}

-- The record of the former namespace of a checkout.
abbrev pub former_of : Str → Checkout → Former
former_of retain checkout = record {
  version = 1;
  destination = retain;
  checkout = checkout.root;
  evidence = checkout.evidence;
}

module _ (lib : Library) where
  -- The reservation of the former namespace of the checkout.
  unfoldable pub reserve_former : Database → Str → Str → Checkout → Result Error Database
  reserve_former db former retain checkout = do
    guard (not (contains_key db.bindings former)) conflict
    let bytes = lib.encode (former_of retain checkout)
    guard (same_bytes bytes (metadata_value db.metadata former former_owner)) conflict
    ok (reserved_database db former bytes)

  -- `if former != *retain { … }`.
  unfoldable pub reserve_if_former : Database → Str → Str → Checkout → Result Error Database
  unfolding reserve_former
  reserve_if_former db former retain checkout =
      if str_eq former retain then ok db else reserve_former db former retain checkout

  -- The transaction of `associate`.
  unfoldable pub associate_in :
      World → Database → Checkout → Checkout → Str → Result Error (Database × Str)
  unfolding check_participant bind_namespace reserve_if_former insert_participants registration
      hash_of
  associate_in world db primary checkout retain = do
    world.recheck_before primary
    world.recheck_before checkout
    is_registered ← registration db retain
    guard is_registered unsupported
    check_participant db primary retain
    check_participant db checkout retain
    bound ← bind_namespace db retain host_slot retain primary
    let former = hash_of lib.digest checkout.root
    reserved ← reserve_if_former bound former retain checkout
    written ← insert_participants retain primary checkout reserved
    world.recheck_after primary
    world.recheck_after checkout
    ok (written, former)

  -- `associate`, once both checkouts are discovered.
  unfoldable pub associate_checkouts :
      World → Database → Checkout → Checkout → Str → Result Error (Database × Str)
  unfolding associate_in read_integration hash_of
  associate_checkouts world db primary checkout retain = do
    guard (str_eq (hash_of lib.digest primary.root) retain)
        (invalid (codes "association must retain the primary"))
    world.check_retention retain
    world.mutate
    guard db.initialized uninitialized
    world.scope_check retain primary.root
    selected ← read_integration db.integration
    guard (not (is_some selected)) (
        invalid (
          codes
            "host association requires disabled external resolution; retain the selected adapter and use its admission workflow"))
    associate_in world db primary checkout retain

  -- `Store::associate`, on the database and to the next one.
  unfoldable pub associate : World → Database → Str → Str → Str → Result Error (Database × Str)
  unfolding associate_checkouts
  associate world db primary_path checkout_path retain = do
    world.host_check
    guard (is_absolute primary_path && is_absolute checkout_path)
        (invalid (codes "association paths must be absolute"))
    primary ← world.discover primary_path
    checkout ← world.discover checkout_path
    associate_checkouts world db primary checkout retain

  -- `path`: an absolute path in its normal form without a zero byte or a parent component.
  unfoldable pub parse_path : Str → Result Error Str
  parse_path bytes =
      if contains_byte bytes 0 || (not (is_absolute bytes) || not (lib.is_normal bytes))
      then err unsupported
      else ok bytes

  abbrev pub hosted : Option Binding → Option Binding
  hosted none = none
  hosted (some row) = if str_eq row.slot host_slot then some row else none

  abbrev pub joined_with : Participant → Option Binding → Option (Participant × Binding)
  joined_with row none = none
  joined_with row (some b) = some (row, b)

  abbrev pub joined_binding :
      List (Str × Binding) → Option Participant → Option (Participant × Binding)
  joined_binding bindings none = none
  joined_binding bindings (some row) = joined_with row (hosted (lookup bindings row.native_key))

  -- `participant p JOIN binding b ON p.native_key = b.native_key WHERE p.checkout = ?1 AND b.slot = ?2`.
  unfoldable pub associated_row : Database → Str → Option (Participant × Binding)
  associated_row db root = joined_binding db.bindings (lookup db.participants root)

  abbrev pub is_associated : Str → Str → Option (Participant × Binding) → Bool
  is_associated key evidence none = false
  is_associated key evidence (some (row, b)) =
      str_eq row.native_key key && str_eq row.observed evidence

  abbrev pub or_unsupported {ℓ} : {A : Type ℓ} → Option A → Result Error A
  or_unsupported none = err unsupported
  or_unsupported (some a) = ok a

  -- `check_former`.
  unfoldable pub check_former : World → Database → Str → Str → Result Error (Unit {0})
  unfolding associated_row parse_path hash_of
  check_former world db key bytes = do
    former ← or_unsupported (lib.decode bytes)
    destination ← or_unsupported (parse_hash former.destination)
    checkout ← parse_path former.checkout
    guard
        (former.version == 1
          && (not (str_eq destination key) && str_eq (hash_of lib.digest checkout) key))
        unsupported
    world.check_evidence former.evidence
    guard (is_associated destination former.evidence (associated_row db checkout)) unsupported

  -- The check of the former namespace in `association`.
  unfoldable pub check_reserved :
      World → Database → Str → Checkout → Option Str → Result Error (Unit {0})
  unfolding check_former
  check_reserved world db key checkout none = err (other_error (codes "QueryReturnedNoRows"))
  check_reserved world db key checkout (some bytes) = do
    check_former world db (hash_of lib.digest checkout.root) bytes
    retained ← or_unsupported (lib.decode bytes)
    guard
        (str_eq retained.destination key
          && (str_eq retained.checkout checkout.root && str_eq retained.evidence checkout.evidence))
        conflict

  unfoldable pub check_if_former : World → Database → Str → Checkout → Result Error (Unit {0})
  unfolding check_reserved hash_of
  check_if_former world db key checkout =
      let former = hash_of lib.digest checkout.root in
      if str_eq former key
      then ok tt
      else check_reserved world db key checkout (metadata_value db.metadata former former_owner)

  abbrev pub is_member : Str → Checkout → Option Participant → Bool
  is_member key primary none = false
  is_member key primary (some row) =
      str_eq row.native_key key && str_eq row.observed primary.evidence

  -- `association`, after its query found a row.
  unfoldable pub check_association :
      World → Database → Checkout → Participant → Binding → Result Error (Option Association)
  unfolding parse_path hash_of registration check_if_former
  check_association world db checkout row bound = do
    guard
        (db.initialized
          && (str_eq bound.membership row.native_key && str_eq row.observed checkout.evidence))
        conflict
    key ← or_unsupported (parse_hash row.native_key)
    is_registered ← registration db key
    guard is_registered unsupported
    root ← parse_path bound.primary_root
    primary ← world.discover root
    guard
        (str_eq primary.root root
          && (str_eq primary.evidence bound.primary_evidence
              && str_eq (hash_of lib.digest primary.root) key))
        conflict
    guard (is_member key primary (lookup db.participants root)) conflict
    check_if_former world db key checkout
    world.recheck_after checkout
    world.recheck_after primary
    ok (some (record { key = key; associated = checkout; primary = primary }))

  abbrev pub found_association :
      World
      → Database
      → Checkout
      → Option (Participant × Binding)
      → Result Error (Option Association)
  found_association world db checkout none = ok none
  found_association world db checkout (some (row, bound)) =
      check_association world db checkout row bound

  -- `Store::association`.
  unfoldable pub association : World → Database → Checkout → Result Error (Option Association)
  unfolding associated_row check_association
  association world db checkout =
      found_association world db checkout (associated_row db checkout.root)
