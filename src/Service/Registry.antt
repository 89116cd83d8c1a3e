-- ===== src/Service/Registry.antt =====
-- crates/wrix-service/src/control/registration/mod.rs, and the calls of control/mod.rs on the registry
-- of namespaces. A `BTreeMap` is the list of its entries in the order of its keys; JSON is the pair of
-- functions that serde derives for a snapshot; `Host` is what the system answers during one call.
pub mod Order
pub mod Held
pub mod Writers
pub mod Locked
pub mod Kept
pub mod Switched
pub mod Grants
pub mod Upgrade
pub mod Registers
mod Tests
use wrix.Common.{
  ℕ, Bool, true, false, not, ◌&&◌, ◌||◌, List, [], ◌∷◌, Option, none, some, ◌==◌, ltb, leb,
  if◌then◌else◌, length, Result, ok, err, ◌>>=◌, ◌>>◌, guard, ok_or,
}
use wrix.Common.Text.{Str, str_eq, str_leb}
use wrix.Common.Maps.{lookup, contains_key, remove_key}

pub data Access : Type 0 where
  allowed denied : Access

pub record Policy : Type 0 where
  pub dolt : Access
  pub private_cache_read : Access
  pub common_cache_read : Access
  pub egress : Access
  pub compiler : Access

pub data Error : Type 0 where
  private_root : Error
  registry_upgrade : Error
  frame_limit : Error
  invalid_registration : Error
  permission_denied : Error
  unknown_namespace : Error
  pool_request : Error
  io : Error
  json : Error

abbrev pub is_allowed : Access → Bool
is_allowed allowed = true
is_allowed denied = false

abbrev pub access_eq : Access → Access → Bool
access_eq a b = if is_allowed a then is_allowed b else not (is_allowed b)

abbrev pub policy_eq : Policy → Policy → Bool
policy_eq p q =
    access_eq p.dolt q.dolt
    && (access_eq p.private_cache_read q.private_cache_read
        && (access_eq p.common_cache_read q.common_cache_read
            && (access_eq p.egress q.egress && access_eq p.compiler q.compiler)))

-- `denied_policy`.
abbrev pub denied_policy : Policy
denied_policy = record {
  dolt = denied;
  private_cache_read = denied;
  common_cache_read = denied;
  egress = denied;
  compiler = denied;
}

abbrev pub Namespaces : Type 0
Namespaces = List (Str × Policy)

pub record Snapshot : Type 0 where
  pub version : ℕ
  pub entries : Namespaces

-- `VERSION`, `MAX_FRAME` and `MAX_NAMESPACES`.
abbrev pub current_version : ℕ
current_version = 2

abbrev pub max_frame : ℕ
max_frame = 1048576

abbrev pub max_namespaces : ℕ
max_namespaces = 4096

-- `BTreeMap::insert`.
abbrev pub insert_entry : Str → Policy → Namespaces → Namespaces
insert_entry k p [] = (k, p) ∷ []
insert_entry k p ((j, q) ∷ m) =
    let rest = insert_entry k p m in
    if str_eq j k then (k, p) ∷ m else if str_leb k j then (k, p) ∷ (j, q) ∷ m else (j, q) ∷ rest

-- The file `namespaces.json`.
pub record File : Type 0 where
  pub is_file : Bool
  pub owner : ℕ
  pub is_private : Bool
  pub links : ℕ
  pub content : Str

abbrev pub Disk : Type 0
Disk = Option File

-- How far the writing of a registry comes: the file in its place may not be synchronised.
pub data Writing : Type 0 where
  not_written : Error → Writing
  not_synced : Error → Writing
  written : Writing

pub record Host : Type 0 where
  pub lease : Result Error (Unit {0})
  pub lock_file : Result Error (Unit {0})
  pub acquire_ownership : Result Error (Unit {0})
  pub open_root : Result Error (Unit {0})
  pub read_file : Result Error (Unit {0})
  pub first_writing : Writing
  pub writing : Writing

pub record Library : Type 0 where
  pub encode : Snapshot → Str
  pub decode : Str → Option Snapshot
  pub uid : ℕ

-- The loop of `load_version`: a namespace with two entries is refused.
unfoldable pub insert_entries : Namespaces → Namespaces → Result Error Namespaces
insert_entries [] namespaces = ok namespaces
insert_entries ((k, p) ∷ entries) namespaces =
    let rest = insert_entries entries (insert_entry k p namespaces) in
    if contains_key namespaces k then err invalid_registration else rest

pub data Operation : Type 0 where
  inspect : Operation
  register : Str → Policy → Operation
  admit_cache : Str → Operation
  retire : Str → Operation

pub data Reply : Type 0 where
  snapshot : ℕ → Namespaces → Reply
  applied : Reply
  conflict : Reply
  capacity : Reply

-- What an operation asks for: a reply at once, or a registry to commit before `Applied`.
pub data Decision : Type 0 where
  reply_with : Reply → Decision
  commit_first : Namespaces → Decision

abbrev pub register_decision : Str → Policy → Namespaces → Option Policy → Decision
register_decision namespace policy namespaces (some existing) =
    reply_with (if policy_eq existing policy then applied else conflict)
register_decision namespace policy namespaces none =
    if length namespaces == max_namespaces
    then reply_with capacity
    else commit_first (insert_entry namespace policy namespaces)

-- `updated.entry(namespace).or_insert(…)`.
abbrev pub policy_or_denied : Option Policy → Policy
policy_or_denied (some policy) = policy
policy_or_denied none = denied_policy

abbrev pub with_cache : Policy → Policy
with_cache policy = record policy { private_cache_read = allowed; common_cache_read = allowed }

abbrev pub grants_sql : Option Policy → Bool
grants_sql none = false
grants_sql (some policy) = is_allowed policy.dolt

-- The last match of `Controller::apply`.
unfoldable pub decide : Operation → Namespaces → Result Error Decision
decide inspect namespaces = ok (reply_with (snapshot current_version namespaces))
decide (register namespace policy) namespaces =
    ok (register_decision namespace policy namespaces (lookup namespaces namespace))
decide (admit_cache namespace) namespaces = ok (
    if not (contains_key namespaces namespace) && leb max_namespaces (length namespaces)
    then reply_with capacity
    else commit_first (
        insert_entry namespace (with_cache (policy_or_denied (lookup namespaces namespace)))
          namespaces))
decide (retire namespace) namespaces =
    if grants_sql (lookup namespaces namespace)
    then err permission_denied
    else ok (
        if contains_key namespaces namespace
        then commit_first (remove_key namespace namespaces)
        else reply_with applied)

abbrev pub lease_for : Host → Operation → Result Error (Unit {0})
lease_for host inspect = ok tt
lease_for host (register namespace policy) = host.lease
lease_for host (admit_cache namespace) = host.lease
lease_for host (retire namespace) = host.lease

module _ (lib : Library) where
  abbrev pub is_owned : File → Bool
  is_owned file = file.is_file && (file.owner == lib.uid && (file.is_private && file.links == 1))

  abbrev pub is_supported : Bool → ℕ → Bool
  is_supported legacy version = version == current_version || (legacy && version == 1)

  unfoldable pub load_file : Bool → File → Result Error Namespaces
  unfolding insert_entries
  load_file legacy file = do
    guard (is_owned file) private_root
    guard (leb (length file.content) max_frame) frame_limit
    read ← ok_or (lib.decode file.content) json
    guard (not (read.version == 1 && not legacy)) registry_upgrade
    guard (is_supported legacy read.version && leb (length read.entries) max_namespaces)
        invalid_registration
    insert_entries read.entries []

  -- `load_version`.
  unfoldable pub load_version : Host → Bool → Disk → Result Error Namespaces
  unfolding load_file
  load_version host legacy none = if legacy then ok [] else err registry_upgrade
  load_version host legacy (some file) = host.read_file >> load_file legacy file

  abbrev pub written_file : Namespaces → File
  written_file namespaces = record {
    is_file = true;
    owner = lib.uid;
    is_private = true;
    links = 1;
    content = lib.encode (record { version = current_version; entries = namespaces });
  }

  abbrev pub write : Writing → Namespaces → Disk → Result Error (Unit {0}) × Disk
  write (not_written e) namespaces disk = (err e, disk)
  write (not_synced e) namespaces disk = (err e, some (written_file namespaces))
  write written namespaces disk = (ok tt, some (written_file namespaces))

  -- `commit`.
  unfoldable pub commit : Writing → Namespaces → Disk → Result Error (Unit {0}) × Disk
  commit writing namespaces disk =
      if ltb max_frame (length (written_file namespaces).content)
        || ltb max_namespaces (length namespaces)
      then (err frame_limit, disk)
      else write writing namespaces disk

  -- `initialize`: a registry of version 1 is rewritten.
  abbrev pub upgrade : Writing → Disk → Result Error Namespaces → Result Error (Unit {0}) × Disk
  upgrade writing disk (err e) = (err e, disk)
  upgrade writing disk (ok namespaces) = commit writing namespaces disk

  abbrev pub initialize_from :
      Host → Disk → Result Error Namespaces → Result Error (Unit {0}) × Disk
  initialize_from host disk (ok namespaces) = (ok tt, disk)
  initialize_from host disk (err registry_upgrade) =
      upgrade host.writing disk (load_version host true disk)
  initialize_from host disk (err private_root) = (err private_root, disk)
  initialize_from host disk (err frame_limit) = (err frame_limit, disk)
  initialize_from host disk (err invalid_registration) = (err invalid_registration, disk)
  initialize_from host disk (err permission_denied) = (err permission_denied, disk)
  initialize_from host disk (err unknown_namespace) = (err unknown_namespace, disk)
  initialize_from host disk (err pool_request) = (err pool_request, disk)
  initialize_from host disk (err io) = (err io, disk)
  initialize_from host disk (err json) = (err json, disk)

  abbrev pub after_lock :
      Result Error (Unit {0})
      → Disk
      → (Disk → Result Error (Unit {0}) × Disk)
      → Result Error (Unit {0}) × Disk
  after_lock (err e) disk next = (err e, disk)
  after_lock (ok _) disk next = next disk

  unfoldable pub initialize : Host → Disk → Result Error (Unit {0}) × Disk
  unfolding load_version commit
  initialize host disk =
      after_lock host.lock_file disk (λ d. initialize_from host d (load_version host false d))

  abbrev pub create_empty : Host → Disk → Result Error (Unit {0}) × Disk
  create_empty host (some file) = (ok tt, some file)
  create_empty host none =
      after_lock host.acquire_ownership none (λ d. commit host.first_writing [] d)

  abbrev pub read_locked : Host → Result Error (Unit {0}) × Disk → Result Error Namespaces × Disk
  read_locked host (err e, disk) = (err e, disk)
  read_locked host (ok _, disk) = (host.open_root >> load_version host false disk, disk)

  -- `Store::lock`.
  unfoldable pub lock : Host → Disk → Result Error Namespaces × Disk
  unfolding load_version commit
  lock host disk = read_locked host (after_lock host.lock_file disk (create_empty host))

  abbrev pub applied_after : Result Error (Unit {0}) × Disk → Result Error Reply × Disk
  applied_after (err e, disk) = (err e, disk)
  applied_after (ok _, disk) = (ok applied, disk)

  abbrev pub carry_out : Host → Disk → Result Error Decision → Result Error Reply × Disk
  carry_out host disk (err e) = (err e, disk)
  carry_out host disk (ok (reply_with reply)) = (ok reply, disk)
  carry_out host disk (ok (commit_first updated)) = applied_after (commit host.writing updated disk)

  abbrev pub decide_locked :
      Host → Operation → Result Error Namespaces × Disk → Result Error Reply × Disk
  decide_locked host operation (err e, disk) = (err e, disk)
  decide_locked host operation (ok namespaces, disk) =
      carry_out host disk (decide operation namespaces)

  abbrev pub with_lease :
      Host → Operation → Disk → Result Error (Unit {0}) → Result Error Reply × Disk
  with_lease host operation disk (err e) = (err e, disk)
  with_lease host operation disk (ok _) = decide_locked host operation (lock host disk)

  -- `Controller::apply`, from its lease on.
  unfoldable pub apply_operation : Host → Operation → Disk → Result Error Reply × Disk
  unfolding lock decide commit
  apply_operation host operation disk = with_lease host operation disk (lease_for host operation)

  -- `Guard::prepare_sql`, on the namespaces that the guard holds.
  unfoldable pub prepare_sql : Writing → Str → Namespaces → Disk → Result Error (Unit {0}) × Disk
  unfolding commit
  prepare_sql writing namespace namespaces disk =
      if contains_key namespaces namespace
      then (ok tt, disk)
      else if leb max_namespaces (length namespaces)
      then (err invalid_registration, disk)
      else commit writing (insert_entry namespace denied_policy namespaces) disk
