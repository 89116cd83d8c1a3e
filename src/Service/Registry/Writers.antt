-- ===== src/Service/Registry/Writers.antt =====
-- The calls besides the controller's that write the registry: those of the host in
-- crates/wrix-service/src/control/mod.rs, and the registration in the closure of a preparation job,
-- control/pool/mod.rs.
use wrix.Common.{
  List, [], ◌∷◌, Bool, true, false, not, ◌&&◌, Option, none, some, leb, length, if◌then◌else◌,
  Result, ok, err,
}
use wrix.Common.Text.{Str}
use wrix.Common.Maps.{lookup, contains_key}
use wrix.Service.Registry.{
  Access, allowed, denied, Policy, denied_policy, Error, unknown_namespace, permission_denied,
  pool_request, Namespaces, max_namespaces, insert_entry, Disk, Host, Library, Operation,
  grants_sql, commit, after_lock, initialize, lock, apply_operation, prepare_sql,
}

-- What a call finds before it locks the registry, in the order it asks: the checks of its host and
-- selection, the credentials of the database, whether the directory exists or can be prepared, and
-- whether the store opens; `recheck` is the admission's, under the lock.
pub record Outside : Type 0 where
  pub host : Host
  pub selected : Result Error (Unit {0})
  pub credentials : Result Error (Unit {0})
  pub exists : Result Error Bool
  pub directory : Result Error (Unit {0})
  pub opened : Result Error (Unit {0})
  pub recheck : Result Error (Unit {0})

-- `Authorization`: whether its authority is the host's, and its permission SQL.
pub record Authorization : Type 0 where
  pub is_host : Bool
  pub is_sql : Bool
  pub namespace : Str

abbrev pub with_dolt : Access → Policy → Policy
with_dolt access policy = record policy { dolt = access }

abbrev pub without_cache : Policy → Policy
without_cache policy = record policy { private_cache_read = denied; common_cache_read = denied }

pub data Call : Type 0 where
  call_apply : Operation → Call
  call_initialize : Call
  call_host_sql : Bool → Str → Call
  call_commit_sql : Authorization → Call
  call_retire_sql : Authorization → Call
  call_retire_cache : Str → Call
  call_admit_pool : Bool → Str → Call

abbrev pub if_exists :
    Result Error Bool
    → Result Error (Unit {0})
    → Disk
    → (Disk → Result Error (Unit {0}) × Disk)
    → Result Error (Unit {0}) × Disk
if_exists (err e) absent disk next = (err e, disk)
if_exists (ok false) absent disk next = (absent, disk)
if_exists (ok true) absent disk next = next disk

module _ (lib : Library) where
  -- The policy of a namespace that the registry has is changed and committed.
  abbrev pub update_found :
      Host
      → Str
      → (Policy → Policy)
      → Result Error (Unit {0})
      → Namespaces
      → Disk
      → Option Policy
      → Result Error (Unit {0}) × Disk
  update_found host namespace change absent namespaces disk none = (absent, disk)
  update_found host namespace change absent namespaces disk (some policy) =
      commit lib host.writing (insert_entry namespace (change policy) namespaces) disk

  abbrev pub update_locked :
      Host
      → Str
      → (Policy → Policy)
      → Result Error (Unit {0})
      → Result Error Namespaces × Disk
      → Result Error (Unit {0}) × Disk
  update_locked host namespace change absent (err e, disk) = (err e, disk)
  update_locked host namespace change absent (ok namespaces, disk) =
      update_found host namespace change absent namespaces disk (lookup namespaces namespace)

  -- `commit_sql_registration`.
  unfoldable pub commit_sql_registration : Outside → Str → Disk → Result Error (Unit {0}) × Disk
  unfolding lock commit
  commit_sql_registration outside namespace disk = after_lock lib outside.credentials disk (λ d.
      after_lock lib outside.opened d (λ d.
        update_locked outside.host namespace (with_dolt allowed) (err unknown_namespace)
          (lock lib outside.host d)))

  -- `Authorization::commit_host_sql`.
  unfoldable pub commit_host_sql : Outside → Authorization → Disk → Result Error (Unit {0}) × Disk
  unfolding commit_sql_registration
  commit_host_sql outside authorization disk =
      if not (authorization.is_host && authorization.is_sql)
      then (err permission_denied, disk)
      else commit_sql_registration outside authorization.namespace disk

  -- `Authorization::retire_sql`.
  unfoldable pub retire_sql : Outside → Authorization → Disk → Result Error (Unit {0}) × Disk
  unfolding lock commit
  retire_sql outside authorization disk =
      if not authorization.is_host
      then (err permission_denied, disk)
      else after_lock lib outside.opened disk (λ d.
        update_locked outside.host authorization.namespace (with_dolt denied)
          (err unknown_namespace) (lock lib outside.host d))

  -- `retire_host_cache`.
  unfoldable pub retire_host_cache : Outside → Str → Disk → Result Error (Unit {0}) × Disk
  unfolding lock commit
  retire_host_cache outside namespace disk = after_lock lib outside.selected disk (λ d.
      if_exists outside.exists (ok tt) d (λ d. after_lock lib outside.opened d (λ d.
        after_lock lib outside.host.lease d (λ d.
          update_locked outside.host namespace without_cache (ok tt) (lock lib outside.host d)))))

  abbrev pub host_sql_locked :
      Host → Bool → Str → Result Error Namespaces × Disk → Result Error (Unit {0}) × Disk
  host_sql_locked host admit namespace (err e, disk) = (err e, disk)
  host_sql_locked host true namespace (ok namespaces, disk) =
      prepare_sql lib host.writing namespace namespaces disk
  host_sql_locked host false namespace (ok namespaces, disk) =
      (if grants_sql (lookup namespaces namespace) then ok tt else err permission_denied, disk)

  abbrev pub host_sql_store : Outside → Bool → Str → Disk → Result Error (Unit {0}) × Disk
  host_sql_store outside admit namespace disk = after_lock lib outside.opened disk (λ d.
      after_lock lib outside.host.lease d
        (λ d. host_sql_locked outside.host admit namespace (lock lib outside.host d)))

  abbrev pub host_sql_directory :
      Outside
      → Bool
      → Disk
      → (Disk → Result Error (Unit {0}) × Disk)
      → Result Error (Unit {0}) × Disk
  host_sql_directory outside true disk next = after_lock lib outside.directory disk next
  host_sql_directory outside false disk next =
      if_exists outside.exists (err permission_denied) disk next

  -- `Authorization::host_sql_policy`, less the authorization it returns.
  unfoldable pub host_sql_policy : Outside → Bool → Str → Disk → Result Error (Unit {0}) × Disk
  unfolding lock commit prepare_sql
  host_sql_policy outside admit namespace disk =
      after_lock lib outside.selected disk
        (λ d. host_sql_directory outside admit d (host_sql_store outside admit namespace))

  abbrev pub admit_pool_locked :
      Outside → Bool → Str → Result Error Namespaces × Disk → Result Error (Unit {0}) × Disk
  admit_pool_locked outside is_worker namespace (err e, disk) = (err e, disk)
  admit_pool_locked outside is_worker namespace (ok namespaces, disk) =
      if contains_key namespaces namespace
      then (ok tt, disk)
      else if not is_worker
      then (err unknown_namespace, disk)
      else after_lock lib outside.recheck disk (λ d.
        if leb max_namespaces (length namespaces)
        then (err pool_request, d)
        else commit lib outside.host.writing (insert_entry namespace denied_policy namespaces) d)

  -- The registration in a job's closure: only a worker's launch adds a namespace.
  unfoldable pub admit_pool : Outside → Bool → Str → Disk → Result Error (Unit {0}) × Disk
  unfolding lock commit
  admit_pool outside is_worker namespace disk = after_lock lib outside.opened disk (λ d.
      after_lock lib outside.host.lease d
        (λ d. admit_pool_locked outside is_worker namespace (lock lib outside.host d)))

  -- The disk after a call.
  unfoldable pub run_call : Outside → Call → Disk → Disk
  unfolding apply_operation initialize host_sql_policy commit_host_sql retire_sql retire_host_cache
      admit_pool
  run_call outside (call_apply operation) disk = (apply_operation lib outside.host operation disk).1
  run_call outside call_initialize disk = (initialize lib outside.host disk).1
  run_call outside (call_host_sql admit namespace) disk =
      (host_sql_policy outside admit namespace disk).1
  run_call outside (call_commit_sql authorization) disk =
      (commit_host_sql outside authorization disk).1
  run_call outside (call_retire_sql authorization) disk = (retire_sql outside authorization disk).1
  run_call outside (call_retire_cache namespace) disk = (retire_host_cache outside namespace disk).1
  run_call outside (call_admit_pool is_worker namespace) disk =
      (admit_pool outside is_worker namespace disk).1

  -- The disk after some calls, each with what it finds outside.
  unfoldable pub run_registry : List (Outside × Call) → Disk → Disk
  unfolding run_call
  run_registry [] disk = disk
  run_registry ((outside, call) ∷ rest) disk = run_registry rest (run_call outside call disk)
