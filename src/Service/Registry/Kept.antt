-- ===== src/Service/Registry/Kept.antt =====
-- The SQL grants of a registry over sequences of the calls that write it, which are those of the
-- controller and of the host in crates/wrix-service/src/control/mod.rs, and a preparation job's.
use wrix.Common.{
  ◌≡◌, ◌≢◌, refl, sym, subst, inl, inr, Bool, true, false, not, ◌&&◌, List, [], ◌∷◌, some, Result,
  ok, err, ◌>>◌, Bool-cases,
}
use wrix.Common.Text.{Str, str_eq_iff}
use wrix.Common.Maps.{lookup}
use wrix.Service.Registry.{
  allowed, denied, Error, private_root, registry_upgrade, frame_limit, invalid_registration,
  permission_denied, unknown_namespace, pool_request, io, json, Namespaces, Snapshot, File, Disk,
  Host, Library, Operation, grants_sql, load_file, load_version, initialize_from, initialize,
  apply_operation,
}
use wrix.Service.Registry.Held.{Holds, load_file-Holds, load_version-Holds, apply_operation-Holds}
use wrix.Service.Registry.Grants.{outcome-grants}
use wrix.Service.Registry.Locked.{
  Grants, after_lock-Grants, if_exists-Grants, lock-Grants, update_locked-Keeps, host_sql-Keeps,
  admit_pool-Keeps,
}
use wrix.Service.Registry.Writers.{
  Outside, Authorization, with_dolt, without_cache, Call, call_apply, call_initialize,
  call_host_sql, call_commit_sql, call_retire_sql, call_retire_cache, call_admit_pool,
  update_locked, commit_sql_registration, commit_host_sql, retire_sql, retire_host_cache,
  host_sql_locked, host_sql_store, host_sql_directory, host_sql_policy, admit_pool_locked,
  admit_pool, run_call, run_registry,
}

-- The call is no retirement of the namespace's SQL by the host.
abbrev pub Spares : Str → Call → Type 0
Spares i (call_apply operation) = Unit {0}
Spares i call_initialize = Unit {0}
Spares i (call_host_sql admit namespace) = Unit {0}
Spares i (call_commit_sql authorization) = Unit {0}
Spares i (call_retire_sql authorization) = authorization.namespace ≢ i
Spares i (call_retire_cache namespace) = Unit {0}
Spares i (call_admit_pool is_worker namespace) = Unit {0}

abbrev pub AllSpare : Str → List (Outside × Call) → Type 0
AllSpare i [] = Unit {0}
AllSpare i ((outside, call) ∷ calls) = Spares i call × AllSpare i calls

module _ (lib : Library) (decode-encode : (s : Snapshot) → lib.decode (lib.encode s) ≡ some s)
    (i : Str) where
  initialized :
      (host : Host) (file : File) (m : Namespaces) (r : Result Error (Unit {0}))
      → host.read_file ≡ r
      → load_file lib false file ≡ ok m
      → (initialize_from lib host (some file) (r >> load_file lib false file)).1 ≡ some file
  unfolding load_version
  initialized host file m (ok u) e loads = simp loads
  initialized host file m (err registry_upgrade) e loads = simp e
  initialized host file m (err private_root) e loads = refl
  initialized host file m (err frame_limit) e loads = refl
  initialized host file m (err invalid_registration) e loads = refl
  initialized host file m (err permission_denied) e loads = refl
  initialized host file m (err unknown_namespace) e loads = refl
  initialized host file m (err pool_request) e loads = refl
  initialized host file m (err io) e loads = refl
  initialized host file m (err json) e loads = refl

  initialize-Grants :
      (host : Host) (disk : Disk)
      → Grants lib decode-encode i disk
      → Grants lib decode-encode i (initialize lib host disk).1
  unfolding initialize load_version
  initialize-Grants host disk (m, h, g) =
      subst (λ d. Grants lib decode-encode i (initialize lib host d).1) (sym h.on_disk)
        (after_lock-Grants lib decode-encode i host.lock_file (some h.file) _ held
          (subst (Grants lib decode-encode i) (sym same) held))
    where
      held : Grants lib decode-encode i (some h.file)
      held = subst (Grants lib decode-encode i) h.on_disk (m, h, g)

      same :
          (initialize_from lib host (some h.file) (load_version lib host false (some h.file))).1
          ≡ some h.file
      same = initialized host h.file m host.read_file refl (load_file-Holds lib disk m h)

  apply-Grants :
      (host : Host) (operation : Operation) (disk : Disk)
      → Grants lib decode-encode i disk
      → Grants lib decode-encode i (apply_operation lib host operation disk).1
  apply-Grants host operation disk (m, h, g) =
      let (n, holds, outcome) = apply_operation-Holds lib decode-encode host operation m disk h in
      (
        n,
        holds,
        outcome-grants operation m n (apply_operation lib host operation disk).0 i outcome g,
      )

  commit_sql-Grants :
      (outside : Outside) (authorization : Authorization) (disk : Disk)
      → Grants lib decode-encode i disk
      → Grants lib decode-encode i (commit_host_sql lib outside authorization disk).1
  unfolding commit_host_sql commit_sql_registration
  commit_sql-Grants outside authorization disk g =
      elim (Bool-cases (not (authorization.is_host && authorization.is_sql))) [
        | inl e ↦ rw e g
        | inr e ↦ rw e (
            after_lock-Grants lib decode-encode i outside.credentials disk _ g (
              after_lock-Grants lib decode-encode i outside.opened disk _ g (
                lock-Grants lib decode-encode i outside.host disk
                  (update_locked lib outside.host authorization.namespace (with_dolt allowed)
                    (err unknown_namespace))
                  (λ m.
                    update_locked-Keeps lib decode-encode i outside.host authorization.namespace
                      (with_dolt allowed) (err unknown_namespace) m (λ p at h. refl))
                  g)))
      ]

  retire_sql-Grants :
      (outside : Outside) (authorization : Authorization) (disk : Disk)
      → authorization.namespace ≢ i
      → Grants lib decode-encode i disk
      → Grants lib decode-encode i (retire_sql lib outside authorization disk).1
  unfolding retire_sql
  retire_sql-Grants outside authorization disk ne g =
      elim (Bool-cases (not authorization.is_host)) [
        | inl e ↦ rw e g
        | inr e ↦ rw e (
            after_lock-Grants lib decode-encode i outside.opened disk _ g (
              lock-Grants lib decode-encode i outside.host disk
                (update_locked lib outside.host authorization.namespace (with_dolt denied)
                  (err unknown_namespace))
                (λ m.
                  update_locked-Keeps lib decode-encode i outside.host authorization.namespace
                    (with_dolt denied) (err unknown_namespace) m
                    (λ p at h. absurd (ne ((str_eq_iff authorization.namespace i).0 at))))
                g))
      ]

  retire_cache-Grants :
      (outside : Outside) (namespace : Str) (disk : Disk)
      → Grants lib decode-encode i disk
      → Grants lib decode-encode i (retire_host_cache lib outside namespace disk).1
  unfolding retire_host_cache
  retire_cache-Grants outside namespace disk g =
      after_lock-Grants lib decode-encode i outside.selected disk _ g (
        if_exists-Grants lib decode-encode i outside.exists (ok tt) disk _ g (
          after_lock-Grants lib decode-encode i outside.opened disk _ g (
            after_lock-Grants lib decode-encode i outside.host.lease disk _ g (
              lock-Grants lib decode-encode i outside.host disk
                (update_locked lib outside.host namespace without_cache (ok tt))
                (λ m.
                  update_locked-Keeps lib decode-encode i outside.host namespace without_cache
                    (ok tt) m (λ p at h. h))
                g))))

  host_sql-Grants :
      (outside : Outside) (admit : Bool) (namespace : Str) (disk : Disk)
      → Grants lib decode-encode i disk
      → Grants lib decode-encode i (host_sql_policy lib outside admit namespace disk).1
  unfolding host_sql_policy
  host_sql-Grants outside admit namespace disk g =
      after_lock-Grants lib decode-encode i outside.selected disk _ g (directory admit)
    where
      store :
          (admit : Bool)
          → Grants lib decode-encode i (host_sql_store lib outside admit namespace disk).1
      store admit = after_lock-Grants lib decode-encode i outside.opened disk _ g (
          after_lock-Grants lib decode-encode i outside.host.lease disk _ g (
            lock-Grants lib decode-encode i outside.host disk
              (host_sql_locked lib outside.host admit namespace)
              (host_sql-Keeps lib decode-encode i outside.host admit namespace) g))

      directory :
          (admit : Bool)
          → Grants lib decode-encode i
              (host_sql_directory lib outside admit disk
                (host_sql_store lib outside admit namespace)).1
      directory true = after_lock-Grants lib decode-encode i outside.directory disk _ g (store true)
      directory false =
          if_exists-Grants lib decode-encode i outside.exists (err permission_denied) disk _ g
            (store false)

  admit_pool-Grants :
      (outside : Outside) (is_worker : Bool) (namespace : Str) (disk : Disk)
      → Grants lib decode-encode i disk
      → Grants lib decode-encode i (admit_pool lib outside is_worker namespace disk).1
  unfolding admit_pool
  admit_pool-Grants outside is_worker namespace disk g =
      after_lock-Grants lib decode-encode i outside.opened disk _ g (
        after_lock-Grants lib decode-encode i outside.host.lease disk _ g (
          lock-Grants lib decode-encode i outside.host disk
            (admit_pool_locked lib outside is_worker namespace)
            (admit_pool-Keeps lib decode-encode i outside is_worker namespace) g))

  run_call-Grants :
      (outside : Outside) (call : Call) (disk : Disk)
      → Spares i call
      → Grants lib decode-encode i disk
      → Grants lib decode-encode i (run_call lib outside call disk)
  unfolding run_call
  run_call-Grants outside (call_apply operation) disk s g =
      apply-Grants outside.host operation disk g
  run_call-Grants outside call_initialize disk s g = initialize-Grants outside.host disk g
  run_call-Grants outside (call_host_sql admit namespace) disk s g =
      host_sql-Grants outside admit namespace disk g
  run_call-Grants outside (call_commit_sql authorization) disk s g =
      commit_sql-Grants outside authorization disk g
  run_call-Grants outside (call_retire_sql authorization) disk s g =
      retire_sql-Grants outside authorization disk s g
  run_call-Grants outside (call_retire_cache namespace) disk s g =
      retire_cache-Grants outside namespace disk g
  run_call-Grants outside (call_admit_pool is_worker namespace) disk s g =
      admit_pool-Grants outside is_worker namespace disk g

  run_registry-Grants :
      (calls : List (Outside × Call)) (disk : Disk)
      → AllSpare i calls
      → Grants lib decode-encode i disk
      → Grants lib decode-encode i (run_registry lib calls disk)
  unfolding run_registry
  run_registry-Grants [] disk s g = g
  run_registry-Grants ((outside, call) ∷ calls) disk (s, rest) g =
      run_registry-Grants calls (run_call lib outside call disk) rest
        (run_call-Grants outside call disk s g)

-- A namespace that the registry grants SQL keeps the grant over every sequence of the controller's
-- operations, upgrades, the host's calls that prepare, read, commit or retire SQL or retire a cache,
-- and the registrations of preparation jobs, whatever the system answers in each, when none of them
-- is the host's retirement of this namespace's SQL: what the registry's file holds afterwards is
-- read, and grants it. JSON reads back what it printed, and the disk held the registry.
pub sql_grant_kept :
    (lib : Library)
    → ((s : Snapshot) → lib.decode (lib.encode s) ≡ some s)
    → (calls : List (Outside × Call)) (disk : Disk) (m : Namespaces) (namespace : Str)
      (later : Host)
    → AllSpare namespace calls
    → Holds lib disk m
    → grants_sql (lookup m namespace) ≡ true
    → later.read_file ≡ ok tt
    → (n : Namespaces) × (load_version lib later false (run_registry lib calls disk) ≡ ok n)
      × (grants_sql (lookup n namespace) ≡ true)
sql_grant_kept lib decode-encode calls disk m namespace later s h g ready =
    let (n, holds, grants) =
      run_registry-Grants lib decode-encode namespace calls disk s (m, h, g) in
    (n, load_version-Holds lib later (run_registry lib calls disk) n holds ready, grants)
