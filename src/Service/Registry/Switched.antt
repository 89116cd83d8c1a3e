-- ===== src/Service/Registry/Switched.antt =====
-- What the host's commits and retirements of SQL do, crates/wrix-service/src/control/mod.rs.
use wrix.Common.{
  ◌≡◌, refl, sym, subst, inl, inr, false, not, ◌&&◌, Option, none, some, Result, ok, err,
  Bool-cases,
}
use wrix.Common.Text.{Str, str_eq}
use wrix.Common.Maps.{lookup}
use wrix.Service.Registry.{
  Access, allowed, denied, Policy, Error, unknown_namespace, Namespaces, Snapshot, insert_entry,
  Disk, Host, Library, commit, after_lock, lock,
}
use wrix.Service.Registry.Order.{
  insert_entry-IsOrdered, lookup-insert_entry_self, lookup-insert_entry_other,
}
use wrix.Service.Registry.Held.{Holds, commit-Holds}
use wrix.Service.Registry.Locked.{lock-holds}
use wrix.Service.Registry.Writers.{
  Outside, Authorization, with_dolt, update_found, update_locked, commit_sql_registration,
  commit_host_sql, retire_sql,
}

-- The host's call that sets the access of a namespace to SQL.
abbrev pub switch_sql :
    Library → Access → Outside → Authorization → Disk → Result Error (Unit {0}) × Disk
switch_sql lib allowed outside authorization disk = commit_host_sql lib outside authorization disk
switch_sql lib denied outside authorization disk = retire_sql lib outside authorization disk

module _ (lib : Library) (access : Access) (m : Namespaces) (namespace : Str) where
  -- The disk holds the registry in which the namespace, which it had, has the access, and nothing else
  -- has changed.
  pub record IsSwitched (disk : Disk) : Type 0 where
    pub after : Namespaces
    pub before : Policy
    pub held : Holds lib disk after
    pub had : lookup m namespace ≡ some before
    pub has : lookup after namespace ≡ some (with_dolt access before)
    pub others : (j : Str) → str_eq namespace j ≡ false → lookup after j ≡ lookup m j

  abbrev IsDone : Result Error (Unit {0}) × Disk → Type 0
  IsDone (err e, disk) = Unit {0}
  IsDone (ok u, disk) = IsSwitched disk

  after_lock-IsDone :
      (l : Result Error (Unit {0})) (disk : Disk) (next : Disk → Result Error (Unit {0}) × Disk)
      → IsDone (next disk)
      → IsDone (after_lock lib l disk next)
  after_lock-IsDone (err e) disk next h = tt
  after_lock-IsDone (ok u) disk next h = h

  switched-IsDone : (r : Result Error (Unit {0})) (disk : Disk) → IsSwitched disk → IsDone (r, disk)
  switched-IsDone (err e) disk h = tt
  switched-IsDone (ok u) disk h = h

  module _ (decode-encode : (s : Snapshot) → lib.decode (lib.encode s) ≡ some s) where
    update_found-IsDone :
        (host : Host) (disk : Disk) (o : Option Policy)
        → Holds lib disk m
        → lookup m namespace ≡ o
        → IsDone
            (update_found lib host namespace (with_dolt access) (err unknown_namespace) m disk o)
    update_found-IsDone host disk none h e = tt
    update_found-IsDone host disk (some p) h e =
        let n = insert_entry namespace (with_dolt access p) m in
        let out = commit lib host.writing n disk in
        elim (commit-Holds lib decode-encode host.writing n disk
          (insert_entry-IsOrdered namespace (with_dolt access p) m h.ordered)) [
            | inl (same, failure, failed) ↦ subst (λ r. IsDone (r, out.1)) (sym failed) tt
            | inr holds ↦ switched-IsDone out.0 out.1 (record {
              after = n;
              before = p;
              held = holds;
              had = e;
              has = lookup-insert_entry_self namespace (with_dolt access p) m;
              others = lookup-insert_entry_other namespace (with_dolt access p) m;
            })
          ]

    update_locked-IsDone :
        (host : Host) (r : Result Error Namespaces) (disk : Disk)
        → Holds lib disk m
        → ((n : Namespaces) → r ≡ ok n → n ≡ m)
        → IsDone
            (update_locked lib host namespace (with_dolt access) (err unknown_namespace) (r, disk))
    update_locked-IsDone host (err e) disk h same = tt
    update_locked-IsDone host (ok n) disk h same =
        subst
          (λ n. IsDone (
            update_locked lib host namespace (with_dolt access) (err unknown_namespace)
              (ok n, disk)))
          (sym (same n refl)) (update_found-IsDone host disk (lookup m namespace) h refl)

    locked-IsDone :
        (host : Host) (disk : Disk)
        → Holds lib disk m
        → IsDone (
            update_locked lib host namespace
              (with_dolt access)
              (err unknown_namespace)
              (lock lib host disk))
    locked-IsDone host disk h =
        lock-holds lib decode-encode namespace IsDone host disk m
          (update_locked lib host namespace (with_dolt access) (err unknown_namespace)) h
          (update_locked-IsDone host)

switch_sql-IsDone :
    (lib : Library) (decode-encode : (s : Snapshot) → lib.decode (lib.encode s) ≡ some s)
    (access : Access) (outside : Outside) (authorization : Authorization) (m : Namespaces)
    (disk : Disk)
    → Holds lib disk m
    → IsDone lib access m authorization.namespace (switch_sql lib access outside authorization disk)
unfolding commit_host_sql commit_sql_registration retire_sql
switch_sql-IsDone lib decode-encode allowed outside authorization m disk h =
    elim (Bool-cases (not (authorization.is_host && authorization.is_sql))) [
      | inl e ↦ rw e tt
      | inr e ↦ rw e (
          after_lock-IsDone lib allowed m authorization.namespace outside.credentials disk _ (
            after_lock-IsDone lib allowed m authorization.namespace outside.opened disk _ (
              locked-IsDone lib allowed m authorization.namespace decode-encode outside.host disk
                h)))
    ]
switch_sql-IsDone lib decode-encode denied outside authorization m disk h =
    elim (Bool-cases (not authorization.is_host)) [
      | inl e ↦ rw e tt
      | inr e ↦ rw e (
          after_lock-IsDone lib denied m authorization.namespace outside.opened disk _
            (locked-IsDone lib denied m authorization.namespace decode-encode outside.host disk h))
    ]

-- A commit or a retirement of SQL by the host that succeeds on a disk that held a registry: the
-- registry had the namespace, and the disk holds the registry in which the namespace's policy is as
-- before but for SQL, which is allowed after a commit and denied after a retirement, and where every
-- other namespace is as before. JSON reads back what it printed.
pub switch_sql-IsSwitched :
    (lib : Library)
    → ((s : Snapshot) → lib.decode (lib.encode s) ≡ some s)
    → (access : Access) (outside : Outside) (authorization : Authorization) (m : Namespaces)
      (disk after : Disk)
    → Holds lib disk m
    → switch_sql lib access outside authorization disk ≡ (ok tt, after)
    → IsSwitched lib access m authorization.namespace after
switch_sql-IsSwitched lib decode-encode access outside authorization m disk after h done =
    subst (IsDone lib access m authorization.namespace) done
      (switch_sql-IsDone lib decode-encode access outside authorization m disk h)
