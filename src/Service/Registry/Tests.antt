-- ===== src/Service/Registry/Tests.antt =====
-- The registry of namespaces on concrete inputs.
use wrix.Common.{
  ℕ, zero, suc, ◌≡◌, refl, true, false, List, [], ◌∷◌, ◌++◌, Option, none, some, length, take, drop,
  ok, err, ◌≢◌,
}
use wrix.Common.Lists.{take-append, drop-append}
use wrix.Common.Text.{Str, str_eq, str_eq_iff, codes}
use wrix.Common.Maps.{lookup}
use wrix.Service.Registry
use wrix.Service.Registry.{
  Access, allowed, denied, Policy, denied_policy, Error, io, Namespaces, Snapshot, File, Disk,
  Writing, not_synced, written, Host, Library, Operation, inspect, register, admit_cache, retire,
  Reply, applied, conflict, decide, apply_operation, initialize, load_version, registry_upgrade,
  grants_sql,
}
use wrix.Service.Registry.Held.{Holds, IsOutcome, apply_operation-Holds}
use wrix.Service.Registry.Kept.{AllSpare, sql_grant_kept}
use wrix.Service.Registry.Switched.{IsSwitched, switch_sql, switch_sql-IsSwitched}
use wrix.Service.Registry.Writers.{
  Outside, Authorization, Call, call_apply, call_host_sql, call_commit_sql, call_retire_sql,
  call_retire_cache, call_admit_pool, run_registry,
}
use wrix.Service.Registry.Registers.{register_new}
use wrix.Service.Registry.Upgrade.{IsLegacy, IsHealthy, initialize-upgrades}

abbrev access_code : Access → ℕ
access_code allowed = 1
access_code denied = 0

abbrev code_access : ℕ → Access
code_access zero = denied
code_access (suc n) = allowed

abbrev print_policy : Policy → Str → Str
print_policy p rest =
    access_code p.dolt
    ∷ access_code p.private_cache_read
    ∷ access_code p.common_cache_read
    ∷ access_code p.egress
    ∷ access_code p.compiler
    ∷ rest

abbrev print_entries : Namespaces → Str
print_entries [] = []
print_entries ((k, p) ∷ m) = length k ∷ (k ++ print_policy p (print_entries m))

abbrev print_snapshot : Snapshot → Str
print_snapshot s = s.version ∷ length s.entries ∷ print_entries s.entries

abbrev cons_entry : Str → Policy → Option Namespaces → Option Namespaces
cons_entry k p none = none
cons_entry k p (some m) = some ((k, p) ∷ m)

abbrev read_policy : Str → (Str → Option Namespaces) → Str → Option Namespaces
read_policy k rest (a ∷ b ∷ c ∷ d ∷ e ∷ more) =
    cons_entry k
      (record {
        dolt = code_access a;
        private_cache_read = code_access b;
        common_cache_read = code_access c;
        egress = code_access d;
        compiler = code_access e;
      })
      (rest more)
read_policy k rest _ = none

abbrev read_entries : ℕ → Str → Option Namespaces
read_entries zero text = some []
read_entries (suc n) [] = none
read_entries (suc n) (l ∷ text) = read_policy (take l text) (read_entries n) (drop l text)

abbrev with_version : ℕ → Option Namespaces → Option Snapshot
with_version version none = none
with_version version (some m) = some (record { version = version; entries = m })

abbrev read_snapshot : Str → Option Snapshot
read_snapshot (version ∷ n ∷ text) = with_version version (read_entries n text)
read_snapshot _ = none

code_access-access_code : (a : Access) → code_access (access_code a) ≡ a
code_access-access_code allowed = refl
code_access-access_code denied = refl

read_entries-print_entries : (m : Namespaces) → read_entries (length m) (print_entries m) ≡ some m
read_entries-print_entries [] = refl
read_entries-print_entries ((k, p) ∷ m) =
    let rest = print_policy p (print_entries m) in
    simp (
      take-append k rest,
      drop-append k rest,
      read_entries-print_entries m,
      code_access-access_code,
    )

read_snapshot-print_snapshot : (s : Snapshot) → read_snapshot (print_snapshot s) ≡ some s
read_snapshot-print_snapshot s = simp (read_entries-print_entries s.entries)

abbrev library : Library
library = record { encode = print_snapshot; decode = read_snapshot; uid = 7 }

abbrev host : Host
host = record {
  lease = ok tt;
  lock_file = ok tt;
  acquire_ownership = ok tt;
  open_root = ok tt;
  read_file = ok tt;
  first_writing = written;
  writing = written;
}

-- A system that cannot synchronise the directory.
abbrev unsynced : Host
unsynced = record host { writing = not_synced io }

abbrev name_a : Str
name_a = codes "a"

abbrev name_b : Str
name_b = codes "b"

abbrev sql_policy : Policy
sql_policy = record denied_policy { dolt = allowed }

abbrev one_namespace : Namespaces
one_namespace = (name_b, sql_policy) ∷ []

abbrev disk : Disk
disk = some (Registry.written_file library one_namespace)

disk-Holds : Holds library disk one_namespace
disk-Holds = record {
  file = Registry.written_file library one_namespace;
  on_disk = refl;
  owned = refl;
  fits = refl;
  decoded = refl;
  ordered = (tt, tt);
  few = refl;
}

abbrev both : Namespaces
both = (name_a, denied_policy) ∷ one_namespace

registers :
    apply_operation library host (register name_a denied_policy) disk
    ≡ (ok applied, some (Registry.written_file library both))
unfolding apply_operation Registry.lock Registry.load_version Registry.load_file
    Registry.insert_entries Registry.commit decide
registers = refl

-- The error leaves the new registry on the disk.
registers_unsynced :
    apply_operation library unsynced (register name_a denied_policy) disk
    ≡ (err io, some (Registry.written_file library both))
unfolding apply_operation Registry.lock Registry.load_version Registry.load_file
    Registry.insert_entries Registry.commit decide
registers_unsynced = refl

apply_operation-Holds_example :
    (n : Namespaces) × Holds library (apply_operation library unsynced (retire name_b) disk).1 n
    × IsOutcome
        (retire name_b)
        one_namespace
        (apply_operation library unsynced (retire name_b) disk).0
        n
apply_operation-Holds_example =
    apply_operation-Holds library read_snapshot-print_snapshot unsynced (retire name_b)
      one_namespace disk disk-Holds

abbrev outside : Outside
outside = record {
  host = host;
  selected = ok tt;
  credentials = ok tt;
  exists = ok true;
  directory = ok tt;
  opened = ok tt;
  recheck = ok tt;
}

abbrev authorized : Str → Authorization
authorized name = record { is_host = true; is_sql = true; namespace = name }

abbrev calls : List (Outside × Call)
calls =
    (record outside { host = unsynced }, call_apply (register name_a denied_policy))
    ∷ (outside, call_apply (retire name_b))
    ∷ (outside, call_apply (admit_cache name_b))
    ∷ (outside, call_commit_sql (authorized name_a))
    ∷ (outside, call_retire_sql (authorized name_a))
    ∷ (outside, call_retire_cache name_b)
    ∷ (outside, call_admit_pool true (codes "c"))
    ∷ []

-- The host grants a namespace SQL.
granted :
    run_registry library
      ((outside, call_host_sql true name_a) ∷ (outside, call_commit_sql (authorized name_a)) ∷ [])
      disk
    ≡ some (Registry.written_file library ((name_a, sql_policy) ∷ one_namespace))
unfolding run_registry
granted = refl

-- The host takes the grant back.
retired_by_host :
    run_registry library ((outside, call_retire_sql (authorized name_b)) ∷ []) disk
    ≡ some (Registry.written_file library ((name_b, denied_policy) ∷ []))
unfolding run_registry
retired_by_host = refl

retired :
    switch_sql library denied outside (authorized name_b) disk
    ≡ (ok tt, some (Registry.written_file library ((name_b, denied_policy) ∷ [])))
unfolding Registry.Writers.retire_sql
retired = refl

switch_sql-IsSwitched_example :
    IsSwitched library denied one_namespace name_b
      (some (Registry.written_file library ((name_b, denied_policy) ∷ [])))
switch_sql-IsSwitched_example =
    switch_sql-IsSwitched library read_snapshot-print_snapshot denied outside (authorized name_b)
      one_namespace disk (some (Registry.written_file library ((name_b, denied_policy) ∷ [])))
      disk-Holds retired

spared : AllSpare name_b calls
spared = (
  tt,
  (tt, (tt, (tt, ((λ same. other_name ((str_eq_iff name_a name_b).1 same)), (tt, (tt, tt)))))),
)
  where
    other_name : str_eq name_a name_b ≢ true
    other_name e = cc

sql_grant_kept_example :
    (n : Namespaces) × (load_version library host false (run_registry library calls disk) ≡ ok n)
    × (grants_sql (lookup n name_b) ≡ true)
sql_grant_kept_example =
    sql_grant_kept library read_snapshot-print_snapshot calls disk one_namespace name_b host spared
      disk-Holds refl refl

abbrev legacy_file : File
legacy_file = record (Registry.written_file library both) {
  content = print_snapshot (record { version = 1; entries = both });
}

both-IsOrdered : Registry.Order.IsOrdered both
both-IsOrdered = ((refl, tt), (tt, tt))

legacy_file-IsLegacy : IsLegacy library legacy_file both
legacy_file-IsLegacy = record {
  owned = refl;
  fits = refl;
  decoded = refl;
  ordered = both-IsOrdered;
  few = refl;
}

host-IsHealthy : IsHealthy host
host-IsHealthy = record { leases = refl; opens = refl; locks = refl; reads = refl; writes = refl }

initialize-upgrades_example :
    (load_version library host false (some legacy_file) ≡ err registry_upgrade)
    × ((initialize library host (some legacy_file)).0 ≡ ok tt)
    × (load_version library host false (initialize library host (some legacy_file)).1 ≡ ok both)
initialize-upgrades_example =
    initialize-upgrades library host legacy_file both read_snapshot-print_snapshot host-IsHealthy
      legacy_file-IsLegacy refl

register_new_example :
    (n : Namespaces) × (apply_operation library host (register name_a denied_policy) disk
      ≡ (ok applied, some (Registry.written_file library n)))
    × (load_version library host false (some (Registry.written_file library n)) ≡ ok n)
    × (lookup n name_a ≡ some denied_policy)
    × ((i : Str) → str_eq name_a i ≡ false → lookup n i ≡ lookup one_namespace i)
register_new_example =
    register_new library read_snapshot-print_snapshot host name_a denied_policy one_namespace disk
      host-IsHealthy disk-Holds refl refl refl
