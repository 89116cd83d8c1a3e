-- ===== src/Service/Registry/Locked.antt =====
-- The SQL grants of a registry while it is locked, for the host's calls in
-- crates/wrix-service/src/control/mod.rs and a preparation job's registration in control/pool/mod.rs.
use wrix.Common.{
  if◌then◌else◌, ◌≡◌, refl, sym, ap, subst, ◌∙◌, inl, inr, Bool, true, false, Option, none, some,
  leb, length, Result, ok, err, ◌>>◌, Bool-cases,
}
use wrix.Common.Text.{Str, str_eq}
use wrix.Common.Maps.{lookup, contains_key, lookup-contains}
use wrix.Service.Registry.{
  Policy, denied_policy, Error, pool_request, Namespaces, Snapshot, max_namespaces, insert_entry,
  Disk, Writing, Host, Library, grants_sql, load_version, commit, after_lock, create_empty,
  read_locked, lock, prepare_sql,
}
use wrix.Service.Registry.Order.{IsOrdered, insert_entry-IsOrdered, lookup-insert_entry_other}
use wrix.Service.Registry.Held.{Holds, load_file-Holds, loaded, commit-Holds}
use wrix.Service.Registry.Grants.{insert_entry-grants}
use wrix.Service.Registry.Writers.{
  Outside, if_exists, update_found, update_locked, host_sql_locked, admit_pool_locked,
}

module _ (lib : Library) (decode-encode : (s : Snapshot) → lib.decode (lib.encode s) ≡ some s)
    (i : Str) where
  -- The disk holds a registry that grants the namespace SQL.
  abbrev pub Grants : Disk → Type 0
  Grants disk = (n : Namespaces) × Holds lib disk n × (grants_sql (lookup n i) ≡ true)

  pub commit-Grants :
      (writing : Writing) (m n : Namespaces) (disk : Disk)
      → Holds lib disk m
      → grants_sql (lookup m i) ≡ true
      → IsOrdered n
      → grants_sql (lookup n i) ≡ true
      → Grants (commit lib writing n disk).1
  commit-Grants writing m n disk h g o k = elim (commit-Holds lib decode-encode writing n disk o) [
    | inl (same, e, failed) ↦ subst Grants (sym same) (m, h, g)
    | inr holds ↦ (n, holds, k)
  ]

  pub insert-Grants :
      (writing : Writing) (namespace : Str) (p : Policy) (m : Namespaces) (disk : Disk)
      → Holds lib disk m
      → grants_sql (lookup m i) ≡ true
      → (str_eq namespace i ≡ true
          → grants_sql (lookup m namespace) ≡ true
          → grants_sql (some p) ≡ true)
      → Grants (commit lib writing (insert_entry namespace p m) disk).1
  insert-Grants writing namespace p m disk h g as_much =
      commit-Grants writing m (insert_entry namespace p m) disk h g
        (insert_entry-IsOrdered namespace p m h.ordered)
        (elim (Bool-cases (str_eq namespace i)) [
          | inl e ↦ insert_entry-grants namespace p m i (as_much e) g
          | inr e ↦ insert_entry-other-grants namespace p m e g
        ])
    where
      insert_entry-other-grants :
          (k : Str) (p : Policy) (m : Namespaces)
          → str_eq k i ≡ false
          → grants_sql (lookup m i) ≡ true
          → grants_sql (lookup (insert_entry k p m) i) ≡ true
      insert_entry-other-grants k p m e g = ap grants_sql (lookup-insert_entry_other k p m i e) ∙ g

  pub after_lock-Grants :
      (l : Result Error (Unit {0})) (disk : Disk) (next : Disk → Result Error (Unit {0}) × Disk)
      → Grants disk
      → Grants (next disk).1
      → Grants (after_lock lib l disk next).1
  after_lock-Grants (err e) disk next g k = g
  after_lock-Grants (ok u) disk next g k = k

  pub if_exists-Grants :
      (exists : Result Error Bool) (absent : Result Error (Unit {0})) (disk : Disk)
      (next : Disk → Result Error (Unit {0}) × Disk)
      → Grants disk
      → Grants (next disk).1
      → Grants (if_exists exists absent disk next).1
  if_exists-Grants (err e) absent disk next g k = g
  if_exists-Grants (ok false) absent disk next g k = g
  if_exists-Grants (ok true) absent disk next g k = k

  -- What the body of a locked call gives for the registry that the disk holds, it gives.
  pub lock-holds :
      (P : Result Error (Unit {0}) × Disk → Type 0) (host : Host) (disk : Disk) (m : Namespaces)
      (body : Result Error Namespaces × Disk → Result Error (Unit {0}) × Disk)
      → Holds lib disk m
      → ((r : Result Error Namespaces) (d : Disk)
          → Holds lib d m
          → ((n : Namespaces) → r ≡ ok n → n ≡ m)
          → P (body (r, d)))
      → P (body (lock lib host disk))
  unfolding lock
  lock-holds P host disk m body h gives =
      subst (λ d. P (body (lock lib host d))) (sym h.on_disk)
        (locked host.lock_file (subst (λ d. Holds lib d m) h.on_disk h))
    where
      locked :
          (l : Result Error (Unit {0}))
          → Holds lib (some h.file) m
          → P (body (read_locked lib host (after_lock lib l (some h.file) (create_empty lib host))))
      locked (err e) held = gives (err e) (some h.file) held (λ n q. cc)
      locked (ok u) held =
          gives (host.open_root >> load_version lib host false (some h.file)) (some h.file) held
            (λ n q. loaded lib host h.file m n (load_file-Holds lib disk m h) q)

  -- What is done under the lock keeps the grant, for the registry that the disk holds.
  abbrev KeepsLocked :
      Namespaces → (Result Error Namespaces × Disk → Result Error (Unit {0}) × Disk) → Type 0
  KeepsLocked m body =
      (r : Result Error Namespaces) (disk : Disk)
      → Holds lib disk m
      → ((n : Namespaces) → r ≡ ok n → n ≡ m)
      → Grants (body (r, disk)).1

  pub lock-Grants :
      (host : Host) (disk : Disk)
      (body : Result Error Namespaces × Disk → Result Error (Unit {0}) × Disk)
      → ((m : Namespaces) → grants_sql (lookup m i) ≡ true → KeepsLocked m body)
      → Grants disk
      → Grants (body (lock lib host disk)).1
  lock-Grants host disk body keeps (m, h, g) =
      lock-holds (λ out. Grants out.1) host disk m body h (keeps m g)

  pub update_locked-Keeps :
      (host : Host) (namespace : Str) (change : Policy → Policy) (absent : Result Error (Unit {0}))
      (m : Namespaces)
      → ((p : Policy)
          → str_eq namespace i ≡ true
          → grants_sql (some p) ≡ true
          → grants_sql (some (change p)) ≡ true)
      → grants_sql (lookup m i) ≡ true
      → KeepsLocked m (update_locked lib host namespace change absent)
  update_locked-Keeps host namespace change absent m as_much g (err e) disk h same = (m, h, g)
  update_locked-Keeps host namespace change absent m as_much g (ok n) disk h same =
      subst (λ n. Grants (update_locked lib host namespace change absent (ok n, disk)).1)
        (sym (same n refl)) (found (lookup m namespace) refl)
    where
      found :
          (o : Option Policy)
          → lookup m namespace ≡ o
          → Grants (update_found lib host namespace change absent m disk o).1
      found none e = (m, h, g)
      found (some p) e =
          insert-Grants host.writing namespace (change p) m disk h g
            (λ at granted. as_much p at (sym (ap grants_sql e) ∙ granted))

  -- A namespace that is added without grants takes none away.
  insert_absent-Grants :
      (writing : Writing) (namespace : Str) (m : Namespaces) (disk : Disk)
      → Holds lib disk m
      → grants_sql (lookup m i) ≡ true
      → contains_key m namespace ≡ false
      → Grants (commit lib writing (insert_entry namespace denied_policy m) disk).1
  insert_absent-Grants writing namespace m disk h g new =
      insert-Grants writing namespace denied_policy m disk h g (λ at granted.
        let nothing : grants_sql (lookup m namespace) ≡ false =
          ap grants_sql (lookup-contains m namespace new) in
        absurd cc)

  prepare_sql-Grants :
      (writing : Writing) (namespace : Str) (m : Namespaces) (disk : Disk)
      → Holds lib disk m
      → grants_sql (lookup m i) ≡ true
      → Grants (prepare_sql lib writing namespace m disk).1
  unfolding prepare_sql
  prepare_sql-Grants writing namespace m disk h g = elim (Bool-cases (contains_key m namespace)) [
    | inl e ↦ rw e (m, h, g)
    | inr e ↦ elim (Bool-cases (leb max_namespaces (length m))) [
      | inl f ↦ rw (e, f) (m, h, g)
      | inr f ↦ rw (e, f) (insert_absent-Grants writing namespace m disk h g e)
    ]
  ]

  pub host_sql-Keeps :
      (host : Host) (admit : Bool) (namespace : Str) (m : Namespaces)
      → grants_sql (lookup m i) ≡ true
      → KeepsLocked m (host_sql_locked lib host admit namespace)
  host_sql-Keeps host admit namespace m g (err e) disk h same = (m, h, g)
  host_sql-Keeps host false namespace m g (ok n) disk h same = (m, h, g)
  host_sql-Keeps host true namespace m g (ok n) disk h same =
      subst (λ n. Grants (prepare_sql lib host.writing namespace n disk).1) (sym (same n refl))
        (prepare_sql-Grants host.writing namespace m disk h g)

  pub admit_pool-Keeps :
      (outside : Outside) (is_worker : Bool) (namespace : Str) (m : Namespaces)
      → grants_sql (lookup m i) ≡ true
      → KeepsLocked m (admit_pool_locked lib outside is_worker namespace)
  admit_pool-Keeps outside is_worker namespace m g (err e) disk h same = (m, h, g)
  admit_pool-Keeps outside is_worker namespace m g (ok n) disk h same =
      subst (λ n. Grants (admit_pool_locked lib outside is_worker namespace (ok n, disk)).1)
        (sym (same n refl)) (admitted is_worker)
    where
      full :
          (d : Disk)
          → d ≡ disk
          → contains_key m namespace ≡ false
          → Grants
              (if leb max_namespaces (length m)
                then (err pool_request, d)
                else commit lib outside.host.writing (insert_entry namespace denied_policy m) d).1
      full d q e = elim (Bool-cases (leb max_namespaces (length m))) [
        | inl f ↦ rw f (subst Grants (sym q) (m, h, g))
        | inr f ↦ rw f (
            insert_absent-Grants outside.host.writing namespace m d
              (subst (λ d. Holds lib d m) (sym q) h) g e)
      ]

      admitted :
          (is_worker : Bool)
          → Grants (admit_pool_locked lib outside is_worker namespace (ok m, disk)).1
      admitted is_worker = elim (Bool-cases (contains_key m namespace)) [
        | inl e ↦ rw e (m, h, g)
        | inr e ↦ elim (Bool-cases is_worker) [
          | inl f ↦
              rw (e, f) (after_lock-Grants outside.recheck disk _ (m, h, g) (full disk refl e))
          | inr f ↦ rw (e, f) (m, h, g)
        ]
      ]
