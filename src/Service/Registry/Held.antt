-- ===== src/Service/Registry/Held.antt =====
-- What the disk holds of the registry over a call of crates/wrix-service/src/control/mod.rs.
use wrix.Common.{
  ◌≡◌, refl, sym, ap, subst, ◌∙◌, ◌⊎◌, inl, inr, true, false, not, ◌&&◌, ◌||◌, Option, none, some,
  ◌==◌, leb, ltb, length, arith, Result, ok, err, ◌>>◌, bind-ok, ok-injective, Bool-cases,
}
use wrix.Common.Maps.{lookup, contains_key, remove_key}
use wrix.Service.Registry.{
  Policy, Error, Namespaces, Snapshot, current_version, max_frame, max_namespaces, insert_entry,
  File, Disk, Writing, not_written, not_synced, written, Host, Library, Operation, inspect,
  register, admit_cache, retire, Reply, applied, capacity, Decision, reply_with, commit_first,
  register_decision, policy_or_denied, with_cache, grants_sql, decide, lease_for, is_owned,
  load_file, load_version, written_file, write, commit, after_lock, create_empty, read_locked, lock,
  applied_after, carry_out, decide_locked, with_lease, apply_operation,
}
use wrix.Service.Registry.Order.{
  IsOrdered, insert_entry-IsOrdered, remove_key-IsOrdered, insert_entries-IsOrdered,
}

-- What a commit asks for.
decide-IsOrdered :
    (operation : Operation) (m n : Namespaces)
    → IsOrdered m
    → decide operation m ≡ ok (commit_first n)
    → IsOrdered n
unfolding decide
decide-IsOrdered inspect m n o h = cc
decide-IsOrdered (register namespace policy) m n o h = registered (lookup m namespace) h
  where
    registered :
        (found : Option Policy)
        → ◌≡◌ {A = Result Error Decision}
            (ok (register_decision namespace policy m found))
            (ok (commit_first n))
        → IsOrdered n
    registered (some existing) k = cc
    registered none k = elim (Bool-cases (length m == max_namespaces)) [
      | inl e ↦
          let full : ◌≡◌ {A = Result Error Decision} (ok (reply_with capacity))
              (ok (commit_first n)) =
            rw e at k in
          absurd cc
      | inr e ↦
          let put : ◌≡◌ {A = Result Error Decision}
              (ok (commit_first (insert_entry namespace policy m))) (ok (commit_first n)) =
            rw e at k in
          let same : insert_entry namespace policy m ≡ n = cc in
          subst IsOrdered same (insert_entry-IsOrdered namespace policy m o)
    ]
decide-IsOrdered (admit_cache namespace) m n o h =
    elim (Bool-cases (not (contains_key m namespace) && leb max_namespaces (length m))) [
      | inl e ↦
          let full : ◌≡◌ {A = Result Error Decision} (ok (reply_with capacity))
              (ok (commit_first n)) =
            rw e at h in
          absurd cc
      | inr e ↦
          let p = with_cache (policy_or_denied (lookup m namespace)) in
          let put : ◌≡◌ {A = Result Error Decision} (ok (commit_first (insert_entry namespace p m)))
              (ok (commit_first n)) =
            rw e at h in
          let same : insert_entry namespace p m ≡ n = cc in
          subst IsOrdered same (insert_entry-IsOrdered namespace p m o)
    ]
decide-IsOrdered (retire namespace) m n o h = elim (Bool-cases (grants_sql (lookup m namespace))) [
  | inl e ↦
      let refused : ◌≡◌ {A = Result Error Decision} (err Error.permission_denied)
          (ok (commit_first n)) =
        rw e at h in
      absurd cc
  | inr e ↦ elim (Bool-cases (contains_key m namespace)) [
    | inl f ↦
        let put : ◌≡◌ {A = Result Error Decision} (ok (commit_first (remove_key namespace m)))
            (ok (commit_first n)) =
          rw (e, f) at h in
        let same : remove_key namespace m ≡ n = cc in
        subst IsOrdered same (remove_key-IsOrdered namespace m o)
    | inr f ↦
        let nothing : ◌≡◌ {A = Result Error Decision} (ok (reply_with applied))
            (ok (commit_first n)) =
          rw (e, f) at h in
        absurd cc
  ]
]

-- What a call does to the registry: nothing, or what it asked to commit before it replied.
abbrev pub IsOutcome : Operation → Namespaces → Result Error Reply → Namespaces → Type 0
IsOutcome operation m (err e) n = (n ≡ m) ⊎ (decide operation m ≡ ok (commit_first n))
IsOutcome operation m (ok reply) n =
    ((decide operation m ≡ ok (reply_with reply)) × (n ≡ m))
    ⊎ ((reply ≡ applied) × (decide operation m ≡ ok (commit_first n)))

module _ (lib : Library) where
  -- The disk holds a registry: the private file of the user, with the entries in their order.
  pub record Holds (disk : Disk) (namespaces : Namespaces) : Type 0 where
    pub file : File
    pub on_disk : disk ≡ some file
    pub owned : is_owned lib file ≡ true
    pub fits : leb (length file.content) max_frame ≡ true
    pub decoded :
        lib.decode file.content ≡ some (record { version = current_version; entries = namespaces })
    pub ordered : IsOrdered namespaces
    pub few : leb (length namespaces) max_namespaces ≡ true

  pub load_file-Holds :
      (disk : Disk) (m : Namespaces) (h : Holds disk m) → load_file lib false h.file ≡ ok m
  unfolding load_file
  load_file-Holds disk m h =
      rw (h.owned, h.fits, h.decoded, h.few) (insert_entries-IsOrdered m h.ordered)

  -- What is loaded is what the disk holds.
  pub load_version-Holds :
      (host : Host) (disk : Disk) (m : Namespaces)
      → Holds disk m
      → host.read_file ≡ ok tt
      → load_version lib host false disk ≡ ok m
  unfolding load_version
  load_version-Holds host disk m h ready = rw (h.on_disk, ready) (load_file-Holds disk m h)

  pub loaded :
      (host : Host) (file : File) (m n : Namespaces)
      → load_file lib false file ≡ ok m
      → (host.open_root >> load_version lib host false (some file)) ≡ ok n
      → n ≡ m
  unfolding load_version
  loaded host file m n h k =
      let (u, e, k1) = bind-ok host.open_root _ k in
      let (v, f, k2) = bind-ok host.read_file _ k1 in ok-injective {E = Error} (sym k2 ∙ h)

  module _ (decode-encode : (s : Snapshot) → lib.decode (lib.encode s) ≡ some s) where
    pub written-Holds :
        (m : Namespaces)
        → IsOrdered m
        → ltb max_frame (length (written_file lib m).content) || ltb max_namespaces (length m)
          ≡ false
        → Holds (some (written_file lib m)) m
    written-Holds m o small = record {
      file = written_file lib m;
      on_disk = refl;
      owned = ground arith;
      fits = ground (arith, small);
      decoded = decode-encode (record { version = current_version; entries = m });
      ordered = o;
      few = ground (arith, small);
    }

    -- A commit leaves the disk as it was, with an error, or the disk holds the registry.
    pub commit-Holds :
        (writing : Writing) (m : Namespaces) (disk : Disk)
        → IsOrdered m
        → (((commit lib writing m disk).1 ≡ disk)
            × (e : Error) × ((commit lib writing m disk).0 ≡ err e))
          ⊎ Holds (commit lib writing m disk).1 m
    unfolding commit
    commit-Holds writing m disk o =
        elim (Bool-cases
          (ltb max_frame (length (written_file lib m).content) || ltb max_namespaces (length m))) [
            | inl e ↦ inl (rw e (refl, Error.frame_limit, refl))
            | inr e ↦ rw e (put writing e)
          ]
      where
        put :
            (w : Writing)
            → ltb max_frame (length (written_file lib m).content) || ltb max_namespaces (length m)
              ≡ false
            → (((write lib w m disk).1 ≡ disk) × (e : Error) × ((write lib w m disk).0 ≡ err e))
              ⊎ Holds (write lib w m disk).1 m
        put (not_written e) small = inl (refl, e, refl)
        put (not_synced e) small = inr (written-Holds m o small)
        put written small = inr (written-Holds m o small)

    module _ (host : Host) (operation : Operation) (m : Namespaces) where
      abbrev IsGood : Result Error Reply × Disk → Type 0
      IsGood out = (n : Namespaces) × Holds out.1 n × IsOutcome operation m out.0 n

      applied_after-IsGood :
          (n : Namespaces) (r : Result Error (Unit {0})) (disk after : Disk)
          → Holds disk m
          → decide operation m ≡ ok (commit_first n)
          → ((after ≡ disk) × (e : Error) × (r ≡ err e)) ⊎ Holds after n
          → IsGood (applied_after lib (r, after))
      applied_after-IsGood n (err e) disk after h d (inl (same, failure, failed)) =
          (m, subst (λ x. Holds x m) (sym same) h, inl refl)
      applied_after-IsGood n (ok u) disk after h d (inl (same, e, failed)) = cc
      applied_after-IsGood n (err e) disk after h d (inr holds) = (n, holds, inr d)
      applied_after-IsGood n (ok u) disk after h d (inr holds) = (n, holds, inr (refl, d))

      carry_out-IsGood :
          (decision : Result Error Decision) (disk : Disk)
          → decide operation m ≡ decision
          → Holds disk m
          → IsGood (carry_out lib host disk decision)
      carry_out-IsGood (err e) disk d h = (m, h, inl refl)
      carry_out-IsGood (ok (reply_with reply)) disk d h = (m, h, inl (d, refl))
      carry_out-IsGood (ok (commit_first n)) disk d h =
          let out = commit lib host.writing n disk in
          applied_after-IsGood n out.0 disk out.1 h d
            (commit-Holds host.writing n disk (decide-IsOrdered operation m n h.ordered d))

      decide_locked-IsGood :
          (r : Result Error Namespaces) (disk : Disk)
          → ((n : Namespaces) → r ≡ ok n → n ≡ m)
          → Holds disk m
          → IsGood (decide_locked lib host operation (r, disk))
      decide_locked-IsGood (err e) disk same h = (m, h, inl refl)
      decide_locked-IsGood (ok n) disk same h =
          carry_out-IsGood (decide operation n) disk (ap (decide operation) (sym (same n refl))) h

      locked-IsGood :
          (l : Result Error (Unit {0})) (file : File)
          → load_file lib false file ≡ ok m
          → Holds (some file) m
          → IsGood (
              decide_locked lib host operation
                (read_locked lib host (after_lock lib l (some file) (create_empty lib host))))
      locked-IsGood (err e) file loads h = (m, h, inl refl)
      locked-IsGood (ok _) file loads h =
          decide_locked-IsGood (host.open_root >> load_version lib host false (some file))
            (some file) (λ n k. loaded host file m n loads k) h

      with_lease-IsGood :
          (l : Result Error (Unit {0})) (file : File)
          → load_file lib false file ≡ ok m
          → Holds (some file) m
          → IsGood (with_lease lib host operation (some file) l)
      unfolding lock
      with_lease-IsGood (err e) file loads h = (m, h, inl refl)
      with_lease-IsGood (ok _) file loads h = locked-IsGood host.lock_file file loads h

      -- Whatever the system answers, a call on a disk that holds a registry leaves it holding one:
      -- the same, or the one that the operation asked to commit; a reply is the operation's, and
      -- `Applied` after a commit comes with the committed registry on the disk. JSON reads back what
      -- it printed.
      pub apply_operation-Holds :
          (disk : Disk)
          → Holds disk m
          → (n : Namespaces) × Holds (apply_operation lib host operation disk).1 n
            × IsOutcome operation m (apply_operation lib host operation disk).0 n
      unfolding apply_operation
      apply_operation-Holds disk h =
          subst (λ d. IsGood (apply_operation lib host operation d)) (sym h.on_disk)
            (with_lease-IsGood (lease_for host operation) h.file (load_file-Holds disk m h)
              (subst (λ d. Holds d m) h.on_disk h))
