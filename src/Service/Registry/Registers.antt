-- ===== src/Service/Registry/Registers.antt =====
-- A registration that succeeds, crates/wrix-service/src/control/mod.rs.
use wrix.Common.{◌≡◌, ap, ◌∙◌, false, ◌||◌, none, some, ◌==◌, ltb, length, ok}
use wrix.Common.Text.{Str, str_eq}
use wrix.Common.Maps.{lookup}
use wrix.Service.Registry.{
  Policy, Namespaces, Snapshot, max_frame, max_namespaces, insert_entry, File, Disk, Host, Library,
  register, applied, commit_first, decide, load_file, load_version, written_file, commit, lock,
  apply_operation,
}
use wrix.Service.Registry.Order.{
  insert_entry-IsOrdered, lookup-insert_entry_self, lookup-insert_entry_other,
}
use wrix.Service.Registry.Held.{Holds, load_file-Holds, load_version-Holds, written-Holds}
use wrix.Service.Registry.Upgrade.{IsHealthy}

decide-register :
    (namespace : Str) (policy : Policy) (m : Namespaces)
    → lookup m namespace ≡ none
    → (length m == max_namespaces) ≡ false
    → decide (register namespace policy) m ≡ ok (commit_first (insert_entry namespace policy m))
unfolding decide
decide-register namespace policy m h room = rw (h, room)

apply-file :
    (lib : Library) (host : Host) (namespace : Str) (policy : Policy) (m n : Namespaces)
    (file : File)
    → IsHealthy host
    → load_file lib false file ≡ ok m
    → decide (register namespace policy) m ≡ ok (commit_first n)
    → ltb max_frame (length (written_file lib n).content) || ltb max_namespaces (length n) ≡ false
    → apply_operation lib host (register namespace policy) (some file)
      ≡ (ok applied, some (written_file lib n))
unfolding apply_operation lock load_version commit
apply-file lib host namespace policy m n file healthy loads asked small = simp (
  healthy.leases, healthy.locks, healthy.opens, healthy.reads, loads, asked, healthy.writes, small,
)

-- When the system answers as it should, a new namespace in a registry with room, whose new text is
-- within the limit, is registered: the reply is `Applied`, and the file that is then in its place is
-- read with the policy for the namespace, and with every other namespace as before. JSON reads back
-- what it printed, and the disk held the registry.
pub register_new :
    (lib : Library)
    → ((s : Snapshot) → lib.decode (lib.encode s) ≡ some s)
    → (host : Host) (namespace : Str) (policy : Policy) (m : Namespaces) (disk : Disk)
    → IsHealthy host
    → Holds lib disk m
    → lookup m namespace ≡ none
    → (length m == max_namespaces) ≡ false
    → ltb max_frame (length (written_file lib (insert_entry namespace policy m)).content)
        || ltb max_namespaces (length (insert_entry namespace policy m))
      ≡ false
    → (n : Namespaces) × (apply_operation lib host (register namespace policy) disk
        ≡ (ok applied, some (written_file lib n)))
      × (load_version lib host false (some (written_file lib n)) ≡ ok n)
      × (lookup n namespace ≡ some policy)
      × ((i : Str) → str_eq namespace i ≡ false → lookup n i ≡ lookup m i)
register_new lib json host namespace policy m disk healthy h absent room small =
    let n = insert_entry namespace policy m in
    let held =
      written-Holds lib json n (insert_entry-IsOrdered namespace policy m h.ordered) small in
    let done =
      apply-file lib host namespace policy m n h.file healthy (load_file-Holds lib disk m h)
        (decide-register namespace policy m absent room) small in
    (
      n,
      ap (apply_operation lib host (register namespace policy)) h.on_disk ∙ done,
      load_version-Holds lib host (some (written_file lib n)) n held healthy.reads,
      lookup-insert_entry_self namespace policy m,
      lookup-insert_entry_other namespace policy m,
    )
