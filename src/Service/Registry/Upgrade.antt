-- ===== src/Service/Registry/Upgrade.antt =====
-- The migration of a registry of version 1, crates/wrix-service/src/control/registration/mod.rs.
use wrix.Common.{◌≡◌, ap, ◌∙◌, true, false, ◌||◌, some, leb, ltb, length, ok, err}
use wrix.Service.Registry.{
  registry_upgrade, Namespaces, Snapshot, max_frame, max_namespaces, File, written, Host, Library,
  is_owned, load_file, load_version, written_file, commit, initialize,
}
use wrix.Service.Registry.Order.{IsOrdered, insert_entries-IsOrdered}
use wrix.Service.Registry.Held.{load_version-Holds, written-Holds}

-- A private file of the user with the entries of a registry of version 1.
pub record IsLegacy (lib : Library) (file : File) (namespaces : Namespaces) : Type 0 where
  pub owned : is_owned lib file ≡ true
  pub fits : leb (length file.content) max_frame ≡ true
  pub decoded : lib.decode file.content ≡ some (record { version = 1; entries = namespaces })
  pub ordered : IsOrdered namespaces
  pub few : leb (length namespaces) max_namespaces ≡ true

-- A system that answers as it should.
pub record IsHealthy (host : Host) : Type 0 where
  pub leases : host.lease ≡ ok tt
  pub opens : host.open_root ≡ ok tt
  pub locks : host.lock_file ≡ ok tt
  pub reads : host.read_file ≡ ok tt
  pub writes : host.writing ≡ written

-- A registry of version 1 is refused before `initialize`, which succeeds on it, and afterwards its
-- policies are read as they were; when the system answers as it should, JSON reads back what it
-- printed, and the registry's new text is within the limit.
pub initialize-upgrades :
    (lib : Library) (host : Host) (file : File) (m : Namespaces)
    → ((s : Snapshot) → lib.decode (lib.encode s) ≡ some s)
    → IsHealthy host
    → IsLegacy lib file m
    → ltb max_frame (length (written_file lib m).content) || ltb max_namespaces (length m) ≡ false
    → (load_version lib host false (some file) ≡ err registry_upgrade)
      × ((initialize lib host (some file)).0 ≡ ok tt)
      × (load_version lib host false (initialize lib host (some file)).1 ≡ ok m)
unfolding initialize load_version load_file commit
initialize-upgrades lib host file m json healthy h small =
    let refused : load_file lib false file ≡ err registry_upgrade =
      simp (h.owned, h.fits, h.decoded) in
    let legacy : load_file lib true file ≡ ok m =
      simp (h.owned, h.fits, h.decoded, h.few, insert_entries-IsOrdered m h.ordered) in
    let done : initialize lib host (some file) ≡ (ok tt, some (written_file lib m)) =
      simp (healthy.locks, healthy.reads, healthy.writes, refused, legacy, small) in
    let read =
      load_version-Holds lib host (some (written_file lib m)) m
        (written-Holds lib json m h.ordered small) healthy.reads in
    (
      simp (healthy.reads, refused),
      ap (λ p. p.0) done,
      ap (λ d. load_version lib host false d) (ap (λ p. p.1) done) ∙ read,
    )
