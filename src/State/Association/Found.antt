-- ===== src/State/Association/Found.antt =====
-- `association` of crates/wrix-state/src/store/association.rs finds what `associate` wrote.
use wrix.Common.{◌≡◌, ◌≢◌, sym, inl, inr, true, false, some, ok}
use wrix.Common.Text.{Str, str_eq, str_eq_iff, str_eq_refl, str_eq_apart}
use wrix.Core.Workspace.{parse_hash}
use wrix.State.{Checkout, Database}
use wrix.State.Association.{
  former_of, Former, Library, World, row_of, associate, parse_path, associated_row, check_former,
  check_reserved, check_if_former, check_association, association,
}
use wrix.State.Association.Laws.{host_binding}
use wrix.State.Association.Written.{IsAssociated, IsReferring, SameEvidence}
use wrix.State.Association.Committed.{associate-IsAssociated}
use wrix.State.Association.Reserve.{former_key}

module _ (lib : Library)
    (decode-encode : (former : Former) → lib.decode (lib.encode former) ≡ some former) where
  -- What a later call finds: the primary checkout unchanged, and both checkouts as they were observed.
  pub record IsUnchanged (world : World) (primary checkout : Checkout) (retain : Str) : Type 0 where
    pub valid_key : parse_hash retain ≡ some retain
    pub primary_path : parse_path lib primary.root ≡ ok primary.root
    pub checkout_path : parse_path lib checkout.root ≡ ok checkout.root
    pub found : world.discover primary.root ≡ ok primary
    pub primary_same : world.recheck_after primary ≡ ok tt
    pub checkout_same : world.recheck_after checkout ≡ ok tt
    pub evidence_valid : world.check_evidence checkout.evidence ≡ ok tt

  associated_row-found :
      (db : Database) (primary checkout : Checkout) (retain : Str)
      → IsAssociated lib db primary checkout retain
      → associated_row lib db checkout.root
        ≡ some (row_of retain checkout, host_binding retain primary)
  unfolding associated_row host_binding
  associated_row-found db primary checkout retain a = rw (a.checkout_row, a.bound)

  check_former-found :
      (world : World) (db : Database) (primary checkout : Checkout) (retain : Str)
      → IsAssociated lib db primary checkout retain
      → IsUnchanged world primary checkout retain
      → former_key lib checkout ≢ retain
      → check_former lib world db (former_key lib checkout) (lib.encode (former_of retain checkout))
        ≡ ok tt
  unfolding check_former
  check_former-found world db primary checkout retain a u ne =
      let row = associated_row-found db primary checkout retain a in
      let apart : str_eq retain (former_key lib checkout) ≡ false =
        str_eq_apart retain (former_key lib checkout) (λ q. ne (sym q)) in
      let self = str_eq_refl (former_key lib checkout) in
      simp (
        decode-encode (former_of retain checkout),
        u.valid_key,
        u.checkout_path,
        apart,
        self,
        u.evidence_valid,
        row,
        str_eq_refl retain,
        str_eq_refl checkout.evidence,
      )

  check_if_former-found :
      (world : World) (db : Database) (primary checkout : Checkout) (retain : Str)
      → IsAssociated lib db primary checkout retain
      → IsUnchanged world primary checkout retain
      → check_if_former lib world db retain checkout ≡ ok tt
  unfolding check_if_former check_reserved
  check_if_former-found world db primary checkout retain a u = elim a.reserved [
    | inl same ↦
        let e : str_eq (former_key lib checkout) retain ≡ true =
          (str_eq_iff (former_key lib checkout) retain).1 same in
        rw e
    | inr (ne, row) ↦
        let apart = str_eq_apart (former_key lib checkout) retain ne in
        let checked = check_former-found world db primary checkout retain a u ne in
        simp (apart, row)
          (rw checked (simp (decode-encode (former_of retain checkout), str_eq_refl)))
  ]

  -- What is associated is found.
  association-found :
      (world : World) (db : Database) (primary checkout : Checkout) (retain : Str)
      → IsAssociated lib db primary checkout retain
      → IsUnchanged world primary checkout retain
      → former_key lib primary ≡ retain
      → association lib world db checkout
        ≡ ok (some (record { key = retain; associated = checkout; primary = primary }))
  unfolding association check_association host_binding
  association-found world db primary checkout retain a u key =
      let row = associated_row-found db primary checkout retain a in
      let former = check_if_former-found world db primary checkout retain a u in
      simp (
        row, a.initialized, a.registered, a.primary_row, u.valid_key, u.primary_path, u.found, key,
        u.primary_same, u.checkout_same, former, str_eq_refl,
      )

  -- After a call of `associate` that succeeds, `association` finds the checkout with the namespace that
  -- was retained and its primary checkout, when JSON reads back what it printed, equal roots were
  -- observed with equal evidence, the foreign key held before, and the later call observes both
  -- checkouts unchanged.
  pub associate-association :
      (world later : World) (db after : Database) (primary_path checkout_path retain former : Str)
      (primary checkout : Checkout)
      → world.discover primary_path ≡ ok primary
      → world.discover checkout_path ≡ ok checkout
      → IsReferring lib db
      → SameEvidence lib primary checkout
      → associate lib world db primary_path checkout_path retain ≡ ok (after, former)
      → IsUnchanged later primary checkout retain
      → association lib later after checkout
        ≡ ok (some (record { key = retain; associated = checkout; primary = primary }))
  associate-association world later db after pp cp retain former primary checkout dp dc refers agree
        h u =
      let (a, kept, result, key) =
        associate-IsAssociated lib world db after pp cp retain former primary checkout dp dc refers
          agree h in
      association-found later after primary checkout retain a u key
