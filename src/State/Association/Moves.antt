-- ===== src/State/Association/Moves.antt =====
-- A checkout of crates/wrix-state/src/store/association.rs stays in its namespace.
use wrix.Common.{
  ◌≡◌, ◌≢◌, sym, subst, ◌∙◌, ◌⊎◌, inl, inr, not, ◌&&◌, none, some, ok, guard, bind-ok, ok-injective,
}
use wrix.Common.Text.{Str, str_eq, codes}
use wrix.Common.Maps.{lookup}
use wrix.State.{
  Error, unsupported, uninitialized, invalid, is_absolute, is_some, Checkout, Participant, Database,
  registration,
}
use wrix.State.Association.{
  Library, World, check_participant, row_of, read_integration, associate_in, associate_checkouts,
  associate,
}
use wrix.State.Association.Reserve.{former_key}
use wrix.State.Association.Written.{participant_ok}

-- The row of the checkout, before a call that succeeds: none, or the one that the call would write.
abbrev IsJoinable : Database → Checkout → Str → Type 0
IsJoinable db checkout retain =
    (lookup db.participants checkout.root ≡ none)
    ⊎ (lookup db.participants checkout.root ≡ some (row_of retain checkout))

module _ (lib : Library) (world : World) (db after : Database) (retain former : Str) where
  associate_in-IsJoinable :
      (primary checkout : Checkout)
      → associate_in lib world db primary checkout retain ≡ ok (after, former)
      → IsJoinable db checkout retain
  unfolding associate_in
  associate_in-IsJoinable primary checkout h =
      let (u1, e1, h1) = bind-ok (world.recheck_before primary) _ h in
      let (u2, e2, h2) = bind-ok (world.recheck_before checkout) _ h1 in
      let (is_registered, e3, h3) = bind-ok (registration db retain) _ h2 in
      let (u4, e4, h4) = bind-ok (guard is_registered unsupported) _ h3 in
      let (u5, e5, h5) = bind-ok (check_participant db primary retain) _ h4 in
      let (u6, e6, h6) = bind-ok (check_participant db checkout retain) _ h5 in
      participant_ok lib db checkout retain e6

  associate_checkouts-IsJoinable :
      (primary checkout : Checkout)
      → associate_checkouts lib world db primary checkout retain ≡ ok (after, former)
      → IsJoinable db checkout retain
  unfolding associate_checkouts
  associate_checkouts-IsJoinable primary checkout h =
      let (u1, e1, h1) =
        bind-ok
          (guard (str_eq (former_key lib primary) retain)
            (invalid (codes "association must retain the primary")))
          _ h in
      let (u2, e2, h2) = bind-ok (world.check_retention retain) _ h1 in
      let (u3, e3, h3) = bind-ok world.mutate _ h2 in
      let (u4, e4, h4) = bind-ok (guard db.initialized uninitialized) _ h3 in
      let (u5, e5, h5) = bind-ok (world.scope_check retain primary.root) _ h4 in
      let (selected, e6, h6) = bind-ok (read_integration db.integration) _ h5 in
      let (u7, e7, h7) = bind-ok (guard (not (is_some selected)) _) _ h6 in
      associate_in-IsJoinable primary checkout h7

  associate-IsJoinable :
      (primary_path checkout_path : Str) (checkout : Checkout)
      → world.discover checkout_path ≡ ok checkout
      → associate lib world db primary_path checkout_path retain ≡ ok (after, former)
      → IsJoinable db checkout retain
  unfolding associate
  associate-IsJoinable primary_path checkout_path checkout found h =
      let (u1, e1, h1) = bind-ok world.host_check _ h in
      let (u2, e2, h2) =
        bind-ok
          (guard (is_absolute primary_path && is_absolute checkout_path)
            (invalid (codes "association paths must be absolute")))
          _ h1 in
      let (primary, e3, h3) = bind-ok (world.discover primary_path) _ h2 in
      let (c, e4, h4) = bind-ok (world.discover checkout_path) _ h3 in
      let same : c ≡ checkout = ok-injective {E = Error} (sym e4 ∙ found) in
      subst (λ c. IsJoinable db c retain) same (associate_checkouts-IsJoinable primary c h4)

-- No call of `associate` succeeds for a checkout that takes part in another namespace, or that was
-- observed differently when it joined.
pub associate-conflict :
    (lib : Library) (world : World) (db after : Database)
    (primary_path checkout_path retain former : Str) (checkout : Checkout) (row : Participant)
    → world.discover checkout_path ≡ ok checkout
    → lookup db.participants checkout.root ≡ some row
    → row ≢ row_of retain checkout
    → associate lib world db primary_path checkout_path retain ≢ ok (after, former)
associate-conflict lib world db after primary_path checkout_path retain former checkout row found h
      ne succeeded =
    elim (associate-IsJoinable lib world db after retain former primary_path checkout_path checkout
      found succeeded) [
        | inl absent ↦ cc
        | inr joined ↦ let same : some row ≡ some (row_of retain checkout) = sym h ∙ joined in ne cc
      ]
