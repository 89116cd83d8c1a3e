-- ===== src/State/Association/Committed.antt =====
-- What a call of `associate` that succeeds has done, crates/wrix-state/src/store/association.rs.
use wrix.Common.Results.{guard-ok}
use wrix.Common.{
  ◌≡◌, refl, sym, subst, ap, ◌∙◌, ◌⊎◌, inl, inr, true, not, ◌&&◌, none, some, ok, guard, bind-ok,
  ok-injective,
}
use wrix.Common.Text.{Str, str_eq, str_eq_iff, codes}
use wrix.Common.Maps.{lookup, contains_key, lookup-bound}
use wrix.State.{
  Error, unsupported, uninitialized, invalid, is_absolute, Checkout, Participant, Database, is_some,
  insert_or_ignore, registration,
}
use wrix.State.Association.{
  host_slot, binding_row, insert_participant, read_integration, bound_database, Library, World,
  check_participant, bind_namespace, row_of, insert_participants, reserve_if_former, associate_in,
  associate_checkouts, associate,
}
use wrix.State.Association.Reserve.{former_key, Reserves, reserve_if_former-Reserves}
use wrix.State.Association.Laws.{
  insert_or_ignore-either, insert_binding-contains, joined_database, insert_participant-ok,
}
use wrix.State.Association.Written.{
  IsAssociated, Keeps, written_database, IsReferring, written-Keeps, SameEvidence, participant_ok,
  bind_namespace_ok, written-IsAssociated,
}

module _ (lib : Library) where
  insert_participants-ok :
      (retain : Str) (primary checkout : Checkout) (reserved written : Database)
      → insert_participants retain primary checkout reserved ≡ ok written
      → (written_database lib retain primary checkout reserved ≡ written)
        × ((contains_key reserved.participants primary.root ≡ true)
            ⊎ (contains_key reserved.bindings retain ≡ true))
  unfolding insert_participants
  insert_participants-ok retain primary checkout reserved written h =
      let (first, e1, h1) = bind-ok (insert_participant retain primary reserved) _ h in
      let (same, c) = insert_participant-ok retain primary reserved first e1 in
      let (last, d) = insert_participant-ok retain checkout first written h1 in
      (ap (joined_database retain checkout) same ∙ last, c)

  -- A participant's row was not ignored, or it refers to the binding's row already.
  bound_contains :
      (db bound reserved : Database) (primary checkout : Checkout) (retain : Str)
      → IsReferring lib db
      → (lookup db.participants primary.root ≡ none)
        ⊎ (lookup db.participants primary.root ≡ some (row_of retain primary))
      → bound_database db retain host_slot retain primary ≡ bound
      → Reserves lib bound reserved checkout retain
      → (contains_key reserved.participants primary.root ≡ true)
        ⊎ (contains_key reserved.bindings retain ≡ true)
      → contains_key bound.bindings retain ≡ true
  bound_contains db bound reserved primary checkout retain refers p same facts (inr there) =
      subst (λ rows. contains_key rows retain ≡ true) facts.same_bindings there
  bound_contains db bound reserved primary checkout retain refers p same facts (inl there) =
      let old : reserved.participants ≡ db.participants =
        facts.same_participants ∙ ap (λ d. d.participants) (sym same) in
      elim p [
        | inl absent ↦ absurd (
            lookup-bound db.participants primary.root
              (subst (λ rows. contains_key rows primary.root ≡ true) old there) absent)
        | inr row ↦
            subst (λ d. contains_key d.bindings retain ≡ true) same
              (insert_binding-contains retain (binding_row host_slot retain primary) db.bindings
                retain (refers primary.root (row_of retain primary) row))
      ]

  written-IsReferring :
      (db bound reserved : Database) (primary checkout : Checkout) (retain : Str)
      → IsReferring lib db
      → bound_database db retain host_slot retain primary ≡ bound
      → Reserves lib bound reserved checkout retain
      → contains_key bound.bindings retain ≡ true
      → IsReferring lib (written_database lib retain primary checkout reserved)
  written-IsReferring db bound reserved primary checkout retain refers same facts there root row h =
      let old : reserved.participants ≡ db.participants =
        facts.same_participants ∙ ap (λ d. d.participants) (sym same) in
      let first = insert_or_ignore primary.root (row_of retain primary) reserved.participants in
      let now : contains_key reserved.bindings retain ≡ true =
        subst (λ rows. contains_key rows retain ≡ true) (sym facts.same_bindings) there in
      let written : (r : Participant)
          → r ≡ row
          → r.native_key ≡ retain
          → contains_key reserved.bindings row.native_key ≡ true =
        λ r q k.
          subst (λ n. contains_key reserved.bindings n ≡ true) (sym k ∙ ap (λ r. r.native_key) q)
            now in
      elim (insert_or_ignore-either checkout.root (row_of retain checkout) first root h) [
        | inl q ↦ written (row_of retain checkout) q refl
        | inr h1 ↦
            elim (insert_or_ignore-either primary.root (row_of retain primary) reserved.participants
              root h1) [
                | inl q ↦ written (row_of retain primary) q refl
                | inr h2 ↦
                    subst (λ rows. contains_key rows row.native_key ≡ true)
                      (sym facts.same_bindings)
                      (subst (λ d. contains_key d.bindings row.native_key ≡ true) same
                        (insert_binding-contains retain (binding_row host_slot retain primary)
                          db.bindings row.native_key
                          (refers root row (subst (λ rows. lookup rows root ≡ some row) old h2))))
              ]
      ]

  returned-IsAssociated :
      (written after : Database) (primary checkout : Checkout) (retain key former : Str)
      → ◌≡◌ {A = Database × Str} (written, key) (after, former)
      → (db : Database) → IsAssociated lib written primary checkout retain
      → Keeps lib db written × IsReferring lib written
      → IsAssociated lib after primary checkout retain
        × (Keeps lib db after × IsReferring lib after)
        × (former ≡ key)
  returned-IsAssociated written after primary checkout retain key former same db h k =
      let database : written ≡ after = ap (λ p. p.0) same in
      let result : key ≡ former = ap (λ p. p.1) same in
      (
        subst (λ d. IsAssociated lib d primary checkout retain) database h,
        subst (λ d. Keeps lib db d × IsReferring lib d) database k,
        sym result,
      )

  -- A call that succeeds leaves the checkout associated, and its result is the former namespace.
  pub associate_in-IsAssociated :
      (world : World) (db after : Database) (primary checkout : Checkout) (retain former : Str)
      → db.initialized ≡ true
      → IsReferring lib db
      → SameEvidence lib primary checkout
      → associate_in lib world db primary checkout retain ≡ ok (after, former)
      → IsAssociated lib after primary checkout retain
        × (Keeps lib db after × IsReferring lib after)
        × (former ≡ former_key lib checkout)
  unfolding associate_in
  associate_in-IsAssociated world db after primary checkout retain former init refers agree h =
      let (u1, e1, h1) = bind-ok (world.recheck_before primary) _ h in
      let (u2, e2, h2) = bind-ok (world.recheck_before checkout) _ h1 in
      let (is_registered, e3, h3) = bind-ok (registration db retain) _ h2 in
      let (u4, e4, h4) = bind-ok (guard is_registered unsupported) _ h3 in
      let (u5, e5, h5) = bind-ok (check_participant db primary retain) _ h4 in
      let (u6, e6, h6) = bind-ok (check_participant db checkout retain) _ h5 in
      let (bound, e7, h7) = bind-ok (bind_namespace db retain host_slot retain primary) _ h6 in
      let (reserved, e8, h8) =
        bind-ok (reserve_if_former lib bound (former_key lib checkout) retain checkout) _ h7 in
      let (written, e9, h9) = bind-ok (insert_participants retain primary checkout reserved) _ h8 in
      let (u10, e10, h10) = bind-ok (world.recheck_after primary) _ h9 in
      let (u11, e11, h11) = bind-ok (world.recheck_after checkout) _ h10 in
      let (final, present) = insert_participants-ok retain primary checkout reserved written e9 in
      let result : (written, former_key lib checkout) ≡ (after, former) =
        ok-injective {E = Error} h11 in
      let facts = reserve_if_former-Reserves lib bound reserved retain checkout e8 in
      let registered =
        subst (λ b. registration db retain ≡ ok b) (guard-ok is_registered unsupported e4) e3 in
      let (row, whole) = bind_namespace_ok lib db bound primary retain e7 in
      let mine = participant_ok lib db primary retain e5 in
      let there =
        bound_contains db bound reserved primary checkout retain refers mine whole facts present in
      let associated =
        written-IsAssociated lib db bound reserved primary checkout retain init agree registered
          mine (participant_ok lib db checkout retain e6) (row there) whole facts in
      returned-IsAssociated (written_database lib retain primary checkout reserved) after primary
        checkout retain (former_key lib checkout) former
        (ap (λ d. (d, former_key lib checkout)) final ∙ result) db associated
        (
          written-Keeps lib db bound reserved primary checkout retain whole facts,
          written-IsReferring db bound reserved primary checkout retain refers whole facts there,
        )

  associate_checkouts-IsAssociated :
      (world : World) (db after : Database) (primary checkout : Checkout) (retain former : Str)
      → IsReferring lib db
      → SameEvidence lib primary checkout
      → associate_checkouts lib world db primary checkout retain ≡ ok (after, former)
      → IsAssociated lib after primary checkout retain
        × (Keeps lib db after × IsReferring lib after)
        × (former ≡ former_key lib checkout)
        × (former_key lib primary ≡ retain)
  unfolding associate_checkouts
  associate_checkouts-IsAssociated world db after primary checkout retain former refers agree h =
      let retained = str_eq (former_key lib primary) retain in
      let (u1, e1, h1) =
        bind-ok (guard retained (invalid (codes "association must retain the primary"))) _ h in
      let (u2, e2, h2) = bind-ok (world.check_retention retain) _ h1 in
      let (u3, e3, h3) = bind-ok world.mutate _ h2 in
      let (u4, e4, h4) = bind-ok (guard db.initialized uninitialized) _ h3 in
      let (u5, e5, h5) = bind-ok (world.scope_check retain primary.root) _ h4 in
      let (selected, e, h6) = bind-ok (read_integration db.integration) _ h5 in
      let (u7, e7, h7) =
        bind-ok
          (guard (not (is_some selected)) (
            invalid (
              codes
                "host association requires disabled external resolution; retain the selected adapter and use its admission workflow")))
          _ h6 in
      let init = guard-ok db.initialized uninitialized e4 in
      let key = guard-ok retained (invalid (codes "association must retain the primary")) e1 in
      let (a, kept, result) =
        associate_in-IsAssociated world db after primary checkout retain former init refers agree
          h7 in
      (a, kept, result, (str_eq_iff (former_key lib primary) retain).0 key)

  -- A call of `associate` that succeeds leaves the checkout associated with the primary one, whose own
  -- namespace is the one retained, keeps the tables of single rows as they are, every row of the other
  -- tables and the foreign key, and gives the former namespace of the checkout; where the foreign key
  -- held before and equal roots were observed with equal evidence.
  pub associate-IsAssociated :
      (world : World) (db after : Database) (primary_path checkout_path retain former : Str)
      (primary checkout : Checkout)
      → world.discover primary_path ≡ ok primary
      → world.discover checkout_path ≡ ok checkout
      → IsReferring lib db
      → SameEvidence lib primary checkout
      → associate lib world db primary_path checkout_path retain ≡ ok (after, former)
      → IsAssociated lib after primary checkout retain
        × (Keeps lib db after × IsReferring lib after)
        × (former ≡ former_key lib checkout)
        × (former_key lib primary ≡ retain)
  unfolding associate
  associate-IsAssociated world db after pp cp retain former primary checkout dp dc refers agree h =
      let (u1, e1, h1) = bind-ok world.host_check _ h in
      let (u2, e2, h2) =
        bind-ok
          (guard (is_absolute pp && is_absolute cp)
            (invalid (codes "association paths must be absolute")))
          _ h1 in
      let (p, e3, h3) = bind-ok (world.discover pp) _ h2 in
      let (c, e4, h4) = bind-ok (world.discover cp) _ h3 in
      let same_p : p ≡ primary = ok-injective {E = Error} (sym e3 ∙ dp) in
      let same_c : c ≡ checkout = ok-injective {E = Error} (sym e4 ∙ dc) in
      associate_checkouts-IsAssociated world db after primary checkout retain former refers agree (
        subst (λ x. associate_checkouts lib world db primary x retain ≡ ok (after, former)) same_c
          (subst (λ x. associate_checkouts lib world db x c retain ≡ ok (after, former)) same_p h4))
