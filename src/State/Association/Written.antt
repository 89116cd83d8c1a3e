-- ===== src/State/Association/Written.antt =====
-- What `associate` of crates/wrix-state/src/store/association.rs writes.
use wrix.Common.Results.{guard-ok}
use wrix.Common.{
  ◌≡◌, refl, sym, subst, ap, ◌∙◌, ◌⊎◌, inl, inr, true, List, Option, none, some, Bool-cases, ok,
  guard, bind-ok, ok-injective,
}
use wrix.Common.Text.{Str, str_eq, str_eq_iff}
use wrix.Common.Maps.{lookup, contains_key}
use wrix.State.{
  Error, conflict, Checkout, Binding, Participant, Database, registered_owner, registration_value,
  insert_or_ignore, metadata_value, registration,
}
use wrix.State.Association.{
  host_slot, binding_row, bound_database, same_binding, same_participant, Library,
  check_participant, bind_namespace, row_of,
}
use wrix.State.Association.Reserve.{IsReserved, Reserves}
use wrix.State.Association.Laws.{
  insert_binding-keeps, insert_binding_self, joined_database, insert_or_ignore-keeps,
  insert_or_ignore-other, insert_or_ignore_self, same_participant-row, same_binding-row,
  host_binding,
}

module _ (lib : Library) where
  -- What a checkout's association with the namespace of a primary one is in the database.
  pub record IsAssociated (db : Database) (primary checkout : Checkout) (retain : Str)
      : Type 0 where
    pub initialized : db.initialized ≡ true
    pub registered : registration db retain ≡ ok true
    pub bound : lookup db.bindings retain ≡ some (host_binding retain primary)
    pub primary_row : lookup db.participants primary.root ≡ some (row_of retain primary)
    pub checkout_row : lookup db.participants checkout.root ≡ some (row_of retain checkout)
    pub reserved : IsReserved lib db checkout retain

  -- The tables of single rows are as they were, and every row of the other tables stays as it is.
  pub record Keeps (db after : Database) : Type 0 where
    pub initialized_kept : after.initialized ≡ db.initialized
    pub scope_policy_kept : after.scope_policy ≡ db.scope_policy
    pub generation_kept : after.generation ≡ db.generation
    pub integration_kept : after.integration ≡ db.integration
    pub participants_kept :
        (root : Str) (row : Participant)
        → lookup db.participants root ≡ some row
        → lookup after.participants root ≡ some row
    pub bindings_kept :
        (key : Str) (row : Binding)
        → lookup db.bindings key ≡ some row
        → lookup after.bindings key ≡ some row
    pub metadata_kept :
        (key name value : Str)
        → metadata_value db.metadata key name ≡ some value
        → metadata_value after.metadata key name ≡ some value

  abbrev pub written_database : Str → Checkout → Checkout → Database → Database
  written_database retain primary checkout reserved =
      joined_database retain checkout (joined_database retain primary reserved)

  -- Every participant's namespace has a binding, which the schema's foreign key says.
  abbrev pub IsReferring : Database → Type 0
  IsReferring db =
      (root : Str) (row : Participant)
      → lookup db.participants root ≡ some row
      → contains_key db.bindings row.native_key ≡ true

  pub written-Keeps :
      (db bound reserved : Database) (primary checkout : Checkout) (retain : Str)
      → bound_database db retain host_slot retain primary ≡ bound
      → Reserves lib bound reserved checkout retain
      → Keeps db (written_database retain primary checkout reserved)
  written-Keeps db bound reserved primary checkout retain same facts =
      let old : reserved.participants ≡ db.participants =
        facts.same_participants ∙ ap (λ d. d.participants) (sym same) in
      record {
        initialized_kept = facts.same_initialized ∙ ap (λ d. d.initialized) (sym same);
        scope_policy_kept = facts.same_scope_policy ∙ ap (λ d. d.scope_policy) (sym same);
        generation_kept = facts.same_generation ∙ ap (λ d. d.generation) (sym same);
        integration_kept = facts.same_integration ∙ ap (λ d. d.integration) (sym same);
        participants_kept = λ root row k.
            insert_or_ignore-keeps checkout.root (row_of retain checkout)
              (insert_or_ignore primary.root (row_of retain primary) reserved.participants) root
              (insert_or_ignore-keeps primary.root (row_of retain primary) reserved.participants
                root (ap (λ rows. lookup rows root) old ∙ k));
        bindings_kept = λ key row k.
            ap (λ rows. lookup rows key) (facts.same_bindings ∙ ap (λ d. d.bindings) (sym same))
            ∙ insert_binding-keeps retain (binding_row host_slot retain primary) db.bindings key k;
        metadata_kept = λ key name v k.
            facts.keeps key name v
              (subst (λ d. metadata_value d.metadata key name ≡ some v) same k);
      }

  -- The observations of one call agree: two checkouts with one root have the same evidence.
  abbrev pub SameEvidence : Checkout → Checkout → Type 0
  SameEvidence primary checkout =
      primary.root ≡ checkout.root → primary.evidence ≡ checkout.evidence

  participants-row :
      (retain : Str) (primary checkout : Checkout) (rows : List (Str × Participant))
      → SameEvidence primary checkout
      → (lookup rows primary.root ≡ none)
        ⊎ (lookup rows primary.root ≡ some (row_of retain primary))
      → (lookup rows checkout.root ≡ none)
        ⊎ (lookup rows checkout.root ≡ some (row_of retain checkout))
      → lookup
          (insert_or_ignore checkout.root
            (row_of retain checkout)
            (insert_or_ignore primary.root (row_of retain primary) rows))
          checkout.root
        ≡ some (row_of retain checkout)
  participants-row retain primary checkout rows agree p c =
      let first = insert_or_ignore primary.root (row_of retain primary) rows in
      let ready : (lookup first checkout.root ≡ none)
          ⊎ (lookup first checkout.root ≡ some (row_of retain checkout)) =
        elim (Bool-cases (str_eq primary.root checkout.root)) [
          | inl e ↦
              let same = (str_eq_iff primary.root checkout.root).0 e in
              let written = insert_or_ignore_self primary.root (row_of retain primary) rows p in
              let moved = subst (λ k. lookup first k ≡ some (row_of retain primary)) same written in
              inr
                (moved ∙ ap (λ e. some (record { native_key = retain; observed = e })) (agree same))
          | inr e ↦ elim c [
            | inl absent ↦ inl (
                insert_or_ignore-other primary.root (row_of retain primary) rows checkout.root e
                ∙ absent)
            | inr there ↦ inr (
                insert_or_ignore-keeps primary.root (row_of retain primary) rows checkout.root
                  there)
          ]
        ] in
      insert_or_ignore_self checkout.root (row_of retain checkout) first ready

  registration_value-some :
      (o : Option Str) → registration_value o ≡ ok true → (v : Str) × (o ≡ some v)
  registration_value-some none h = cc
  registration_value-some (some v) h = (v, refl)

  registration-kept :
      (db after : Database) (retain : Str)
      → ((v : Str)
          → metadata_value db.metadata retain registered_owner ≡ some v
          → metadata_value after.metadata retain registered_owner ≡ some v)
      → registration db retain ≡ ok true
      → registration after retain ≡ ok true
  unfolding registration
  registration-kept db after retain keeps h =
      let (v, e) = registration_value-some (metadata_value db.metadata retain registered_owner) h in
      let same : metadata_value after.metadata retain registered_owner
          ≡ metadata_value db.metadata retain registered_owner =
        keeps v e ∙ sym e in
      ap registration_value same ∙ h

  pub participant_ok :
      (db : Database) (checkout : Checkout) (retain : Str) {u : Unit {0}}
      → check_participant db checkout retain ≡ ok u
      → (lookup db.participants checkout.root ≡ none)
        ⊎ (lookup db.participants checkout.root ≡ some (row_of retain checkout))
  unfolding check_participant
  participant_ok db checkout retain h =
      let o = lookup db.participants checkout.root in
      same_participant-row retain checkout o
        (guard-ok (same_participant retain checkout o) conflict h)

  pub bind_namespace_ok :
      (db bound : Database) (primary : Checkout) (retain : Str)
      → bind_namespace db retain host_slot retain primary ≡ ok bound
      → (contains_key bound.bindings retain ≡ true
          → lookup bound.bindings retain ≡ some (host_binding retain primary))
        × (bound_database db retain host_slot retain primary ≡ bound)
  unfolding bind_namespace host_binding
  bind_namespace_ok db bound primary retain h =
      let o = lookup db.bindings retain in
      let (u, e, k) = bind-ok (guard (same_binding host_slot retain primary o) conflict) _ h in
      let same : bound_database db retain host_slot retain primary ≡ bound =
        ok-injective {E = Error} k in
      let old =
        same_binding-row retain primary o
          (guard-ok (same_binding host_slot retain primary o) conflict e) in
      (
        subst
            (λ d.
              contains_key d.bindings retain ≡ true
              → lookup d.bindings retain ≡ some (host_binding retain primary))
            same (insert_binding_self retain (host_binding retain primary) db.bindings old),
        same,
      )

  pub written-IsAssociated :
      (db bound reserved : Database) (primary checkout : Checkout) (retain : Str)
      → db.initialized ≡ true
      → SameEvidence primary checkout
      → registration db retain ≡ ok true
      → (lookup db.participants primary.root ≡ none)
        ⊎ (lookup db.participants primary.root ≡ some (row_of retain primary))
      → (lookup db.participants checkout.root ≡ none)
        ⊎ (lookup db.participants checkout.root ≡ some (row_of retain checkout))
      → lookup bound.bindings retain ≡ some (host_binding retain primary)
      → bound_database db retain host_slot retain primary ≡ bound
      → Reserves lib bound reserved checkout retain
      → IsAssociated (written_database retain primary checkout reserved) primary checkout retain
  written-IsAssociated db bound reserved primary checkout retain init agree reg p c b same facts =
      let old : reserved.participants ≡ db.participants =
        facts.same_participants ∙ ap (λ d. d.participants) (sym same) in
      let p' =
        subst
          (λ rows.
            (lookup rows primary.root ≡ none)
            ⊎ (lookup rows primary.root ≡ some (row_of retain primary)))
          (sym old) p in
      let c' =
        subst
          (λ rows.
            (lookup rows checkout.root ≡ none)
            ⊎ (lookup rows checkout.root ≡ some (row_of retain checkout)))
          (sym old) c in
      let first =
        insert_or_ignore_self primary.root (row_of retain primary) reserved.participants p' in
      record {
        initialized = facts.same_initialized ∙ (ap (λ d. d.initialized) (sym same) ∙ init);
        registered =
            registration-kept db (written_database retain primary checkout reserved) retain
              (λ v k.
                facts.keeps retain registered_owner v
                  (subst (λ d. metadata_value d.metadata retain registered_owner ≡ some v) same k))
              reg;
        bound =
            subst (λ rows. lookup rows retain ≡ some (host_binding retain primary))
              (sym facts.same_bindings) b;
        primary_row =
            insert_or_ignore-keeps checkout.root (row_of retain checkout)
              (insert_or_ignore primary.root (row_of retain primary) reserved.participants)
              primary.root first;
        checkout_row = participants-row retain primary checkout reserved.participants agree p' c';
        reserved = facts.rows;
      }
