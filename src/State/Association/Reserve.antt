-- ===== src/State/Association/Reserve.antt =====
-- The reservation of a former namespace, crates/wrix-state/src/store/association.rs.
use wrix.Common.Results.{guard-ok}
use wrix.Common.{
  ◌≡◌, ◌≢◌, refl, subst, ◌⊎◌, inl, inr, not, some, Bool-cases, Result, ok, guard, bind-ok,
  ok-injective,
}
use wrix.Common.Text.{Str, str_eq, str_eq_iff}
use wrix.Common.Maps.{contains_key}
use wrix.State.{Error, conflict, Checkout, Metadata, Database, metadata_value, hash_of}
use wrix.State.Association.{
  former_owner, former_of, reserved_database, Library, same_bytes, reserve_former,
  reserve_if_former,
}
use wrix.State.Association.Laws.{insert_metadata-keeps, insert_metadata_self}

module _ (lib : Library) where
  abbrev pub former_key : Checkout → Str
  former_key checkout = hash_of lib.digest checkout.root

  -- The former namespace of a checkout is the primary's, or stands reserved in the metadata.
  abbrev pub IsReserved : Database → Checkout → Str → Type 0
  IsReserved db checkout retain =
      (former_key checkout ≡ retain)
      ⊎ ((former_key checkout ≢ retain)
          × (metadata_value db.metadata (former_key checkout) former_owner
              ≡ some (lib.encode (former_of retain checkout))))

  -- What the step of the reservation does to the database: nothing but its row.
  pub record Reserves (db after : Database) (checkout : Checkout) (retain : Str) : Type 0 where
    pub rows : IsReserved after checkout retain
    pub same_initialized : after.initialized ≡ db.initialized
    pub same_scope_policy : after.scope_policy ≡ db.scope_policy
    pub same_generation : after.generation ≡ db.generation
    pub same_integration : after.integration ≡ db.integration
    pub same_bindings : after.bindings ≡ db.bindings
    pub same_participants : after.participants ≡ db.participants
    pub keeps :
        (key name : Str) (v : Str)
        → metadata_value db.metadata key name ≡ some v
        → metadata_value after.metadata key name ≡ some v

  reserve_former-Reserves :
      (db after : Database) (retain : Str) (checkout : Checkout)
      → former_key checkout ≢ retain
      → reserve_former lib db (former_key checkout) retain checkout ≡ ok after
      → Reserves db after checkout retain
  unfolding reserve_former
  reserve_former-Reserves db after retain checkout ne h =
      let former = former_key checkout in
      let bytes = lib.encode (former_of retain checkout) in
      let row : Metadata = record { meta_key = former; owner = former_owner; value = bytes } in
      let (u1, e1, h1) = bind-ok (guard (not (contains_key db.bindings former)) conflict) _ h in
      let (u2, e2, h2) =
        bind-ok (guard (same_bytes bytes (metadata_value db.metadata former former_owner)) conflict)
          _ h1 in
      let same : reserved_database db former bytes ≡ after = ok-injective {E = Error} h2 in
      let free =
        guard-ok (same_bytes bytes (metadata_value db.metadata former former_owner)) conflict e2 in
      subst (λ d. Reserves db d checkout retain) same
        (record {
          rows = inr (ne, insert_metadata_self row db.metadata free);
          same_initialized = refl;
          same_scope_policy = refl;
          same_generation = refl;
          same_integration = refl;
          same_bindings = refl;
          same_participants = refl;
          keeps = λ key name v k. insert_metadata-keeps row db.metadata key name k;
        })

  pub reserve_if_former-Reserves :
      (db after : Database) (retain : Str) (checkout : Checkout)
      → reserve_if_former lib db (former_key checkout) retain checkout ≡ ok after
      → Reserves db after checkout retain
  unfolding reserve_if_former
  reserve_if_former-Reserves db after retain checkout h =
      elim (Bool-cases (str_eq (former_key checkout) retain)) [
        | inl e ↦
            let kept : ◌≡◌ {A = Result Error Database} (ok db) (ok after) = rw e at h in
            subst (λ d. Reserves db d checkout retain) (ok-injective {E = Error} kept)
              (record {
                rows = inl ((str_eq_iff (former_key checkout) retain).0 e);
                same_initialized = refl;
                same_scope_policy = refl;
                same_generation = refl;
                same_integration = refl;
                same_bindings = refl;
                same_participants = refl;
                keeps = λ key name v k. k;
              })
        | inr e ↦
            let reserving : reserve_former lib db (former_key checkout) retain checkout ≡ ok after =
              rw e at h in
            let ne : former_key checkout ≢ retain =
              λ q. cc ((str_eq_iff (former_key checkout) retain).1 q) in
            reserve_former-Reserves db after retain checkout ne reserving
      ]
