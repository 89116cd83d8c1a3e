-- ===== src/State/Association/Laws.antt =====
-- What an association of crates/wrix-state/src/store/association.rs writes and keeps.
use wrix.Common.{
  ◌≡◌, refl, subst, ◌∙◌, ◌⊎◌, inl, inr, true, false, &&-true, List, ◌∷◌, Option, none, some,
  Bool-cases, Option-cases, Result, ok, err, ok-injective,
}
use wrix.Common.Text.{Str, str_eq, str_eq_iff, str_eq_refl, codes}
use wrix.Common.Maps.{lookup, contains_key, lookup-contains, lookup-bound}
use wrix.State.{
  Error, other_error, Checkout, Binding, Participant, Metadata, Database, is_row, insert_or_ignore,
  metadata_value, insert_metadata,
}
use wrix.State.Association.{
  host_slot, same_participant, same_binding, same_bytes, row_of, insert_participant, insert_binding,
  is_taken,
}

-- A row that is there stays.
pub insert_or_ignore-keeps {ℓ} :
    {V : Type ℓ} (k : Str) (w : V) (m : List (Str × V)) (i : Str) {v : V}
    → lookup m i ≡ some v
    → lookup (insert_or_ignore k w m) i ≡ some v
insert_or_ignore-keeps k w m i {v} h = elim (Bool-cases (contains_key m k)) [
  | inl e ↦ rw e h
  | inr e ↦ elim (Bool-cases (str_eq k i)) [
    | inl f ↦
        let absent =
          subst (λ j. lookup m j ≡ none) ((str_eq_iff k i).0 f) (lookup-contains m k e) in
        cc
    | inr f ↦ rw (e, f, h)
  ]
]

-- The other rows stay as they are.
pub insert_or_ignore-other {ℓ} :
    {V : Type ℓ} (k : Str) (w : V) (m : List (Str × V)) (i : Str)
    → str_eq k i ≡ false
    → lookup (insert_or_ignore k w m) i ≡ lookup m i
insert_or_ignore-other k w m i h = elim (Bool-cases (contains_key m k)) [
  | inl e ↦ rw e
  | inr e ↦ rw (e, h)
]

-- A row that is written over nothing, or over itself, is the row that is read.
pub insert_or_ignore_self {ℓ} :
    {V : Type ℓ} (k : Str) (v : V) (m : List (Str × V))
    → (lookup m k ≡ none) ⊎ (lookup m k ≡ some v)
    → lookup (insert_or_ignore k v m) k ≡ some v
insert_or_ignore_self k v m (inr h) = insert_or_ignore-keeps k v m k h
insert_or_ignore_self k v m (inl h) = elim (Bool-cases (contains_key m k)) [
  | inl e ↦ absurd (lookup-bound m k e h)
  | inr e ↦ rw (e, str_eq_refl k)
]

-- A row that is read was written or was there.
pub insert_or_ignore-either {ℓ} :
    {V : Type ℓ} (k : Str) (w : V) (m : List (Str × V)) (i : Str) {v : V}
    → lookup (insert_or_ignore k w m) i ≡ some v
    → (w ≡ v) ⊎ (lookup m i ≡ some v)
insert_or_ignore-either {V = V} k w m i {v} h = elim (Bool-cases (contains_key m k)) [
  | inl e ↦ inr (rw e at h)
  | inr e ↦ elim (Bool-cases (str_eq k i)) [
    | inl f ↦ let written : ◌≡◌ {A = Option V} (some w) (some v) = rw (e, f) at h in inl cc
    | inr f ↦ inr (rw (e, f) at h)
  ]
]

-- A key that is there stays there.
pub insert_or_ignore-contains {ℓ} :
    {V : Type ℓ} (k : Str) (w : V) (m : List (Str × V)) (i : Str)
    → contains_key m i ≡ true
    → contains_key (insert_or_ignore k w m) i ≡ true
insert_or_ignore-contains k w m i h = elim (Bool-cases (contains_key m k)) [
  | inl e ↦ rw (e, h)
  | inr e ↦ elim (Bool-cases (str_eq k i)) [ inl f ↦ rw (e, f) | inr f ↦ rw (e, f, h) ]
]

pub insert_binding-keeps :
    (k : Str) (row : Binding) (m : List (Str × Binding)) (i : Str) {v : Binding}
    → lookup m i ≡ some v
    → lookup (insert_binding k row m) i ≡ some v
insert_binding-keeps k row m i h = elim (Bool-cases (is_taken m row.slot row.membership)) [
  | inl e ↦ rw (e, h)
  | inr e ↦ rw e (insert_or_ignore-keeps k row m i h)
]

pub insert_binding-contains :
    (k : Str) (row : Binding) (m : List (Str × Binding)) (i : Str)
    → contains_key m i ≡ true
    → contains_key (insert_binding k row m) i ≡ true
insert_binding-contains k row m i h = elim (Bool-cases (is_taken m row.slot row.membership)) [
  | inl e ↦ rw (e, h)
  | inr e ↦ rw e (insert_or_ignore-contains k row m i h)
]

-- A key that has a row once its row was written over nothing or itself has that row.
pub insert_binding_self :
    (k : Str) (row : Binding) (m : List (Str × Binding))
    → (lookup m k ≡ none) ⊎ (lookup m k ≡ some row)
    → contains_key (insert_binding k row m) k ≡ true
    → lookup (insert_binding k row m) k ≡ some row
insert_binding_self k row m (inr h) there = insert_binding-keeps k row m k h
insert_binding_self k row m (inl h) there = elim (Bool-cases (is_taken m row.slot row.membership)) [
  | inl e ↦ let old : contains_key m k ≡ true = rw e at there in absurd (lookup-bound m k old h)
  | inr e ↦ rw e (insert_or_ignore_self k row m (inl h))
]

-- Both rows of the participants after a call that inserts them.
abbrev pub joined_database : Str → Checkout → Database → Database
joined_database key checkout db = record db {
  participants = insert_or_ignore checkout.root (row_of key checkout) db.participants;
}

pub insert_participant-ok :
    (key : Str) (checkout : Checkout) (db after : Database)
    → insert_participant key checkout db ≡ ok after
    → (joined_database key checkout db ≡ after)
      × ((contains_key db.participants checkout.root ≡ true)
          ⊎ (contains_key db.bindings key ≡ true))
unfolding insert_participant
insert_participant-ok key checkout db after h =
    elim (Bool-cases (contains_key db.participants checkout.root)) [
      | inl e ↦
          let kept : ◌≡◌ {A = Result Error Database} (ok db) (ok after) = rw e at h in
          let same : joined_database key checkout db ≡ db = simp e in
          (same ∙ ok-injective {E = Error} kept, inl e)
      | inr e ↦ elim (Bool-cases (contains_key db.bindings key)) [
        | inl f ↦
            let put : ◌≡◌ {A = Result Error Database}
                (ok (record db {
                  participants = (checkout.root, row_of key checkout) ∷ db.participants;
                }))
                (ok after) =
              rw (e, f) at h in
            let same : joined_database key checkout db ≡ record db {
              participants = (checkout.root, row_of key checkout) ∷ db.participants;
            } =
              simp e in
            (same ∙ ok-injective {E = Error} put, inr f)
        | inr f ↦
            let failed : ◌≡◌ {A = Result Error Database}
                (err (other_error (codes "FOREIGN KEY constraint failed"))) (ok after) =
              rw (e, f) at h in
            absurd cc
      ]
    ]

is_row-columns :
    (row : Metadata) (key name : Str)
    → is_row key name row ≡ true
    → (row.meta_key ≡ key) × (row.owner ≡ name)
is_row-columns row key name h =
    let (a, b) = &&-true (str_eq row.meta_key key) (str_eq row.owner name) h in
    ((str_eq_iff row.meta_key key).0 a, (str_eq_iff row.owner name).0 b)

is_row_self : (row : Metadata) → is_row row.meta_key row.owner row ≡ true
is_row_self row = rw (str_eq_refl row.meta_key, str_eq_refl row.owner)

pub insert_metadata-keeps :
    (row : Metadata) (rows : List Metadata) (key name : Str) {v : Str}
    → metadata_value rows key name ≡ some v
    → metadata_value (insert_metadata row rows) key name ≡ some v
insert_metadata-keeps row rows key name {v} h =
    elim (Option-cases (metadata_value rows row.meta_key row.owner)) [
      | inr (old, e) ↦ rw e h
      | inl e ↦ elim (Bool-cases (is_row key name row)) [
        | inl f ↦
            let (a, b) = is_row-columns row key name f in
            let absent =
              subst (λ o. metadata_value rows key o ≡ none) b
                (subst (λ k. metadata_value rows k row.owner ≡ none) a e) in
            cc
        | inr f ↦ rw (e, f, h)
      ]
    ]

pub insert_metadata_self :
    (row : Metadata) (rows : List Metadata)
    → same_bytes row.value (metadata_value rows row.meta_key row.owner) ≡ true
    → metadata_value (insert_metadata row rows) row.meta_key row.owner ≡ some row.value
insert_metadata_self row rows h = elim (Option-cases (metadata_value rows row.meta_key row.owner)) [
  | inl e ↦ rw (e, is_row_self row)
  | inr (old, e) ↦
      let same : str_eq old row.value ≡ true = rw e at h in
      let equal = (str_eq_iff old row.value).0 same in rw (e, e, equal)
]

-- A checkout that may take part has no row, or the row that would be written.
pub same_participant-row :
    (key : Str) (checkout : Checkout) (o : Option Participant)
    → same_participant key checkout o ≡ true
    → (o ≡ none) ⊎ (o ≡ some (row_of key checkout))
same_participant-row key checkout none h = inl refl
same_participant-row key checkout (some row) h =
    let (a, b) = &&-true (str_eq row.native_key key) (str_eq row.observed checkout.evidence) h in
    let same_key = (str_eq_iff row.native_key key).0 a in
    let same_evidence = (str_eq_iff row.observed checkout.evidence).0 b in
    inr (λ i. some (record { native_key = same_key i; observed = same_evidence i }))

unfoldable pub host_binding : Str → Checkout → Binding
host_binding retain primary = record {
  slot = host_slot;
  membership = retain;
  primary_root = primary.root;
  primary_evidence = primary.evidence;
}

pub same_binding-row :
    (retain : Str) (primary : Checkout) (o : Option Binding)
    → same_binding host_slot retain primary o ≡ true
    → (o ≡ none) ⊎ (o ≡ some (host_binding retain primary))
unfolding host_binding
same_binding-row retain primary none h = inl refl
same_binding-row retain primary (some row) h =
    let (a, h1) = &&-true (str_eq row.slot host_slot) _ h in
    let (b, h2) = &&-true (str_eq row.membership retain) _ h1 in
    let (c, d) = &&-true (str_eq row.primary_root primary.root) _ h2 in
    let e1 = (str_eq_iff row.slot host_slot).0 a in
    let e2 = (str_eq_iff row.membership retain).0 b in
    let e3 = (str_eq_iff row.primary_root primary.root).0 c in
    let e4 = (str_eq_iff row.primary_evidence primary.evidence).0 d in
    inr (λ i.
      some
        (record { slot = e1 i; membership = e2 i; primary_root = e3 i; primary_evidence = e4 i }))
