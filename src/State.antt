-- ===== src/State.antt =====
-- crates/wrix-state/src: the host's control database. Its tables are lists with the columns that the
-- code reads, under the keys of the schema. Every write of a call stands in one transaction, so a call
-- that fails leaves the database as it was; an error of SQLite itself is not modelled.
pub mod Association
mod Tests
use wrix.Common.{
  ℕ, Bool, true, false, not, ◌&&◌, List, [], ◌∷◌, Option, none, some, ◌==◌, if◌then◌else◌, Result,
  ok, err,
}
use wrix.Common.Text.{Str, str_eq, codes}
use wrix.Common.Maps.{lookup, contains_key}
use wrix.Core.Workspace.{push_hex_bytes}

pub data Error : Type 0 where
  unsupported : Error
  conflict : Error
  uninitialized : Error
  import_required : Str → Error
  invalid : Str → Error
  integration_error : Error
  other_error : Str → Error

-- `Checkout`; the code of this model reads its root and the evidence that was observed of it.
pub record Checkout : Type 0 where
  pub root : Str
  pub git : Str
  pub common : Str
  pub evidence : Str
  pub routing : List (Str × Option Str)

-- A row of `binding`, under `native_key`.
pub record Binding : Type 0 where
  pub slot : Str
  pub membership : Str
  pub primary_root : Str
  pub primary_evidence : Str

-- A row of `participant`, under `checkout`.
pub record Participant : Type 0 where
  pub native_key : Str
  pub observed : Str

-- A row of `namespace_metadata`.
pub record Metadata : Type 0 where
  pub meta_key : Str
  pub owner : Str
  pub value : Str

pub record Database : Type 0 where
  pub initialized : Bool
  pub scope_policy : Bool
  pub generation : Str
  pub integration : Option (Str × Str)
  pub bindings : List (Str × Binding)
  pub participants : List (Str × Participant)
  pub metadata : List Metadata

-- `INSERT OR IGNORE` into a table with a text key.
abbrev pub insert_or_ignore {ℓ} : {V : Type ℓ} → Str → V → List (Str × V) → List (Str × V)
insert_or_ignore k v m = if contains_key m k then m else (k, v) ∷ m

abbrev pub is_row : Str → Str → Metadata → Bool
is_row key name row = str_eq row.meta_key key && str_eq row.owner name

-- `SELECT value FROM namespace_metadata WHERE native_key = ?1 AND owner = ?2`.
abbrev pub metadata_value : List Metadata → Str → Str → Option Str
metadata_value [] key name = none
metadata_value (row ∷ rows) key name =
    if is_row key name row then some row.value else metadata_value rows key name

-- `SELECT EXISTS(SELECT 1 FROM namespace_metadata WHERE native_key = ?1)`.
abbrev pub has_metadata : List Metadata → Str → Bool
has_metadata [] key = false
has_metadata (row ∷ rows) key = if str_eq row.meta_key key then true else has_metadata rows key

abbrev pub is_some {ℓ} : {A : Type ℓ} → Option A → Bool
is_some none = false
is_some (some a) = true

-- `INSERT OR IGNORE INTO namespace_metadata`.
abbrev pub insert_metadata : Metadata → List Metadata → List Metadata
insert_metadata row rows =
    if is_some (metadata_value rows row.meta_key row.owner) then rows else row ∷ rows

abbrev pub registered_owner : Str
registered_owner = codes "namespace/registered"

-- The value X'01'.
abbrev pub one_byte : Str
one_byte = 1 ∷ []

abbrev pub registration_value : Option Str → Result Error Bool
registration_value none = ok false
registration_value (some v) = if str_eq v one_byte then ok true else err unsupported

-- `namespace::registration`.
unfoldable pub registration : Database → Str → Result Error Bool
registration db key = registration_value (metadata_value db.metadata key registered_owner)

-- `WorkspaceHash::from_path`, from the digest that SHA-256 gives of a path.
unfoldable pub hash_of : (Str → List ℕ) → Str → Str
hash_of digest path = push_hex_bytes [] (digest path)

abbrev pub is_absolute : Str → Bool
is_absolute [] = false
is_absolute (c ∷ s) = c == b'/'
