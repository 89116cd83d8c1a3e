-- ===== src/Service/Supervisor.antt =====
-- crates/wrix-service/src/lifecycle/supervisor/state/mod.rs: the durable record of a component's
-- owner. What the file system answers is an argument of each operation, and JSON is the pair of
-- functions that serde derives for a record.
pub mod Epochs
use wrix.Common.{
  ℕ, Bool, true, false, not, ◌&&◌, ◌||◌, ◌%◌, Option, none, some, ◌==◌, ltb, if◌then◌else◌, length,
  Result, ok, err, ◌>>=◌, ◌>>◌, guard,
}
use wrix.Common.Text.{Str, str_eq}

abbrev pub limit : ℕ
limit = 4096

pub data Intent : Type 0 where
  active : Intent
  retired : Intent

pub data Epoch : Type 0 where
  serving : Epoch
  clean : Epoch

-- `Record`, whose `version` is a `u8`.
pub record Record : Type 0 where
  pub version : ℕ
  pub namespace : Str
  pub intent : Intent
  pub epoch : Epoch

pub data Error : Type 0 where
  io_error : Str → Error
  permissions : Error
  incompatible : Error
  unclean : Error
  json_error : Str → Error
  committed : Str → Error

-- The parts of `fs::Metadata` that are read.
pub record Metadata : Type 0 where
  pub is_file : Bool
  pub uid : ℕ
  pub nlink : ℕ
  pub mode : ℕ

-- `component.json`: what asking for its metadata and reading it to the end give.
pub record File : Type 0 where
  pub metadata : Result Str Metadata
  pub content : Result Str Str

-- What opening `component.json` gives: no file, another error, or the file.
pub data Disk : Type 0 where
  not_found : Disk
  unreadable : Str → Disk
  opened : File → Disk

-- `Owner`: the lock is held as long as it lives.
pub record Owner : Type 0 where
  pub owner_uid : ℕ
  pub state : Record

-- What `open` is answered before it reads the record.
pub record Opening : Type 0 where
  pub prepared : Result Str (Unit {0})
  pub root_uid : Result Str ℕ
  pub lock_metadata : Result Str Metadata
  pub locked : Result Str (Unit {0})

-- How far a `save` gets: it fails before the file is in place, after that, or not.
pub data Saving : Type 0 where
  not_persisted : Str → Saving
  not_synced : Str → Saving
  saved : Saving

abbrev pub io_failure {ℓ} : {A : Type ℓ} → Result Str A → Result Error A
io_failure (ok a) = ok a
io_failure (err e) = err (io_error e)

abbrev pub json_failure : Result Str Record → Result Error (Option Record)
json_failure (ok record_) = ok (some record_)
json_failure (err e) = err (json_error e)

-- `check`: `mode & 0o077` is the last six bits.
unfoldable pub check : Metadata → ℕ → Result Error (Unit {0})
check metadata uid =
    if not metadata.is_file
      || (not (metadata.uid == uid) || (not (metadata.nlink == 1) || not (metadata.mode % 64 == 0)))
    then err permissions
    else ok tt

abbrev pub is_clean : Epoch → Bool
is_clean serving = false
is_clean clean = true

-- The test of a record that was found.
unfoldable pub accept : Str → Record → Result Error Record
accept name record_ =
    if not (record_.version == 1) || not (str_eq record_.namespace name)
    then err incompatible
    else if not (is_clean record_.epoch)
    then err unclean
    else ok record_

-- The record of an owner: the one that was found, or a new one.
unfoldable pub initial_record : Str → Option Record → Result Error Record
unfolding accept
initial_record name none =
    ok (record { version = 1; namespace = name; intent = active; epoch = clean })
initial_record name (some found) = accept name found

module _ (encode : Record → Str) (decode : Str → Result Str Record) where
  -- The bytes that were read, cut by `take(LIMIT + 1)`.
  unfoldable pub decode_content : Str → Result Error (Option Record)
  decode_content bytes =
      if ltb limit (length bytes) then err incompatible else json_failure (decode bytes)

  unfoldable pub read : Disk → ℕ → Result Error (Option Record)
  unfolding check decode_content
  read not_found uid = ok none
  read (unreadable e) uid = err (io_error e)
  read (opened file) uid = io_failure file.metadata >>= λ metadata.
      check metadata uid >> (io_failure file.content >>= λ bytes. decode_content bytes)

  -- The owner, from the record on the disk.
  unfoldable pub open_record : ℕ → Disk → Str → Result Error Owner
  unfolding read initial_record
  open_record uid disk name = read disk uid >>= λ found.
      initial_record name found >>= λ accepted. ok (record { owner_uid = uid; state = accepted })

  unfoldable pub open_owner : Opening → Disk → Str → Result Error Owner
  unfolding open_record check
  open_owner opening disk name =
      io_failure opening.prepared
      >> (io_failure opening.root_uid >>= λ uid. io_failure opening.lock_metadata >>= λ metadata.
          check metadata uid >> (io_failure opening.locked >> open_record uid disk name))

  -- The file that `persist` puts in place: a private temporary file of the owner.
  unfoldable pub persisted : Owner → Disk
  persisted owner = opened (record {
    metadata = ok (record { is_file = true; uid = owner.owner_uid; nlink = 1; mode = 384 });
    content = ok (encode owner.state);
  })

  unfoldable pub save : Saving → Owner → Disk → Disk × Result Error (Unit {0})
  unfolding persisted
  save (not_persisted e) owner disk = (disk, err (io_error e))
  save (not_synced e) owner disk = (persisted owner, err (committed e))
  save saved owner disk = (persisted owner, ok tt)

  abbrev pub with_epoch : Epoch → Owner → Owner
  with_epoch epoch_ owner = record owner { state = record owner.state { epoch = epoch_ } }

  abbrev pub with_intent : Intent → Owner → Owner
  with_intent intent_ owner = record owner { state = record owner.state { intent = intent_ } }

  -- An operation gives the owner in memory, the disk and its result.
  abbrev pub Outcome : Type 0
  Outcome = Owner × (Disk × Result Error (Unit {0}))

  unfoldable pub begin : Saving → Owner → Disk → Outcome
  unfolding save
  begin saving owner disk =
      let serving_owner = with_epoch serving owner in
      (serving_owner, save saving serving_owner disk)

  unfoldable pub intend : Intent → Saving → Owner → Disk → Outcome
  unfolding save
  intend intent_ saving owner disk =
      let changed = with_intent intent_ owner in (changed, save saving changed disk)

  unfoldable pub finish : Saving → Owner → Disk → Outcome
  unfolding save
  finish saving owner disk =
      let clean_owner = with_epoch clean owner in (clean_owner, save saving clean_owner disk)
