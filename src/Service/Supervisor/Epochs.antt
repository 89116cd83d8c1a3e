-- ===== src/Service/Supervisor/Epochs.antt =====
-- The epochs of crates/wrix-service/src/lifecycle/supervisor/state/mod.rs: an owner that served and did
-- not finish is never succeeded, and one that finished is.
use wrix.Common.{
  ℕ, ◌≤◌, ◌≡◌, ◌≢◌, refl, sym, subst, true, false, inl, inr, List, [], ◌∷◌, Option, some, arith,
  length, ltb, Bool-cases, Result, ok, err, ◌>>=◌, ◌>>◌, bind-ok,
}
use wrix.Common.Text.{Str, str_eq_refl}
use wrix.Service.Supervisor.{
  Record, Intent, serving, clean, Owner, Opening, Metadata, Saving, not_persisted, not_synced,
  saved, Disk, Error, limit, io_failure, check, accept, initial_record, decode_content, read,
  open_owner, open_record, incompatible, persisted, save, begin, intend, finish, with_epoch,
  with_intent,
}

-- An operation of an owner that lives, but the end of its epoch.
pub data Operation : Type 0 where
  op_begin : Saving → Operation
  op_intend : Intent → Saving → Operation

accept-serving :
    (name : Str) (r : Record) {last : Record} → r.epoch ≡ serving → accept name r ≡ ok last → ⊥
unfolding accept
accept-serving name r h k = ground arith

pub never-bind {ℓ κ μ} :
    {E : Type ℓ} {A : Type κ} {B : Type μ} (r : Result E A) (rest : A → Result E B) {last : B}
    → ((a : A) → rest a ≡ ok last → ⊥)
    → (r >>= rest) ≡ ok last
    → ⊥
never-bind (err e) rest f h = cc
never-bind (ok a) rest f h = f a h

-- A file of the owner, and a file system that answers as it should.
abbrev pub own_file : ℕ → Metadata
own_file uid = record { is_file = true; uid = uid; nlink = 1; mode = 384 }

abbrev pub healthy : ℕ → Opening
healthy uid = record {
  prepared = ok tt;
  root_uid = ok uid;
  lock_metadata = ok (own_file uid);
  locked = ok tt;
}

check-own : (uid : ℕ) → check (own_file uid) uid ≡ ok tt
unfolding check
check-own uid = ground arith

accept-own : (r : Record) → r.version ≡ 1 → r.epoch ≡ clean → accept r.namespace r ≡ ok r
unfolding accept
accept-own r v c = simp (v, c, str_eq_refl r.namespace)

-- The record is in place, whether or not its directory was synced.
abbrev pub IsInPlace : Saving → Type 0
IsInPlace (not_persisted e) = ⊥
IsInPlace (not_synced e) = Unit {0}
IsInPlace saved = Unit {0}

module _ (encode : Record → Str) (decode : Str → Result Str Record) where
  unfoldable pub run_operation : Operation → Owner × Disk → Owner × Disk
  unfolding begin intend
  run_operation (op_begin saving) (owner, disk) =
      let (next, written) = begin encode decode saving owner disk in (next, written.0)
  run_operation (op_intend intent saving) (owner, disk) =
      let (next, written) = intend encode decode intent saving owner disk in (next, written.0)

  unfoldable pub run_operations : List Operation → Owner × Disk → Owner × Disk
  unfolding run_operation
  run_operations [] state = state
  run_operations (operation ∷ operations) state =
      run_operations operations (run_operation operation state)

  -- The file that an owner who serves left.
  abbrev pub IsUnclean : Disk → Type 0
  IsUnclean disk =
      (left : Owner) × (left.state.epoch ≡ serving) × (disk ≡ persisted encode decode left)

  abbrev InEpoch : Owner × Disk → Type 0
  InEpoch (owner, disk) = (owner.state.epoch ≡ serving) × IsUnclean disk

  save-IsUnclean :
      (saving : Saving) (owner : Owner) (disk : Disk)
      → owner.state.epoch ≡ serving
      → IsUnclean disk
      → IsUnclean (save encode decode saving owner disk).0
  unfolding save
  save-IsUnclean (not_persisted e) owner disk h u = u
  save-IsUnclean (not_synced e) owner disk h u = (owner, h, refl)
  save-IsUnclean saved owner disk h u = (owner, h, refl)

  run_operation-InEpoch :
      (operation : Operation) (state : Owner × Disk)
      → InEpoch state
      → InEpoch (run_operation operation state)
  unfolding run_operation begin intend
  run_operation-InEpoch (op_begin saving) (owner, disk) (h, u) =
      (refl, save-IsUnclean saving (with_epoch encode decode serving owner) disk refl u)
  run_operation-InEpoch (op_intend intent saving) (owner, disk) (h, u) =
      (h, save-IsUnclean saving (with_intent encode decode intent owner) disk h u)

  run_operations-InEpoch :
      (operations : List Operation) (state : Owner × Disk)
      → InEpoch state
      → InEpoch (run_operations operations state)
  unfolding run_operations
  run_operations-InEpoch [] state h = h
  run_operations-InEpoch (operation ∷ operations) state h =
      run_operations-InEpoch operations (run_operation operation state)
        (run_operation-InEpoch operation state h)

  begin-InEpoch :
      (saving : Saving) (owner : Owner) (disk : Disk)
      → IsInPlace saving
      → InEpoch (run_operation (op_begin saving) (owner, disk))
  unfolding run_operation begin save
  begin-InEpoch (not_persisted e) owner disk h = elim h [ ]
  begin-InEpoch (not_synced e) owner disk h =
      (refl, (with_epoch encode decode serving owner, refl, refl))
  begin-InEpoch saved owner disk h = (refl, (with_epoch encode decode serving owner, refl, refl))

  module _ (decode-encode : (r : Record) → decode (encode r) ≡ ok r) where
    decode_content-encode :
        (r : Record) {found : Option Record}
        → decode_content encode decode (encode r) ≡ ok found
        → found ≡ some r
    unfolding decode_content
    decode_content-encode r {found} h = elim (Bool-cases (ltb limit (length (encode r)))) [
      | inl e ↦
          let fails : ◌≡◌ {A = Result Error (Option Record)} (err incompatible) (ok found) =
            rw e at h in
          cc
      | inr e ↦
          let reads : ◌≡◌ {A = Result Error (Option Record)} (ok (some r)) (ok found) =
            rw (e, decode-encode r) at h in
          cc
    ]

    -- What `read` finds in a file that an owner left is that owner's record.
    read-persisted :
        (left : Owner) (uid : ℕ) {found : Option Record}
        → read encode decode (persisted encode decode left) uid ≡ ok found
        → found ≡ some left.state
    unfolding read persisted
    read-persisted left uid h =
        let (u, e, k) =
          bind-ok (check (own_file left.owner_uid) uid)
            (λ u. decode_content encode decode (encode left.state)) h in
        decode_content-encode left.state k

    open_record-persisted :
        (left : Owner) (uid : ℕ) (name : Str) {next : Owner}
        → left.state.epoch ≡ serving
        → open_record encode decode uid (persisted encode decode left) name ≡ ok next
        → ⊥
    unfolding open_record initial_record
    open_record-persisted left uid name h k =
        let (found, e, k1) = bind-ok (read encode decode (persisted encode decode left) uid) _ k in
        let (accepted, e1, k2) = bind-ok (initial_record name found) _ k1 in
        let same = read-persisted left uid e in
        accept-serving name left.state h (subst (λ f. initial_record name f ≡ ok accepted) same e1)

    open-persisted :
        (left : Owner) (opening : Opening) (name : Str) {next : Owner}
        → left.state.epoch ≡ serving
        → open_owner encode decode opening (persisted encode decode left) name ≡ ok next
        → ⊥
    unfolding open_owner
    open-persisted left opening name h = never-bind (io_failure opening.prepared) _ (λ u.
        never-bind (io_failure opening.root_uid) _ (λ uid.
          never-bind (io_failure opening.lock_metadata) _ (λ metadata.
            never-bind (check metadata uid) _ (λ u.
              never-bind (io_failure opening.locked) _
                (λ u. open_record-persisted left uid name h)))))

    -- Where JSON reads back the record that it printed: once an owner's begin put its record in
    -- place, no later open gives an owner, under any name and whatever the file system answers,
    -- until an owner finishes: not after any sequence of further begins and changes of intent,
    -- saved or not.
    pub unclean_never_opens :
        (saving : Saving) (owner : Owner) (disk : Disk) (operations : List Operation)
        (opening : Opening) (name : Str) (next : Owner)
        → IsInPlace saving
        → open_owner encode decode opening
            (run_operations operations (run_operation (op_begin saving) (owner, disk))).1
            name
          ≢ ok next
    unclean_never_opens saving owner disk operations opening name next h k =
        let first = begin-InEpoch saving owner disk h in
        let (serves, (left, epoch, same)) =
          run_operations-InEpoch operations (run_operation (op_begin saving) (owner, disk)) first in
        open-persisted left opening name epoch
          (subst (λ d. open_owner encode decode opening d name ≡ ok next) same k)

    open_record-own :
        (left : Owner)
        → left.state.version ≡ 1
        → left.state.epoch ≡ clean
        → length (encode left.state) ≤ limit
        → open_record encode decode left.owner_uid
            (persisted encode decode left)
            left.state.namespace
          ≡ ok left
    unfolding open_record read persisted decode_content initial_record
    open_record-own left v c short =
        let small : ltb limit (length (encode left.state)) ≡ false = ground arith in
        rw (check-own left.owner_uid, small, decode-encode left.state, accept-own left.state v c)

    -- Where JSON reads back the record that it printed: an owner that finished, with its record
    -- saved, is opened again with the same record, when the file system answers as it should, the
    -- record has version 1, and its JSON is within the limit.
    pub finished_opens :
        (owner : Owner) (disk : Disk)
        → owner.state.version ≡ 1
        → length (encode (with_epoch encode decode clean owner).state) ≤ limit
        → open_owner encode decode
            (healthy owner.owner_uid)
            (finish encode decode saved owner disk).1.0
            owner.state.namespace
          ≡ ok (with_epoch encode decode clean owner)
    unfolding open_owner save finish
    finished_opens owner disk v short =
        let record_ = open_record-own (with_epoch encode decode clean owner) v refl short in
        let last : Result Error Owner =
          open_record encode decode owner.owner_uid
            (persisted encode decode (with_epoch encode decode clean owner))
            owner.state.namespace in
        subst (λ checked. (checked >> last) ≡ ok (with_epoch encode decode clean owner))
          (sym (check-own owner.owner_uid)) record_
