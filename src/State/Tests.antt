-- ===== src/State/Tests.antt =====
-- The host's control database on concrete inputs.
use wrix.Common.Maps.{contains_key}
use wrix.Common.Lists.{take-append, drop-append}
use wrix.Common.{
  Bool-cases, inl, inr, subst, ℕ, zero, suc, true, ◌≡◌, refl, sym, ◌∙◌, ◌≢◌, ap, take, drop, length,
  ◌++◌, List, [], ◌∷◌, Option, none, some, false, if◌then◌else◌, Result, ok,
}
use wrix.Common.Text.{Str, codes, str_eq, str_eq_iff}
use wrix.Core.Workspace
use wrix.State.{
  Error, conflict, Checkout, Database, Participant, hash_of, registered_owner, one_byte,
}
use wrix.State
use wrix.State.Association
use wrix.State.Association.{Library, World, Former, associate, association}
use wrix.State.Association.Written.{IsAssociated, Keeps, IsReferring}
use wrix.State.Association.Committed.{associate-IsAssociated}
use wrix.State.Association.Laws.{joined_database}
use wrix.State.Association.Reserve.{former_key}
use wrix.State.Association.Moves.{associate-conflict}
use wrix.State.Association.Found.{IsUnchanged, associate-association}

abbrev repeated : ℕ → ℕ → List ℕ
repeated zero b = []
repeated (suc n) b = b ∷ repeated n b

abbrev primary_checkout : Checkout
primary_checkout = record {
  root = codes "/p";
  git = codes "/g";
  common = codes "/g";
  evidence = codes "1";
  routing = [];
}

abbrev worktree : Checkout
worktree = record {
  root = codes "/w";
  git = codes "/g";
  common = codes "/g";
  evidence = codes "2";
  routing = [];
}

abbrev digest : Str → List ℕ
digest path = if str_eq path (codes "/p") then repeated 32 171 else repeated 32 1

-- The fields of a record after each other, each text but the last one behind its length.
abbrev print_former : Former → Str
print_former former =
    former.version
    ∷ length former.destination
    ∷ (former.destination ++ (length former.checkout ∷ (former.checkout ++ former.evidence)))

abbrev read_fields : ℕ → Str → Str → Option Former
read_fields version destination [] = none
read_fields version destination (n ∷ rest) = some (record {
  version = version;
  destination = destination;
  checkout = take n rest;
  evidence = drop n rest;
})

abbrev read_former : Str → Option Former
read_former [] = none
read_former (version ∷ []) = none
read_former (version ∷ n ∷ rest) = read_fields version (take n rest) (drop n rest)

read_former-print_former : (former : Former) → read_former (print_former former) ≡ some former
read_former-print_former former =
    let rest = length former.checkout ∷ (former.checkout ++ former.evidence) in
    simp (
      take-append former.destination rest,
      drop-append former.destination rest,
      take-append former.checkout former.evidence,
      drop-append former.checkout former.evidence,
    )

abbrev library : Library
library = record {
  digest = digest;
  encode = print_former;
  decode = read_former;
  is_normal = λ path. true;
}

abbrev answers : World
answers = record {
  host_check = ok tt;
  discover = λ path. if str_eq path (codes "/p") then ok primary_checkout else ok worktree;
  check_retention = λ key. ok tt;
  mutate = ok tt;
  scope_check = λ key root. ok tt;
  recheck_before = λ checkout. ok tt;
  recheck_after = λ checkout. ok tt;
  check_evidence = λ evidence. ok tt;
}

abbrev key : Str
key = Workspace.push_hex_bytes [] (repeated 32 171)

abbrev former_of_worktree : Str
former_of_worktree = Workspace.push_hex_bytes [] (repeated 32 1)

abbrev registered : Database
registered = record {
  initialized = true;
  scope_policy = false;
  generation = codes "g";
  integration = none;
  bindings = [];
  participants = [];
  metadata = (record { meta_key = key; owner = registered_owner; value = one_byte }) ∷ [];
}

abbrev written : Result Error (Database × Str)
written = associate library answers registered (codes "/p") (codes "/w") key

abbrev after : Database
after = joined_database key worktree (
    joined_database key primary_checkout (
      Association.reserved_database
        (Association.bound_database registered key Association.host_slot key primary_checkout)
        former_of_worktree (print_former (Association.former_of key worktree))))

written-ok :
    associate library answers registered (codes "/p") (codes "/w") key
    ≡ ok (after, former_of_worktree)
unfolding associate Association.associate_checkouts Association.associate_in hash_of
    State.registration Association.check_participant Association.bind_namespace
    Association.reserve_if_former Association.reserve_former Association.insert_participants
    Association.insert_participant Workspace.push_hex_bytes Workspace.push_hex_byte
written-ok = refl

true_apart : true ≢ false
true_apart h = cc

no_participants : IsReferring library registered
no_participants root row h = cc

same_evidence :
    primary_checkout.root ≡ worktree.root → primary_checkout.evidence ≡ worktree.evidence
same_evidence same =
    let apart : str_eq (codes "/p") (codes "/w") ≡ false = refl in
    let equal : str_eq (codes "/p") (codes "/w") ≡ true =
      (str_eq_iff (codes "/p") (codes "/w")).1 same in
    absurd (true_apart (sym equal ∙ apart))

associate-IsAssociated_example :
    IsAssociated library after primary_checkout worktree key
    × (Keeps library registered after × IsReferring library after)
    × (former_of_worktree ≡ former_key library worktree)
    × (former_key library primary_checkout ≡ key)
associate-IsAssociated_example =
    associate-IsAssociated library answers registered after (codes "/p") (codes "/w") key
      former_of_worktree primary_checkout worktree refl refl no_participants same_evidence
      written-ok

unchanged : IsUnchanged library read_former-print_former answers primary_checkout worktree key
unfolding Workspace.parse_hash Workspace.is_valid_str Workspace.is_lower_hex_digit
    Workspace.push_hex_bytes Workspace.push_hex_byte Association.parse_path
unchanged = record {
  valid_key = refl;
  primary_path = refl;
  checkout_path = refl;
  found = refl;
  primary_same = refl;
  checkout_same = refl;
  evidence_valid = refl;
}

associate-association_example :
    association library answers after worktree
    ≡ ok (some (record { key = key; associated = worktree; primary = primary_checkout }))
associate-association_example =
    associate-association library read_former-print_former answers answers registered after
      (codes "/p") (codes "/w") key former_of_worktree primary_checkout worktree refl refl
      no_participants same_evidence written-ok unchanged

-- The worktree joined another namespace before.
abbrev other_row : Participant
other_row = record { native_key = former_of_worktree; observed = codes "2" }

abbrev joined_elsewhere : Database
joined_elsewhere = record registered {
  bindings =
      (
        former_of_worktree,
        Association.binding_row Association.host_slot former_of_worktree worktree,
      )
      ∷ [];
  participants = (codes "/w", other_row) ∷ [];
}

elsewhere_refers : IsReferring library joined_elsewhere
unfolding Workspace.push_hex_bytes Workspace.push_hex_byte
elsewhere_refers root row h = elim (Bool-cases (str_eq (codes "/w") root)) [
  | inl e ↦
      let found : ◌≡◌ {A = Option Participant} (some other_row) (some row) = rw e at h in
      let same : other_row ≡ row = cc in
      subst (λ r. contains_key joined_elsewhere.bindings r.native_key ≡ true) same refl
  | inr e ↦ let found : ◌≡◌ {A = Option Participant} none (some row) = rw e at h in absurd cc
]

other_key : other_row ≢ Association.row_of key worktree
unfolding Workspace.push_hex_bytes Workspace.push_hex_byte
other_key same =
    let equal = (str_eq_iff former_of_worktree key).1 (ap (λ r. r.native_key) same) in
    let apart : str_eq former_of_worktree key ≡ false = refl in true_apart (sym equal ∙ apart)

associate-conflict_example :
    associate library answers joined_elsewhere (codes "/p") (codes "/w") key
    ≢ ok (after, former_of_worktree)
associate-conflict_example =
    associate-conflict library answers joined_elsewhere after (codes "/p") (codes "/w") key
      former_of_worktree worktree other_row refl refl other_key
