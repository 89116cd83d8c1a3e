-- ===== src/Service/Registry/Order.antt =====
-- The order of the entries of a registry, crates/wrix-service/src/control/registration/mod.rs.
use mathlib.Core.List.{append-nil, append_assoc}
use wrix.Common.{
  subst, ◌≡◌, refl, sym, ap, ◌∙◌, inl, inr, true, false, [], ◌∷◌, ◌++◌, some, arith, ok, Bool-cases,
}
use wrix.Common.Text.{Str, str_eq, str_eq_iff, str_eq_refl, str_leb}
use wrix.Common.Maps.{lookup, contains_key, remove_key}
use wrix.Service.Registry.{Policy, Namespaces, insert_entry, insert_entries}

str_leb_refl : (s : Str) → str_leb s s ≡ true
str_leb_refl [] = refl
str_leb_refl (c ∷ s) = ground (arith, str_leb_refl s)

str_leb_trans : (s t u : Str) → str_leb t s ≡ false → str_leb u t ≡ false → str_leb u s ≡ false
str_leb_trans [] [] u h k = cc
str_leb_trans [] (d ∷ t) [] h k = cc
str_leb_trans [] (d ∷ t) (e ∷ u) h k = refl
str_leb_trans (c ∷ s) [] u h k = cc
str_leb_trans (c ∷ s) (d ∷ t) [] h k = cc
str_leb_trans (c ∷ s) (d ∷ t) (e ∷ u) h k = let r = str_leb_trans s t u in ground (arith, r)

str_leb_total : (s t : Str) → str_leb s t ≡ true → str_eq t s ≡ false → str_leb t s ≡ false
str_leb_total [] [] h e = cc
str_leb_total [] (d ∷ t) h e = refl
str_leb_total (c ∷ s) [] h e = cc
str_leb_total (c ∷ s) (d ∷ t) h e = let r = str_leb_total s t in ground (arith, r)

-- Every key of the map comes after the key, or before it.
abbrev pub IsBefore : Str → Namespaces → Type 0
IsBefore k [] = Unit {0}
IsBefore k ((j, q) ∷ m) = (str_leb j k ≡ false) × IsBefore k m

abbrev pub IsAfter : Namespaces → Str → Type 0
IsAfter [] k = Unit {0}
IsAfter ((j, q) ∷ m) k = (str_leb k j ≡ false) × IsAfter m k

abbrev pub IsOrdered : Namespaces → Type 0
IsOrdered [] = Unit {0}
IsOrdered ((k, p) ∷ m) = IsBefore k m × IsOrdered m

IsBefore-trans : (k j : Str) (m : Namespaces) → str_leb j k ≡ false → IsBefore j m → IsBefore k m
IsBefore-trans k j [] h b = tt
IsBefore-trans k j ((i, q) ∷ m) h b = (str_leb_trans k j i h b.0, IsBefore-trans k j m h b.1)

insert_entry-IsBefore :
    (k j : Str) (p : Policy) (m : Namespaces)
    → str_leb j k ≡ false
    → IsBefore k m
    → IsBefore k (insert_entry j p m)
insert_entry-IsBefore k j p [] h b = (h, tt)
insert_entry-IsBefore k j p ((i, q) ∷ m) h b = elim (Bool-cases (str_eq i j)) [
  | inl e ↦ rw e (h, b.1)
  | inr e ↦ elim (Bool-cases (str_leb j i)) [
    | inl f ↦ rw (e, f) (h, b)
    | inr f ↦ rw (e, f) (b.0, insert_entry-IsBefore k j p m h b.1)
  ]
]

pub insert_entry-IsOrdered :
    (k : Str) (p : Policy) (m : Namespaces) → IsOrdered m → IsOrdered (insert_entry k p m)
insert_entry-IsOrdered k p [] o = (tt, tt)
insert_entry-IsOrdered k p ((j, q) ∷ m) o = elim (Bool-cases (str_eq j k)) [
  | inl e ↦
      let same : j ≡ k = (str_eq_iff j k).0 e in rw e (subst (λ i. IsBefore i m) same o.0, o.1)
  | inr e ↦ elim (Bool-cases (str_leb k j)) [
    | inl f ↦
        let less = str_leb_total k j f e in rw (e, f) ((less, IsBefore-trans k j m less o.0), o)
    | inr f ↦ rw (e, f) (insert_entry-IsBefore j k p m f o.0, insert_entry-IsOrdered k p m o.1)
  ]
]

remove_key-IsBefore : (k j : Str) (m : Namespaces) → IsBefore k m → IsBefore k (remove_key j m)
remove_key-IsBefore k j [] b = tt
remove_key-IsBefore k j ((i, q) ∷ m) b = elim (Bool-cases (str_eq i j)) [
  | inl e ↦ rw e (remove_key-IsBefore k j m b.1)
  | inr e ↦ rw e (b.0, remove_key-IsBefore k j m b.1)
]

pub remove_key-IsOrdered : (k : Str) (m : Namespaces) → IsOrdered m → IsOrdered (remove_key k m)
remove_key-IsOrdered k [] o = tt
remove_key-IsOrdered k ((i, q) ∷ m) o = elim (Bool-cases (str_eq i k)) [
  | inl e ↦ rw e (remove_key-IsOrdered k m o.1)
  | inr e ↦ rw e (remove_key-IsBefore i k m o.0, remove_key-IsOrdered k m o.1)
]

pub lookup-insert_entry_self :
    (k : Str) (p : Policy) (m : Namespaces) → lookup (insert_entry k p m) k ≡ some p
lookup-insert_entry_self k p [] = rw (str_eq_refl k)
lookup-insert_entry_self k p ((j, q) ∷ m) = elim (Bool-cases (str_eq j k)) [
  | inl e ↦ rw (e, str_eq_refl k)
  | inr e ↦ elim (Bool-cases (str_leb k j)) [
    | inl f ↦ rw (e, f, str_eq_refl k)
    | inr f ↦ rw (e, f, e, lookup-insert_entry_self k p m)
  ]
]

pub lookup-insert_entry_other :
    (k : Str) (p : Policy) (m : Namespaces) (i : Str)
    → str_eq k i ≡ false
    → lookup (insert_entry k p m) i ≡ lookup m i
lookup-insert_entry_other k p [] i h = rw h
lookup-insert_entry_other k p ((j, q) ∷ m) i h = elim (Bool-cases (str_eq j k)) [
  | inl e ↦
      let other : str_eq j i ≡ false =
        subst (λ t. str_eq t i ≡ false) (sym ((str_eq_iff j k).0 e)) h in
      rw (e, h, other)
  | inr e ↦ elim (Bool-cases (str_leb k j)) [
    | inl f ↦ rw (e, f, h)
    | inr f ↦ rw (e, f, lookup-insert_entry_other k p m i h)
  ]
]

-- A key after all others goes to the end, and is not there yet.
insert_entry_last :
    (k : Str) (p : Policy) (m : Namespaces)
    → IsAfter m k
    → (insert_entry k p m ≡ m ++ (k, p) ∷ []) × (contains_key m k ≡ false)
insert_entry_last k p [] a = (refl, refl)
insert_entry_last k p ((j, q) ∷ m) a =
    let (rest, absent) = insert_entry_last k p m a.1 in
    elim (Bool-cases (str_eq j k)) [
      | inl e ↦
          let same = (str_eq_iff j k).0 e in
          let twice : str_leb k k ≡ false = subst (λ t. str_leb k t ≡ false) same a.0 in
          let once = str_leb_refl k in absurd cc
      | inr e ↦ (rw (e, a.0, rest), rw (e, absent))
    ]

IsAfter-append :
    (m : Namespaces) (k j : Str) (p : Policy)
    → IsAfter m j
    → str_leb j k ≡ false
    → IsAfter (m ++ (k, p) ∷ []) j
IsAfter-append [] k j p a h = (h, tt)
IsAfter-append ((i, q) ∷ m) k j p a h = (a.0, IsAfter-append m k j p a.1 h)

-- Every key of the second map comes after the first map.
abbrev IsBelow : Namespaces → Namespaces → Type 0
IsBelow m [] = Unit {0}
IsBelow m ((k, p) ∷ n) = IsAfter m k × IsBelow m n

IsBelow-append :
    (m n : Namespaces) (k : Str) (p : Policy)
    → IsBelow m n
    → IsBefore k n
    → IsBelow (m ++ (k, p) ∷ []) n
IsBelow-append m [] k p b h = tt
IsBelow-append m ((j, q) ∷ n) k p b h =
    (IsAfter-append m k j p b.0 h.0, IsBelow-append m n k p b.1 h.1)

insert_entries-append :
    (m n : Namespaces) → IsBelow m n → IsOrdered n → insert_entries n m ≡ ok (m ++ n)
unfolding insert_entries
insert_entries-append m [] b o = ap ok (sym (append-nil m))
insert_entries-append m ((k, p) ∷ n) b o =
    let (last, absent) = insert_entry_last k p m b.0 in
    let rest = insert_entries-append (m ++ (k, p) ∷ []) n (IsBelow-append m n k p b.1 o.0) o.1 in
    rw (absent, last) (rest ∙ ap ok (append_assoc m ((k, p) ∷ []) n))

-- An ordered list of entries is read back as it is.
pub insert_entries-IsOrdered : (n : Namespaces) → IsOrdered n → insert_entries n [] ≡ ok n
insert_entries-IsOrdered n o = insert_entries-append [] n (all_below n) o
  where
    all_below : (n : Namespaces) → IsBelow [] n
    all_below [] = tt
    all_below (e ∷ n) = (tt, all_below n)
