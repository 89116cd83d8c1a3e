-- ===== src/Service/Gateway/ListHeaders.antt =====
-- A map of headers as the list of its pairs, with the laws that the interface asks for.
use wrix.Common.{
  ◌≡◌, refl, ap, subst, ◌∙◌, inl, inr, false, List, [], ◌∷◌, some, if◌then◌else◌, Bool-cases,
}
use wrix.Common.Text.{Str, str_eq, str_eq_iff, str_eq_sym}
use wrix.Service.Gateway.Headers.{HeaderMap, HeaderLaws}

abbrev pub Pairs : Type 0
Pairs = List (Str × Str)

abbrev pub values_of : Pairs → Str → List Str
values_of [] name = []
values_of ((k, v) ∷ m) name =
    let rest = values_of m name in if str_eq k name then v ∷ rest else rest

abbrev pub without : Str → Pairs → Pairs
without name [] = []
without name ((k, v) ∷ m) =
    let rest = without name m in if str_eq k name then rest else (k, v) ∷ rest

abbrev pub list_headers : HeaderMap Pairs Str
list_headers = record {
  new_map = [];
  get_all = values_of;
  remove = without;
  insert = λ name value m. (name, value) ∷ without name m;
  from_static = λ text. text;
  to_str = λ value. some value;
  as_bytes = λ value. value;
}

values_of-without :
    (m : Pairs) (name other : Str)
    → values_of (without name m) other ≡ (if str_eq name other then [] else values_of m other)
values_of-without [] name other = elim (Bool-cases (str_eq name other)) [
  | inl e ↦ rw e
  | inr e ↦ rw e
]
values_of-without ((k, v) ∷ m) name other =
    let rest = values_of-without m name other in
    elim (Bool-cases (str_eq k name)) [
      | inl e ↦
          let same = (str_eq_iff k name).0 e in
          let swap : str_eq k other ≡ str_eq name other = ap (λ x. str_eq x other) same in
          elim (Bool-cases (str_eq name other)) [
            | inl f ↦ rw (e, rest, f)
            | inr f ↦ rw (e, rest, f, swap, f)
          ]
      | inr e ↦ elim (Bool-cases (str_eq k other)) [
        | inl f ↦
            let apart : str_eq name other ≡ false =
              subst (λ x. str_eq name x ≡ false) ((str_eq_iff k other).0 f)
                (str_eq_sym name k ∙ e) in
            rw (e, f, rest, apart)
        | inr f ↦ rw (e, f, rest)
      ]
    ]

values_of-insert :
    (m : Pairs) (name other value : Str)
    → values_of ((name, value) ∷ without name m) other
      ≡ (if str_eq name other then value ∷ [] else values_of m other)
values_of-insert m name other value = elim (Bool-cases (str_eq name other)) [
  | inl e ↦ rw (e, values_of-without m name other, e)
  | inr e ↦ rw (e, values_of-without m name other, e)
]

pub list_laws : HeaderLaws list_headers
list_laws = record {
  get_all-remove = λ m name other l k. values_of-without m name other;
  get_all-insert = λ m name other value l k. values_of-insert m name other value;
  to_str-from_static = λ text. refl;
}
