-- ===== src/Service/Gateway/Hop.antt =====
-- What `strip_hop` of crates/wrix-service/src/gateway/traffic/mod.rs leaves of the headers.
use wrix.Common.{
  ◌≡◌, refl, sym, ap, subst, ◌∙◌, inl, inr, Bool, true, false, not, ◌||◌, List, [], ◌∷◌, ◌++◌,
  arith, if◌then◌else◌, All, Bool-cases, ok, ok_or, bind-ok, guard-then, ok-injective, not-true,
  if-merge, All-map,
}
use wrix.Common.Text.{Str, str_eq, str_eq_iff, codes}
use wrix.Service.Policy.{to_lowercase, split_at}
use wrix.Service.Policy.Hosts.{lowercase_twice}
use wrix.Service.Gateway.{Error, invalid_protocol, contains_secret}
use wrix.Service.Gateway.Headers.{
  HeaderMap, HeaderLaws, IsLower, framing_names, hop_names, option_name, check_names, option_names,
  remove_names, strip_hop, trim,
}

contains-append :
    (xs ys : List Str) (s : Str)
    → contains_secret (xs ++ ys) s ≡ (contains_secret xs s || contains_secret ys s)
contains-append [] ys s = refl
contains-append (x ∷ xs) ys s = ground (arith, contains-append xs ys s)

All-append : (P : Str → Type 0) (xs ys : List Str) → All P xs → All P ys → All P (xs ++ ys)
All-append P [] ys h k = k
All-append P (x ∷ xs) ys (h, hs) k = (h, All-append P xs ys hs k)

differ : {b : Bool} → b ≡ false → b ≡ true → ⊥
differ h k = cc

if-or :
    {A : Type 0} (a b : Bool) (x y : A)
    → (if a then x else if b then x else y) ≡ (if a || b then x else y)
if-or true b x y = refl
if-or false b x y = refl

-- A name in lower case that is none of the framing ones.
abbrev IsOption : Str → Type 0
IsOption name = IsLower name × (contains_secret framing_names name ≡ false)

check_names-IsOption :
    (parts : List Str) (names : List Str) → check_names parts ≡ ok names → All IsOption names
unfolding check_names option_name
check_names-IsOption [] names h = subst (All IsOption) (ok-injective {E = Error} h) tt
check_names-IsOption (part ∷ parts) names h =
    let (free, h1) =
      guard-then (not (contains_secret framing_names (option_name part))) invalid_protocol _ h in
    let (rest, q, h2) = bind-ok (check_names parts) _ h1 in
    let apart = not-true (contains_secret framing_names (option_name part)) free in
    subst (All IsOption) (ok-injective {E = Error} h2)
      ((lowercase_twice (trim part), apart), check_names-IsOption parts rest q)

options-apart :
    (names : List Str)
    → All IsOption names
    → (name : Str) → contains_secret framing_names name ≡ true
    → contains_secret names name ≡ false
options-apart [] h name k = refl
options-apart (n ∷ names) ((lower, apart), hs) name k = elim (Bool-cases (str_eq n name)) [
  | inl e ↦
      let same = (str_eq_iff n name).0 e in
      let free = subst (λ x. contains_secret framing_names x ≡ false) same apart in
      absurd (differ free k)
  | inr e ↦ rw e (options-apart names hs name k)
]

hop_names-IsLower : All IsLower hop_names
unfolding to_lowercase
hop_names-IsLower = (refl, (refl, (refl, (refl, (refl, (refl, (refl, (refl, tt))))))))

module _ {M V : Type 0} (headers : HeaderMap M V) where
  option_names-IsOption :
      (values : List V) (names : List Str)
      → option_names headers values ≡ ok names
      → All IsOption names
  unfolding option_names
  option_names-IsOption [] names h = subst (All IsOption) (ok-injective {E = Error} h) tt
  option_names-IsOption (value ∷ values) names h =
      let (text, t, h1) = bind-ok (ok_or (headers.to_str value) invalid_protocol) _ h in
      let (first, f, h2) = bind-ok (check_names (split_at b',' text)) _ h1 in
      let (rest, r, h3) = bind-ok (option_names headers values) _ h2 in
      subst (All IsOption) (ok-injective {E = Error} h3) (
        All-append IsOption first rest (check_names-IsOption (split_at b',' text) first f)
          (option_names-IsOption values rest r))

  module _ (laws : HeaderLaws headers) where
    get_all-remove_names :
        (names : List Str) (m : M) (name : Str)
        → All IsLower names
        → IsLower name
        → headers.get_all (remove_names headers names m) name
          ≡ (if contains_secret names name then [] else headers.get_all m name)
    get_all-remove_names [] m name h lower = refl
    get_all-remove_names (n ∷ names) m name (h, hs) lower =
        let rest = get_all-remove_names names (headers.remove n m) name hs lower in
        let first = laws.get_all-remove m n name h lower in
        rest
        ∙ ap (λ r. if contains_secret names name then [] else r) first
        ∙ if-merge (str_eq n name) (contains_secret names name) [] (headers.get_all m name)

    -- What `strip_hop` leaves of the headers that it accepts: of a name in lower case that is none
    -- of the fixed hop-by-hop names and is not named by a `Connection` header, every value in its
    -- order, and of any other nothing; and no `Connection` header names one of the framing headers.
    pub strip_hop-get_all :
        (m stripped : M)
        → strip_hop headers m ≡ ok stripped
        → (names : List Str) × (option_names headers (headers.get_all m (codes "connection"))
            ≡ ok names)
          × ((name : Str)
              → IsLower name
              → headers.get_all stripped name ≡ (
                  if contains_secret hop_names name || contains_secret names name
                  then []
                  else headers.get_all m name))
          × ((name : Str)
              → contains_secret framing_names name ≡ true
              → contains_secret names name ≡ false)
    unfolding strip_hop
    strip_hop-get_all m stripped h =
        let (names, q, h1) =
          bind-ok (option_names headers (headers.get_all m (codes "connection"))) _ h in
        let options = option_names-IsOption (headers.get_all m (codes "connection")) names q in
        let lower = All-map IsOption IsLower names (λ n k. k.0) options in
        let same = ok-injective {E = Error} h1 in
        (
          names,
          q,
          λ name k.
              ap (λ x. headers.get_all x name) (sym same)
              ∙ get_all-remove_names hop_names (remove_names headers names m) name hop_names-IsLower
                  k
              ∙ ap (λ r. if contains_secret hop_names name then [] else r)
                  (get_all-remove_names names m name lower k)
              ∙ if-or (contains_secret hop_names name) (contains_secret names name) []
                  (headers.get_all m name),
          options-apart names options,
        )
