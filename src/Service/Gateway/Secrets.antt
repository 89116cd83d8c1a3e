-- ===== src/Service/Gateway/Secrets.antt =====
-- The secrets of crates/wrix-service/src/gateway/mod.rs, and the credential of a request.
use Prim.Native.Nat.{bit_or, bit_xor, bit_or-bitwise}
use wrix.Common.Bits.{bit_or-zero, bit_xor-zero, bit_xor_self}
use wrix.Common.{
  ℕ, ◌≡◌, ◌↔◌, ◌⊎◌, refl, sym, ap, subst, ◌∙◌, inl, inr, Bool, true, false, not, ◌||◌, List, [],
  ◌∷◌, ◌++◌, Option, some, arith, ◌==◌, ==_iff, if◌then◌else◌, all, length, Result, ok, err,
  ok-injective,
}
use wrix.Common.Text.{Str, codes}
use wrix.Core.Workspace.{is_lower_hex_digit, push_hex_bytes}
use wrix.Core.Workspace.Hash.{AllBytes, push_hex_bytes-digits}
use wrix.Service.Gateway.{Error, invalid_protocol, generate, matches, fold_diff, try_from}
use wrix.Service.Gateway.Headers.{
  HeaderMap, credential, secret_of, or_denied, as_secret, strip_prefix,
}

-- The fold is 0 when it began with 0 and the bytes are the same.
fold_diff-zero :
    (diff : ℕ) (s t : Str) → length s ≡ length t → fold_diff diff s t ≡ 0 → (diff ≡ 0) × (s ≡ t)
fold_diff-zero diff [] [] h e = (e, refl)
fold_diff-zero diff [] (b ∷ t) h e = absurd (omega arith)
fold_diff-zero diff (a ∷ s) [] h e = absurd (omega arith)
fold_diff-zero diff (a ∷ s) (b ∷ t) h e =
    let (joined, rest) = fold_diff-zero (bit_or diff (bit_xor a b)) s t (omega arith) e in
    let (before, here) = bit_or-zero diff (bit_xor a b) joined in
    let same = bit_xor-zero a b here in (before, λ i. same i ∷ rest i)

fold_diff_self : (s : Str) → fold_diff 0 s s ≡ 0
fold_diff_self [] = refl
fold_diff_self (a ∷ s) =
    let here : bit_or 0 (bit_xor a a) ≡ 0 = bit_or-bitwise 0 (bit_xor a a) ∙ bit_xor_self a in
    subst (λ d. fold_diff d s s ≡ 0) (sym here) (fold_diff_self s)

accepted-checks :
    (a b : Bool) (s : Str) {t : Str}
    → ◌≡◌ {A = Result Error Str} (if not a || not b then err invalid_protocol else ok s) (ok t)
    → (a ≡ true) × (b ≡ true) × (s ≡ t)
accepted-checks true true s h = (refl, refl, ok-injective {E = Error} h)
accepted-checks true false s h = absurd cc
accepted-checks false b s h = absurd cc

try_from-ok :
    (s : Str) {t : Str}
    → try_from s ≡ ok t
    → (length s ≡ 64) × (all is_lower_hex_digit s ≡ true) × (s ≡ t)
unfolding try_from
try_from-ok s h =
    let (long, hex, same) = accepted-checks (length s == 64) (all is_lower_hex_digit s) s h in
    ((==_iff (length s) 64).0 long, hex, same)

-- Of two secrets that `TryFrom` accepts, `matches` tells whether they are the same text.
pub matches_iff :
    (s t : Str) → try_from s ≡ ok s → try_from t ≡ ok t → (matches s t ≡ true) ↔ (s ≡ t)
unfolding matches try_from
matches_iff s t h k =
    let lengths = (try_from-ok s h).0 ∙ sym (try_from-ok t k).0 in
    (
      λ e. (fold_diff-zero 0 s t lengths ((==_iff (fold_diff 0 s t) 0).0 e)).1,
      λ e. (==_iff (fold_diff 0 s t) 0).1 (subst (λ x. fold_diff 0 s x ≡ 0) e (fold_diff_self s)),
    )

generate-accepted :
    (bytes : List ℕ)
    → AllBytes bytes
    → length bytes ≡ 32
    → try_from (generate bytes) ≡ ok (generate bytes)
unfolding generate try_from
generate-accepted bytes h k =
    let (hex, long) = push_hex_bytes-digits [] bytes refl h in
    let sized : length (push_hex_bytes [] bytes) ≡ 64 = omega (arith, long, k) in
    rw ((==_iff (length (push_hex_bytes [] bytes)) 64).1 sized, hex)

as_secret-accepted : (s : Str) → try_from s ≡ ok s → as_secret s ≡ ok s
as_secret-accepted s h = ap or_denied h

module _ {M V : Type 0} (headers : HeaderMap M V) (decode : Str → Option Str)
    (is_utf8 : Str → Bool) where
  -- The ways a request gives a secret in the text of its only `Proxy-Authorization` header.
  abbrev pub Gives : Str → Str → Type 0
  Gives text secret =
      (text ≡ codes "Bearer " ++ secret)
      ⊎ ((encoded : Str) × (text ≡ codes "Basic " ++ encoded)
          × (decode encoded ≡ some (codes "wrix:" ++ secret))
          × (is_utf8 (codes "wrix:" ++ secret) ≡ true))

  given-secret :
      (text secret : Str)
      → try_from secret ≡ ok secret
      → Gives text secret
      → secret_of headers decode is_utf8 text (strip_prefix (codes "Bearer ") text) ≡ ok secret
  given-secret text secret h (inl e) =
      subst (λ t. secret_of headers decode is_utf8 t (strip_prefix (codes "Bearer ") t) ≡ ok secret)
        (sym e) (as_secret-accepted secret h)
  given-secret text secret h (inr (encoded, e, d, u)) =
      subst (λ t. secret_of headers decode is_utf8 t (strip_prefix (codes "Bearer ") t) ≡ ok secret)
        (sym e) (rw (d, u) (as_secret-accepted secret h))

  -- A secret that was generated from 32 bytes is read back from a request whose only
  -- `Proxy-Authorization` header gives it, as a bearer or in base 64 after `wrix:`.
  pub credential-generate :
      (bytes : List ℕ) (m : M) (value : V) (text : Str)
      → AllBytes bytes
      → length bytes ≡ 32
      → headers.get_all m (codes "proxy-authorization") ≡ value ∷ []
      → headers.to_str value ≡ some text
      → Gives text (generate bytes)
      → credential headers decode is_utf8 m ≡ ok (generate bytes)
  unfolding credential
  credential-generate bytes m value text h k one t gives =
      rw (one, t) (given-secret text (generate bytes) (generate-accepted bytes h k) gives)
