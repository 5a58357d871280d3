-- ===== src/Providers/EntraOidc/Token.antt =====
-- What a validated ID token guarantees.
use pullfrog_azure.Prelude.{
  ℕ, ◌+◌, ◌≤◌, String, ◌≡◌, refl, ◌↔◌, ◌⊎◌, inl, inr, true, Option, none, some, List, [], ◌∷◌,
  arith, str_eq_iff, Bool-cases, is_ascii, ap,
}
use mathlib.Core.Bool.{and-eq-true_iff}
use pullfrog_azure.Prelude.Int.{ℤ, pos_part, neg_part}
use pullfrog_azure.Auth.Domain.{oidc_invalid_response}
use pullfrog_azure.Outcome.{ok, raise}
use pullfrog_azure.Platform.{Platform}
use pullfrog_azure.Values.{
  PyValue, none_value, int, str, list, Items, nil, cons, Entries, equals_text, get,
}
use pullfrog_azure.Providers.EntraOidc.{
  is_text, all_str, has_text, audience_matches, is_unexpired, is_begun, validate_id_token_claims,
}

-- a list of texts
pub data AreTexts : Items → List String → Type 0 where
  no_texts : AreTexts nil []
  text :
      {s : String} {items : Items} {rest : List String}
      → AreTexts items rest
      → AreTexts (cons (str s) items) (s ∷ rest)

-- the text stands in the list
pub data Holds (t : String) : Items → Type 0 where
  first : {v : PyValue} {items : Items} → v ≡ str t → Holds t (cons v items)
  further : {v : PyValue} {items : Items} → Holds t items → Holds t (cons v items)

-- The audience is the expected one, or a list of texts that holds it.
pub data IsAudience (expected : String) : Option PyValue → Type 0 where
  single : {o : Option PyValue} → o ≡ some (str expected) → IsAudience expected o
  among :
      {o : Option PyValue} {items : Items} (texts : List String)
      → o ≡ some (list items)
      → AreTexts items texts
      → Holds expected items
      → IsAudience expected o

-- `n - 120 ≤ m`, over the integers
abbrev pub IsAtLeast : ℤ → ℕ → Type 0
IsAtLeast n m = m + neg_part n ≤ pos_part n + 120

abbrev pub IsAtMost : ℤ → ℕ → Type 0
IsAtMost n m = pos_part n ≤ m + 120 + neg_part n

pub data IsUnexpired (now : ℕ) : Option PyValue → Type 0 where
  expires : {o : Option PyValue} (n : ℤ) → o ≡ some (int n) → IsAtLeast n now → IsUnexpired now o

pub data IsBegun (now : ℕ) : Option PyValue → Type 0 where
  no_start : {o : Option PyValue} → (o ≡ none) ⊎ (o ≡ some none_value) → IsBegun now o
  begins : {o : Option PyValue} (n : ℤ) → o ≡ some (int n) → IsAtMost n now → IsBegun now o

-- The claims that the application relies on, with 120 seconds of leeway for the clocks.
pub record IsValidToken (p : Platform) (claims : Entries) (issuer audience nonce : String) (now : ℕ)
    : Type 0 where
  pub issued_by : get "iss" claims ≡ some (str issuer)
  pub issued_for : IsAudience audience (get "aud" claims)
  pub unexpired : IsUnexpired now (get "exp" claims)
  pub begun : IsBegun now (get "nbf" claims)
  pub answers : get "nonce" claims ≡ some (str (p.hexdigest (p.sha256 nonce)))

is_text_sound : (o : Option PyValue) (t : String) → is_text o t ≡ true → o ≡ some (str t)
is_text_sound (some (str s)) t h = ap (λ u. some (str u)) ((str_eq_iff s t).0 h)
is_text_sound o t h = cc

is_text_complete : (o : Option PyValue) (t : String) → o ≡ some (str t) → is_text o t ≡ true
is_text_complete o t h = rw h ((str_eq_iff t t).1 refl)

all_str-AreTexts :
    (items : Items) → all_str items ≡ true → (texts : List String) × AreTexts items texts
unfolding all_str
all_str-AreTexts nil h = ([], no_texts)
all_str-AreTexts (cons (str s) items) h =
    let (rest, a) = all_str-AreTexts items h in (s ∷ rest, text a)
all_str-AreTexts (cons v items) h = cc

AreTexts-all_str :
    {items : Items} {texts : List String} → AreTexts items texts → all_str items ≡ true
unfolding all_str
AreTexts-all_str no_texts = refl
AreTexts-all_str (text a) = AreTexts-all_str a

has_text-Holds : (t : String) (items : Items) → has_text t items ≡ true → Holds t items
unfolding has_text
has_text-Holds t nil h = cc
has_text-Holds t (cons v items) h = elim (Bool-cases (equals_text v t)) [
  | inl hit ↦ first (equals v hit)
  | inr miss ↦ further (has_text-Holds t items (rw miss at h))
]
  where
    equals : (v : PyValue) → equals_text v t ≡ true → v ≡ str t
    equals (str s) e = ap str ((str_eq_iff s t).0 e)
    equals v e = cc

Holds-has_text : {t : String} {items : Items} → Holds t items → has_text t items ≡ true
unfolding has_text
Holds-has_text {t} (first e) = rw (e, (str_eq_iff t t).1 refl)
Holds-has_text {t} (further {v} h) = elim (Bool-cases (equals_text v t)) [
  | inl hit ↦ rw hit
  | inr miss ↦ rw miss (Holds-has_text h)
]

audience_matches_sound :
    (o : Option PyValue) (t : String) → audience_matches o t ≡ true → IsAudience t o
audience_matches_sound (some (str s)) t h = single (ap (λ u. some (str u)) ((str_eq_iff s t).0 h))
audience_matches_sound (some (list items)) t h =
    let (texts_only, holds) = (and-eq-true_iff _ _).0 h in
    let (texts, a) = all_str-AreTexts items texts_only in
    among texts refl a (has_text-Holds t items holds)
audience_matches_sound o t h = cc

audience_matches_complete :
    {o : Option PyValue} {t : String} → IsAudience t o → audience_matches o t ≡ true
audience_matches_complete {t} (single e) = rw e ((str_eq_iff t t).1 refl)
audience_matches_complete (among texts e a h) = rw (e, AreTexts-all_str a) (Holds-has_text h)

is_unexpired_sound : (o : Option PyValue) (now : ℕ) → is_unexpired o now ≡ true → IsUnexpired now o
is_unexpired_sound (some (int n)) now h = expires n refl (ground arith)
is_unexpired_sound o now h = cc

is_unexpired_complete :
    {o : Option PyValue} {now : ℕ} → IsUnexpired now o → is_unexpired o now ≡ true
is_unexpired_complete (expires n e h) = rw e (ground arith)

is_begun_sound : (o : Option PyValue) (now : ℕ) → is_begun o now ≡ true → IsBegun now o
is_begun_sound none now h = no_start (inl refl)
is_begun_sound (some none_value) now h = no_start (inr refl)
is_begun_sound (some (int n)) now h = begins n refl (ground arith)
is_begun_sound (some v) now h = cc

is_begun_complete : {o : Option PyValue} {now : ℕ} → IsBegun now o → is_begun o now ≡ true
is_begun_complete (no_start (inl e)) = rw e
is_begun_complete (no_start (inr e)) = rw e
is_begun_complete (begins n e h) = rw e (ground arith)

pub validate_sound :
    (p : Platform) (claims : Entries) (issuer audience nonce : String) (now : ℕ)
    → validate_id_token_claims p claims issuer audience nonce now ≡ ok tt
    → (is_ascii nonce ≡ true) × IsValidToken p claims issuer audience nonce now
unfolding validate_id_token_claims
validate_sound p claims issuer audience nonce now h = (
  ground arith,
  record {
    issued_by = is_text_sound (get "iss" claims) issuer (ground arith);
    issued_for = audience_matches_sound (get "aud" claims) audience (ground arith);
    unexpired = is_unexpired_sound (get "exp" claims) now (ground arith);
    begun = is_begun_sound (get "nbf" claims) now (ground arith);
    answers = is_text_sound (get "nonce" claims) (p.hexdigest (p.sha256 nonce)) (ground arith);
  },
)

-- With an ASCII nonce, validation passes exactly the claims of a valid token: the expected issuer, an
-- audience that is or holds the expected one, an integer expiry and an optional integer start
-- within 120 seconds of leeway, and the digest of the nonce. Everything else it rejects as an
-- invalid response.
pub validate_id_token_claims_iff :
    (p : Platform) (claims : Entries) (issuer audience nonce : String) (now : ℕ)
    → is_ascii nonce ≡ true
    → ((validate_id_token_claims p claims issuer audience nonce now ≡ ok tt)
        ↔ IsValidToken p claims issuer audience nonce now)
      × ((validate_id_token_claims p claims issuer audience nonce now ≡ ok tt)
          ⊎ (validate_id_token_claims p claims issuer audience nonce now
              ≡ raise oidc_invalid_response))
unfolding validate_id_token_claims
validate_id_token_claims_iff p claims issuer audience nonce now ascii = (
  (
    λ h. (validate_sound p claims issuer audience nonce now h).1,
    λ t. ground (
      arith,
      ascii,
      is_text_complete (get "iss" claims) issuer t.issued_by,
      audience_matches_complete t.issued_for,
      is_unexpired_complete t.unexpired,
      is_begun_complete t.begun,
      is_text_complete (get "nonce" claims) (p.hexdigest (p.sha256 nonce)) t.answers,
    ),
  ),
  ground arith,
)
