-- ===== src/Auth/Tokens/Csrf.antt =====
-- When the CSRF proof of `csrf_matches` holds.
use pullfrog_azure.Prelude.{
  ℕ, ◌<◌, String, code, ◌≡◌, refl, ◌↔◌, ◌⊎◌, true, Option, none, some, arith, is_ascii, str_eq_iff,
  Bool-cases, inl, inr,
}
use pullfrog_azure.Auth.Domain.{type_error}
use pullfrog_azure.Auth.Tokens.{csrf_matches}
use pullfrog_azure.Outcome.{ok, raise}
use pullfrog_azure.Platform.{Platform}

abbrev pub IsAscii : String → Type 0
IsAscii String.[] = Unit
IsAscii (String.◌∷◌ c s) = (code c < 128) × IsAscii s

is_ascii-IsAscii : (s : String) → is_ascii s ≡ true → IsAscii s
unfolding is_ascii
is_ascii-IsAscii String.[] h = tt
is_ascii-IsAscii (String.◌∷◌ c s) h = ground (arith, is_ascii-IsAscii s)

IsAscii-is_ascii : (s : String) → IsAscii s → is_ascii s ≡ true
unfolding is_ascii
IsAscii-is_ascii String.[] h = refl
IsAscii-is_ascii (String.◌∷◌ c s) h = ground (arith, IsAscii-is_ascii s)

-- One ASCII token, presented both in the cookie and in the header, whose digest is the stored one.
pub record IsProof (p : Platform) (cookie header : Option String) (digest : ℕ) : Type 0 where
  pub token : String
  pub in_cookie : cookie ≡ some token
  pub in_header : header ≡ some token
  pub ascii : IsAscii token
  pub stored : p.sha256 token ≡ digest

csrf_matches-IsProof :
    (p : Platform) (cookie header : Option String) (digest : ℕ)
    → csrf_matches p cookie header digest ≡ ok true
    → IsProof p cookie header digest
unfolding csrf_matches
csrf_matches-IsProof p none header digest h = cc
csrf_matches-IsProof p (some c) none digest h = cc
csrf_matches-IsProof p (some c) (some d) digest h = record {
  token = c;
  in_cookie = refl;
  in_header = ground (arith, str_eq_iff c d);
  ascii = ground (arith, is_ascii-IsAscii c);
  stored = ground arith;
}

-- The comparison succeeds exactly when cookie and header present one ASCII token whose digest is the
-- stored one.
pub csrf_matches-eq-true_iff :
    (p : Platform) (cookie header : Option String) (digest : ℕ)
    → (csrf_matches p cookie header digest ≡ ok true) ↔ IsProof p cookie header digest
unfolding csrf_matches
csrf_matches-eq-true_iff p cookie header digest = (
  csrf_matches-IsProof p cookie header digest,
  λ h. ground (
    arith,
    h.in_cookie,
    h.in_header,
    h.stored,
    IsAscii-is_ascii h.token h.ascii,
    str_eq_iff h.token h.token,
  ),
)

-- Both are presented, and one of them is not ASCII.
pub record IsForeign (cookie header : Option String) : Type 0 where
  pub in_cookie : String
  pub in_header : String
  pub cookie_given : cookie ≡ some in_cookie
  pub header_given : header ≡ some in_header
  pub foreign : ¬ IsAscii in_cookie ⊎ ¬ IsAscii in_header

-- Two presented values, one of which is not ASCII, make the comparison raise `TypeError`.
csrf_matches-not_ascii :
    (p : Platform) (cookie header : String) (digest : ℕ)
    → ¬ IsAscii cookie ⊎ ¬ IsAscii header
    → csrf_matches p (some cookie) (some header) digest ≡ raise type_error
unfolding csrf_matches
csrf_matches-not_ascii p cookie header digest h =
    ground (arith, is_ascii-IsAscii cookie, is_ascii-IsAscii header)

csrf_matches-IsForeign :
    (p : Platform) (cookie header : Option String) (digest : ℕ)
    → csrf_matches p cookie header digest ≡ raise type_error
    → IsForeign cookie header
unfolding csrf_matches
csrf_matches-IsForeign p none header digest h = cc
csrf_matches-IsForeign p (some c) none digest h = cc
csrf_matches-IsForeign p (some c) (some d) digest h = record {
  in_cookie = c;
  in_header = d;
  cookie_given = refl;
  header_given = refl;
  foreign = elim (Bool-cases (is_ascii c)) [
    | inr odd ↦ inl (λ a. cc (odd, IsAscii-is_ascii c a))
    | inl plain ↦ elim (Bool-cases (is_ascii d)) [
      | inr odd ↦ inr (λ a. cc (odd, IsAscii-is_ascii d a))
      | inl plain' ↦ absurd (compared plain plain')
    ]
  ];
}
  where
    compared : is_ascii c ≡ true → is_ascii d ≡ true → ⊥
    compared plain plain' = ground arith

-- The comparison raises exactly where both values are presented and one is not ASCII.
pub csrf_matches-eq-raise_iff :
    (p : Platform) (cookie header : Option String) (digest : ℕ)
    → (csrf_matches p cookie header digest ≡ raise type_error) ↔ IsForeign cookie header
csrf_matches-eq-raise_iff p cookie header digest = (
  csrf_matches-IsForeign p cookie header digest,
  λ f.
      rw (f.cookie_given, f.header_given)
        (csrf_matches-not_ascii p f.in_cookie f.in_header digest f.foreign),
)
