-- ===== src/Auth/Policy/ReturnTo.antt =====
-- Which return paths `validate_return_to` accepts, described by their characters alone.
use pullfrog_azure.Prelude.{
  String, code, ◌≡◌, refl, ◌≢◌, ◌↔◌, ◌⊎◌, ◌≤◌, ◌<◌, true, false, some, none, arith, any_char,
  text_length, sym, ap, ◌∙◌,
}
use pullfrog_azure.Outcome.{ok, raise}
use pullfrog_azure.Platform.{Platform}
use pullfrog_azure.Auth.Domain.{
  PyException, authentication_error, invalid_login_attempt, value_error,
}
use pullfrog_azure.Auth.Policy.{
  has_unsafe_characters, lstrip_control, remove_breaks, strip_scheme, netloc_of, urlsplit, locate,
  validate_return_to, validate_decoded, starts_with_slash, starts_with_slashes, has_bracket,
  after_slashes,
}

-- no backslash, and no control character
abbrev pub IsSafeText : String → Type 0
IsSafeText String.[] = Unit
IsSafeText (String.◌∷◌ c s) =
    (code c ≢ b'\\') × (31 < code c) × ((code c < 127) ⊎ (159 < code c)) × IsSafeText s

-- exactly one slash in front
abbrev pub IsRooted : String → Type 0
IsRooted String.[] = ⊥
IsRooted (String.◌∷◌ c String.[]) = code c ≡ b'/'
IsRooted (String.◌∷◌ c (String.◌∷◌ d s)) = (code c ≡ b'/') × (code d ≢ b'/')

-- A text that a browser reads as a path of the same origin.
pub record IsLocalPath (t : String) : Type 0 where
  pub fits : text_length t ≤ 2048
  pub safe : IsSafeText t
  pub rooted : IsRooted t

has_unsafe_characters_safe : (s : String) → has_unsafe_characters s ≡ false → IsSafeText s
unfolding has_unsafe_characters any_char
has_unsafe_characters_safe String.[] h = tt
has_unsafe_characters_safe (String.◌∷◌ c s) h = ground (arith, has_unsafe_characters_safe s)

safe_has_unsafe_characters : (s : String) → IsSafeText s → has_unsafe_characters s ≡ false
unfolding has_unsafe_characters any_char
safe_has_unsafe_characters String.[] h = refl
safe_has_unsafe_characters (String.◌∷◌ c s) h = ground (arith, safe_has_unsafe_characters s)

IsRooted-tests :
    (s : String) → IsRooted s → (starts_with_slash s ≡ true) × (starts_with_slashes s ≡ false)
IsRooted-tests String.[] h = elim h [ ]
IsRooted-tests (String.◌∷◌ c String.[]) h = ground arith
IsRooted-tests (String.◌∷◌ c (String.◌∷◌ d s)) h = ground arith

tests-IsRooted :
    (s : String) → starts_with_slash s ≡ true → starts_with_slashes s ≡ false → IsRooted s
tests-IsRooted String.[] h k = cc
tests-IsRooted (String.◌∷◌ c String.[]) h k = ground arith
tests-IsRooted (String.◌∷◌ c (String.◌∷◌ d s)) h k = ground arith

-- What `urlsplit` strips and removes is not there in a safe text that begins with a slash.
lstrip_control_slash : (s : String) → starts_with_slash s ≡ true → lstrip_control s ≡ s
unfolding lstrip_control
lstrip_control_slash String.[] h = refl
lstrip_control_slash (String.◌∷◌ c s) h = ground arith

remove_breaks_safe : (s : String) → IsSafeText s → remove_breaks s ≡ s
unfolding remove_breaks
remove_breaks_safe String.[] h = refl
remove_breaks_safe (String.◌∷◌ c s) h = ground (arith, remove_breaks_safe s)

strip_scheme_slash : (s : String) → starts_with_slash s ≡ true → strip_scheme s ≡ none
unfolding strip_scheme
strip_scheme_slash String.[] h = refl
strip_scheme_slash (String.◌∷◌ c s) h = ground arith

-- So it reads such a text from its first character, and finds no scheme.
urlsplit_slash :
    (p : Platform) (s : String)
    → IsSafeText s
    → starts_with_slash s ≡ true
    → urlsplit p s ≡ locate p false s
unfolding urlsplit
urlsplit_slash p s safe slash =
    ground
      (arith, lstrip_control_slash s slash, remove_breaks_safe s safe, strip_scheme_slash s slash)

locate_rooted :
    (p : Platform) (s : String)
    → starts_with_slashes s ≡ false
    → locate p false s ≡ ok (record { has_scheme = false; netloc = String.[] })
locate_rooted p String.[] h = refl
locate_rooted p (String.◌∷◌ c String.[]) h = refl
locate_rooted p (String.◌∷◌ c (String.◌∷◌ d s)) h = ground arith

validate_decoded-IsLocalPath :
    (p : Platform) (r t u : String)
    → validate_decoded p r t ≡ ok u
    → (u ≡ t) × IsSafeText r × IsLocalPath t
validate_decoded-IsLocalPath p r t u h =
    ground (arith, has_unsafe_characters_safe r, has_unsafe_characters_safe t, tests-IsRooted t)

IsLocalPath-validate_decoded :
    (p : Platform) (r t : String) → IsSafeText r → IsLocalPath t → validate_decoded p r t ≡ ok t
IsLocalPath-validate_decoded p r t safe l =
    let (slash, one) = IsRooted-tests t l.rooted in
    ground (
      arith,
      safe_has_unsafe_characters r safe,
      safe_has_unsafe_characters t l.safe,
      urlsplit_slash p t l.safe slash,
      locate_rooted p t one,
      slash,
      one,
    )

-- A given return path is accepted exactly when the path as given and the path that it decodes to
-- hold no backslash and no control character, and the decoded path has at most 2048 characters and
-- begins with exactly one slash; the decoded path is what is returned.
pub validate_return_to-eq-ok_iff :
    (p : Platform) (r t : String)
    → (validate_return_to p (some r) ≡ ok t) ↔ ((t ≡ p.unquote r) × IsSafeText r × IsLocalPath t)
unfolding validate_return_to
validate_return_to-eq-ok_iff p r t = (
  λ h.
      let (same, safe, path) = validate_decoded-IsLocalPath p r (p.unquote r) t h in
      (same, safe, rw same path),
  λ h.
      let path = (rw h.0 at h.2) in
      IsLocalPath-validate_decoded p r (p.unquote r) h.1 path ∙ ap ok (sym h.0),
)

urlsplit-raise :
    (p : Platform) (s : String) (e : PyException) → urlsplit p s ≡ raise e → e ≡ value_error
unfolding urlsplit
urlsplit-raise p s e h = ground arith

-- When validation raises, it raises `AuthenticationError(INVALID_LOGIN_ATTEMPT)` or the
-- `ValueError` of `urlsplit`, and the latter only for a decoded path that is safe and fits.
validate_return_to-eq-raise :
    (p : Platform) (r : String) (e : PyException)
    → validate_return_to p (some r) ≡ raise e
    → (e ≡ authentication_error invalid_login_attempt)
      ⊎ ((e ≡ value_error) × (text_length (p.unquote r) ≤ 2048) × IsSafeText (p.unquote r))
unfolding validate_return_to
validate_return_to-eq-raise p r e h =
    ground (arith, urlsplit-raise p (p.unquote r) e, has_unsafe_characters_safe (p.unquote r))

-- The network location of `//text`, with an opening bracket and no closing one.
pub record IsUnclosed (s t : String) : Type 0 where
  pub remote : after_slashes s ≡ some t
  pub opened : has_bracket b'[' (netloc_of t) ≡ true
  pub unclosed : has_bracket b']' (netloc_of t) ≡ false

slashes_slash : (s t : String) → after_slashes s ≡ some t → starts_with_slash s ≡ true
slashes_slash String.[] t h = cc
slashes_slash (String.◌∷◌ c String.[]) t h = cc
slashes_slash (String.◌∷◌ c (String.◌∷◌ d s)) t h = ground arith

-- A safe return path of at most 2048 characters that decodes to `//` and a network location with an
-- opening bracket and no closing one makes validation raise `ValueError` from `urlsplit`, which is
-- no `AuthenticationError`.
pub validate_return_to-malformed :
    (p : Platform) (r t : String)
    → IsSafeText r
    → IsSafeText (p.unquote r)
    → text_length (p.unquote r) ≤ 2048
    → IsUnclosed (p.unquote r) t
    → validate_return_to p (some r) ≡ raise value_error
unfolding validate_return_to
validate_return_to-malformed p r t safe decoded fits u = ground (
  arith,
  safe_has_unsafe_characters r safe,
  safe_has_unsafe_characters (p.unquote r) decoded,
  urlsplit_slash p (p.unquote r) decoded (slashes_slash (p.unquote r) t u.remote),
)
