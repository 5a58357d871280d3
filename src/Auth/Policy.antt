-- ===== src/Auth/Policy.antt =====
-- auth/policy.py: which return paths a login accepts, and which configured identity authorizes a
-- user. `urlsplit` is that of Python 3.13 as far as the scheme and the network location go.
pub mod ReturnTo
pub mod Selection
use Prim.Native.String
use pullfrog_azure.Prelude.{
  ℕ, suc, ◌+◌, String, code, Bool, true, false, not, ◌&&◌, ◌||◌, Option, none, some, List, [], ◌∷◌,
  ltb, leb, ◌==◌, if◌then◌else◌, text_length, any_char, ◌++◌, ◌≡◌, refl, arith, any, sort_by,
  is_empty,
}
use pullfrog_azure.Auth.Domain.{
  AdminIdentityRef, user, group, PyException, authentication_error, invalid_login_attempt, ref_eq,
  value_error,
}
use pullfrog_azure.Outcome.{Result, ok, raise, ◌>>=◌}
use pullfrog_azure.Platform.{Platform}

-- `category(character) == "Cc"`: the control characters up to 31 and from 127 to 159
abbrev is_control : ℕ → Bool
is_control c = leb c 31 || leb 127 c && leb c 159

abbrev is_unsafe : ℕ → Bool
is_unsafe c = c == b'\\' || is_control c

unfoldable pub has_unsafe_characters : String → Bool
has_unsafe_characters value = any_char is_unsafe value

-- `url.lstrip` of the characters up to the space
lstrip_control : String → String
lstrip_control String.[] = String.[]
lstrip_control (String.◌∷◌ c s) = if leb (code c) 32 then lstrip_control s else String.◌∷◌ c s

-- tabs and line breaks are removed wherever they stand
remove_breaks : String → String
remove_breaks String.[] = String.[]
remove_breaks (String.◌∷◌ c s) =
    let rest = remove_breaks s in
    if code c == 9 || code c == 10 || code c == 13 then rest else String.◌∷◌ c rest

abbrev is_letter : ℕ → Bool
is_letter c = leb b'a' c && leb c b'z' || leb b'A' c && leb c b'Z'

-- a letter, a digit, or one of `+-.`
abbrev is_scheme_char : ℕ → Bool
is_scheme_char c = is_letter c || leb b'0' c && leb c b'9' || c == b'+' || c == b'-' || c == b'.'

-- the text behind the first colon, if only scheme characters stand before it
after_scheme : String → Option String
after_scheme String.[] = none
after_scheme (String.◌∷◌ c s) =
    if code c == b':' then some s else if is_scheme_char (code c) then after_scheme s else none

-- the text behind the scheme, where the URL has one
strip_scheme : String → Option String
strip_scheme String.[] = none
strip_scheme (String.◌∷◌ c s) = if is_letter (code c) then after_scheme s else none

-- `_splitnetloc`: up to the first of `/?#`
unfoldable pub netloc_of : String → String
netloc_of String.[] = String.[]
netloc_of (String.◌∷◌ c s) =
    if code c == b'/' || code c == b'?' || code c == b'#'
    then String.[]
    else String.◌∷◌ c (netloc_of s)

-- what follows a leading `//`
abbrev pub after_slashes : String → Option String
after_slashes (String.◌∷◌ c (String.◌∷◌ d s)) =
    if code c == b'/' && code d == b'/' then some s else none
after_slashes _ = none

pub record SplitResult : Type 0 where
  pub has_scheme : Bool
  pub netloc : String

abbrev pub has_bracket : ℕ → String → Bool
has_bracket b = any_char (λ c. c == b)

-- the brackets of a network location are paired, and the platform's host checks pass
abbrev check_netloc : Platform → Bool → String → Result SplitResult
check_netloc p scheme netloc =
    if has_bracket b'[' netloc && not (has_bracket b']' netloc)
      || has_bracket b']' netloc && not (has_bracket b'[' netloc)
      || not (p.netloc_ok netloc)
    then raise value_error
    else ok (record { has_scheme = scheme; netloc = netloc })

abbrev locate : Platform → Bool → String → Result SplitResult
locate p scheme rest = elim (after_slashes rest) [
  | none ↦ ok (record { has_scheme = scheme; netloc = String.[] })
  | some text ↦ check_netloc p scheme (netloc_of text)
]

abbrev split_scheme : Platform → String → Result SplitResult
split_scheme p url = elim (strip_scheme url) [
  | none ↦ locate p false url
  | some rest ↦ locate p true rest
]

-- `urllib.parse.urlsplit(url)`
unfoldable pub urlsplit : Platform → String → Result SplitResult
unfolding lstrip_control remove_breaks strip_scheme after_scheme netloc_of
urlsplit p url = split_scheme p (remove_breaks (lstrip_control url))

-- `text.startswith("/")` and `text.startswith("//")`
abbrev pub starts_with_slash : String → Bool
starts_with_slash String.[] = false
starts_with_slash (String.◌∷◌ c s) = code c == b'/'

abbrev pub starts_with_slashes : String → Bool
starts_with_slashes (String.◌∷◌ c (String.◌∷◌ d s)) = code c == b'/' && code d == b'/'
starts_with_slashes _ = false

abbrev reject_remote : String → SplitResult → Result String
reject_remote decoded parsed =
    if parsed.has_scheme
      || not (is_empty parsed.netloc)
      || not (starts_with_slash decoded)
      || starts_with_slashes decoded
    then raise (authentication_error invalid_login_attempt)
    else ok decoded

abbrev validate_decoded : Platform → String → String → Result String
validate_decoded p return_to decoded =
    if ltb 2048 (text_length decoded)
      || has_unsafe_characters return_to
      || has_unsafe_characters decoded
    then raise (authentication_error invalid_login_attempt)
    else urlsplit p decoded >>= reject_remote decoded

unfoldable pub validate_return_to : Platform → Option String → Result String
validate_return_to p none = ok "/"
validate_return_to p (some return_to) = validate_decoded p return_to (p.unquote return_to)

-- `identity in identities`
unfoldable pub contains_ref : List AdminIdentityRef → AdminIdentityRef → Bool
contains_ref identities identity = any (ref_eq identity) identities

-- the loop of `select_authorizer` over the sorted groups
first_group : List AdminIdentityRef → ℕ → List ℕ → Option AdminIdentityRef
first_group configured tenant_id [] = none
first_group configured tenant_id (g ∷ gs) =
    let candidate : AdminIdentityRef = record {
      tenant_id = tenant_id;
      kind = group;
      object_id = g;
    } in
    if contains_ref configured candidate
    then some candidate
    else first_group configured tenant_id gs

-- The text of a UUID has a fixed width and lower-case hexadecimal digits, so that the order of the
-- texts, `key=str`, is the order of the numbers.
unfoldable pub select_authorizer : ℕ → ℕ → List ℕ → List AdminIdentityRef → Option AdminIdentityRef
unfolding first_group
select_authorizer tenant_id user_object_id group_object_ids configured =
    let user_identity : AdminIdentityRef = record {
      tenant_id = tenant_id;
      kind = user;
      object_id = user_object_id;
    } in
    if contains_ref configured user_identity
    then some user_identity
    else first_group configured tenant_id (sort_by (λ g. g) group_object_ids)

pub contains_ref-append :
    (xs ys : List AdminIdentityRef) (r : AdminIdentityRef)
    → contains_ref (xs ++ ys) r ≡ (contains_ref xs r || contains_ref ys r)
unfolding contains_ref any
contains_ref-append [] ys r = refl
contains_ref-append (x ∷ xs) ys r = ground (arith, contains_ref-append xs ys r)
