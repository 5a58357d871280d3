-- ===== src/Config.antt =====
-- config.py: the settings, their validators in the order in which pydantic runs them, and the two
-- derived properties. What pydantic and `urlsplit` read from a URL, and how pydantic reads a UUID, are
-- arguments; a float is its IEEE 754 bit pattern.
pub mod Identities
pub mod Security
pub mod Ranges
pub mod Accepted
pub mod CallbackUrl
use pullfrog_azure.Prelude.{
  ℕ, ◌+◌, ◌*◌, ◌%◌, String, code, ◌≡◌, Bool, true, false, not, ◌&&◌, ◌||◌, Option, none, some, List,
  [], ◌∷◌, map, leb, ltb, ◌==◌, str_eq, if◌then◌else◌, is_empty, any, length, split, strip,
  text_append,
}
use pullfrog_azure.Prelude.Int.{ℤ, pos, negsuc}
use pullfrog_azure.Auth.Domain.{value_error}
use pullfrog_azure.Outcome.{Result, ok, raise, ◌>>=◌, ◌>>◌, guard}

-- What `AnyHttpUrl` and `urlsplit` read from the public base URL.
pub record BaseUrl : Type 0 where
  -- `str(url)`
  pub text : String
  pub scheme : String
  pub hostname : Option String
  pub username : Option String
  pub password : Option String
  pub path : String
  pub query : Option String
  pub fragment : Option String

-- An administrator list as it is given: one text from the environment, a tuple of texts, or UUIDs.
pub data IdentityIds : Type 0 where
  one_text : String → IdentityIds
  texts : List String → IdentityIds
  uuids : List ℕ → IdentityIds

-- The settings as they are given; an integer may be negative.
pub record RawSettings : Type 0 where
  pub readiness_timeout_seconds : ℕ
  pub entra_tenant_id : ℕ
  pub entra_client_id : ℕ
  pub entra_client_secret : String
  pub public_base_url : BaseUrl
  pub admin_user_object_ids : IdentityIds
  pub admin_group_object_ids : IdentityIds
  pub admin_session_idle_minutes : ℤ
  pub admin_session_absolute_hours : ℤ
  pub oidc_login_attempt_minutes : ℤ
  pub allow_insecure_local_cookies : Bool
  pub oidc_http_timeout_seconds : ℕ
  pub oidc_operation_timeout_seconds : ℕ

-- The settings once validated.
pub record Settings : Type 0 where
  pub readiness_timeout_seconds : ℕ
  pub entra_tenant_id : ℕ
  pub entra_client_id : ℕ
  pub entra_client_secret : String
  pub public_base_url : BaseUrl
  pub admin_user_object_ids : List ℕ
  pub admin_group_object_ids : List ℕ
  pub admin_session_idle_minutes : ℕ
  pub admin_session_absolute_hours : ℕ
  pub oidc_login_attempt_minutes : ℕ
  pub allow_insecure_local_cookies : Bool
  pub oidc_http_timeout_seconds : ℕ
  pub oidc_operation_timeout_seconds : ℕ

abbrev is_nil {ℓ} : {A : Type ℓ} → List A → Bool
is_nil [] = true
is_nil (x ∷ xs) = false

unfoldable pub parse_identity_ids : IdentityIds → Result IdentityIds
parse_identity_ids (one_text value) =
    let values = map strip (split value) in
    if is_empty value
    then ok (uuids [])
    else if is_nil values || any is_empty values
    then raise value_error
    else ok (texts values)
parse_identity_ids value = ok value

-- `tuple[UUID, ...]`, as pydantic reads it
read_uuids : (String → Option ℕ) → List String → Result (List ℕ)
read_uuids read [] = ok []
read_uuids read (t ∷ ts) = elim (read t) [
  | none ↦ raise value_error
  | some u ↦ read_uuids read ts >>= λ us. ok (u ∷ us)
]

to_uuids : (String → Option ℕ) → IdentityIds → Result (List ℕ)
to_uuids read (one_text value) = raise value_error
to_uuids read (texts values) = read_uuids read values
to_uuids read (uuids values) = ok values

-- the elements of `set(value)`
distinct : List ℕ → List ℕ
distinct [] = []
distinct (x ∷ xs) = let rest = distinct xs in if any (λ y. y == x) rest then rest else x ∷ rest

unfoldable pub reject_duplicate_identity_ids : List ℕ → Result (List ℕ)
unfolding distinct any
reject_duplicate_identity_ids value =
    if length value == length (distinct value) then ok value else raise value_error

unfoldable pub identity_ids : (String → Option ℕ) → IdentityIds → Result (List ℕ)
unfolding to_uuids read_uuids
identity_ids read value =
    parse_identity_ids value >>= to_uuids read >>= reject_duplicate_identity_ids

-- `Field(ge=low, le=high)`
abbrev bounded : ℤ → (low high : ℕ) → Result ℕ
bounded (pos n) low high = if leb low n && leb n high then ok n else raise value_error
bounded (negsuc n) low high = raise value_error

-- infinity, 30.0 and 60.0
abbrev infinity_bits : ℕ
infinity_bits = 0x7FF0000000000000

abbrev thirty_bits : ℕ
thirty_bits = 0x403E000000000000

abbrev sixty_bits : ℕ
sixty_bits = 0x404E000000000000

-- beyond the infinity of its sign
abbrev is_nan : ℕ → Bool
is_nan bits = ltb infinity_bits (bits % 0x8000000000000000)

-- `value <= 0`: a zero, or a pattern with the sign bit; no comparison with NaN holds
abbrev not_positive : ℕ → Bool
not_positive bits = not (is_nan bits) && (bits == 0 || leb 0x8000000000000000 bits)

-- `value > high`: the patterns of positive numbers are in the order of the numbers
abbrev is_above : (bits high : ℕ) → Bool
is_above bits high = not (is_nan bits) && ltb bits 0x8000000000000000 && ltb high bits

-- `Field(gt=0, le=high)` on a float: pydantic refuses a value that is `<= 0` or `> high`, and thus
-- lets NaN through.
abbrev float_up_to : (bits high : ℕ) → Result ℕ
float_up_to bits high =
    if not_positive bits || is_above bits high then raise value_error else ok bits

abbrev is_given : Option String → Bool
is_given none = false
is_given (some s) = true

unfoldable pub require_origin_only_public_base_url : BaseUrl → Result BaseUrl
require_origin_only_public_base_url value =
    if is_given value.username || is_given value.password
    then raise value_error
    else if is_given value.query || is_given value.fragment
    then raise value_error
    else if not (is_empty value.path || str_eq value.path "/")
    then raise value_error
    else ok value

-- `hostname in {"localhost", "127.0.0.1", "::1"}`
abbrev pub is_loopback : Option String → Bool
is_loopback none = false
is_loopback (some name) = str_eq name "localhost" || str_eq name "127.0.0.1" || str_eq name "::1"

unfoldable pub validate_deployment_security : Settings → Result Settings
validate_deployment_security s =
    let url = s.public_base_url in
    if str_eq url.scheme "http"
      && (not s.allow_insecure_local_cookies || not (is_loopback url.hostname))
    then raise value_error
    else if not (str_eq url.scheme "http") && s.allow_insecure_local_cookies
    then raise value_error
    else if is_nil s.admin_user_object_ids && is_nil s.admin_group_object_ids
    then raise value_error
    else if leb (s.admin_session_absolute_hours * 60) s.admin_session_idle_minutes
    then raise value_error
    else ok s

-- `Settings(…)`: the fields, each with its constraints and validators, and then the model's own.
unfoldable pub load : (String → Option ℕ) → RawSettings → Result Settings
load read raw = do
  readiness ← float_up_to raw.readiness_timeout_seconds infinity_bits
  url ← require_origin_only_public_base_url raw.public_base_url
  users ← identity_ids read raw.admin_user_object_ids
  groups ← identity_ids read raw.admin_group_object_ids
  idle ← bounded raw.admin_session_idle_minutes 10 1440
  absolute ← bounded raw.admin_session_absolute_hours 1 168
  attempt ← bounded raw.oidc_login_attempt_minutes 1 10
  http ← float_up_to raw.oidc_http_timeout_seconds thirty_bits
  operation ← float_up_to raw.oidc_operation_timeout_seconds sixty_bits
  validate_deployment_security (record {
    readiness_timeout_seconds = readiness;
    entra_tenant_id = raw.entra_tenant_id;
    entra_client_id = raw.entra_client_id;
    entra_client_secret = raw.entra_client_secret;
    public_base_url = url;
    admin_user_object_ids = users;
    admin_group_object_ids = groups;
    admin_session_idle_minutes = idle;
    admin_session_absolute_hours = absolute;
    oidc_login_attempt_minutes = attempt;
    allow_insecure_local_cookies = raw.allow_insecure_local_cookies;
    oidc_http_timeout_seconds = http;
    oidc_operation_timeout_seconds = operation;
  })

abbrev pub secure_cookies : Settings → Bool
secure_cookies s = not s.allow_insecure_local_cookies

-- `text.rstrip("/")`
unfoldable pub strip_slashes : String → String
strip_slashes String.[] = String.[]
strip_slashes (String.◌∷◌ c s) =
    let rest = strip_slashes s in
    if is_empty rest && code c == b'/' then String.[] else String.◌∷◌ c rest

unfoldable pub callback_url : Settings → String
unfolding strip_slashes
callback_url s = text_append (strip_slashes s.public_base_url.text) "/api/v1/auth/callback"
