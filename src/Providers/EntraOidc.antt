-- ===== src/Providers/EntraOidc.antt =====
-- providers/entra_oidc.py: the adapter over MSAL. What awaiting an MSAL call comes back with, the
-- operation timeout included, is an argument; `now` is `int(time.time())`.
pub mod Payload
pub mod Json
pub mod Token
pub mod Claims
pub mod Exchange
pub mod Begin
use pullfrog_azure.Prelude.{
  ℕ, ◌+◌, String, Bool, true, false, not, ◌&&◌, ◌||◌, Option, none, some, List, [], ◌∷◌, str_eq,
  if◌then◌else◌, is_ascii, is_empty, is_some, text_take,
}
use pullfrog_azure.Prelude.Int.{ℤ, pos, ltb_ℤ, ltb_add}
use pullfrog_azure.Auth.Domain.{
  PyException, authentication_error, oidc_invalid_response, oidc_provider_unavailable,
  database_unavailable, value_error, type_error, timeout_error, os_error, runtime_error,
  integrity_error, data_error, OidcAuthorization, ValidatedOidcClaims, Callback, lookup,
}
use pullfrog_azure.Outcome.{Result, ok, raise, ◌>>=◌, ◌>>◌, guard}
use pullfrog_azure.Platform.{Platform}
use pullfrog_azure.Values.{
  PyValue, none_value, bool, int, float, str, list, dict, other, Items, nil, cons, Entries, end,
  entry, is_str, equals_text, get, is_finite,
}
unfoldable pub use pullfrog_azure.Providers.EntraOidc.Payload.{
  is_json_value, all_json, all_json_entries, copy_entries, require_json_object, optional_string,
  string_items, group_claims, has_group_overage,
}
pub use pullfrog_azure.Providers.EntraOidc.Payload.{
  string_claim, groups_claim, hasgroups_overage, names_groups, claim_names_overage,
}

-- `claims.get(name) == text`
abbrev is_text : Option PyValue → String → Bool
is_text none text = false
is_text (some v) text = equals_text v text

all_str : Items → Bool
all_str nil = true
all_str (cons v items) = is_str v && all_str items

-- `text in items`
has_text : String → Items → Bool
has_text text nil = false
has_text text (cons v items) = equals_text v text || has_text text items

abbrev audience_matches : Option PyValue → String → Bool
audience_matches (some (str s)) expected = str_eq s expected
audience_matches (some (list items)) expected = all_str items && has_text expected items
audience_matches _ expected = false

-- neither a bool nor another object, and not `expires_at < now - 120`
abbrev is_unexpired : Option PyValue → ℕ → Bool
is_unexpired (some (int n)) now = not (ltb_add n 120 (pos now))
is_unexpired _ now = false

-- missing or `None`, or an int that is not `not_before > now + 120`
abbrev is_begun : Option PyValue → ℕ → Bool
is_begun none now = true
is_begun (some none_value) now = true
is_begun (some (int n)) now = not (ltb_ℤ (pos (now + 120)) n)
is_begun (some _) now = false

-- `expected_nonce.encode("ascii")` raises `UnicodeEncodeError`, a `ValueError`, of other texts.
unfoldable pub validate_id_token_claims :
    (p : Platform) (claims : Entries) (expected_issuer expected_audience expected_nonce : String)
    (now : ℕ)
    → Result (Unit {0})
unfolding all_str has_text
validate_id_token_claims p claims expected_issuer expected_audience expected_nonce now = do
  guard (is_ascii expected_nonce) value_error
  guard (is_text (get "iss" claims) expected_issuer) oidc_invalid_response
  guard (audience_matches (get "aud" claims) expected_audience) oidc_invalid_response
  guard (is_unexpired (get "exp" claims) now) oidc_invalid_response
  guard (is_begun (get "nbf" claims) now) oidc_invalid_response
  guard (is_text (get "nonce" claims) (p.hexdigest (p.sha256 expected_nonce))) oidc_invalid_response

-- The subclasses of `RuntimeError`: the program's own exceptions all are.
pub is_runtime_error : PyException → Bool
is_runtime_error (authentication_error code) = true
is_runtime_error oidc_invalid_response = true
is_runtime_error oidc_provider_unavailable = true
is_runtime_error database_unavailable = true
is_runtime_error runtime_error = true
is_runtime_error _ = false

-- What awaiting the two MSAL operations comes back with, and the provider's settings.
pub record Msal : Type 0 where
  pub initiate_auth_code_flow : (redirect_uri : String) → Result PyValue
  pub acquire_token_by_auth_code_flow : Entries → Callback → Result PyValue

pub record EntraOidcProvider : Type 0 where
  pub client : Msal
  pub expected_issuer : String
  pub expected_audience : String

-- the handlers of `_run`
run : Result PyValue → Result PyValue
run (ok v) = ok v
run (raise value_error) = raise oidc_invalid_response
run (raise timeout_error) = raise oidc_provider_unavailable
run (raise os_error) = raise oidc_provider_unavailable
run (raise e) = raise e

abbrev authorization_of : Entries → Option PyValue → Result OidcAuthorization
authorization_of flow (some (str uri)) =
    if is_empty uri
    then raise oidc_invalid_response
    else ok (record { authorization_uri = uri; flow = flow })
authorization_of flow _ = raise oidc_invalid_response

unfoldable pub begin : EntraOidcProvider → String → Result OidcAuthorization
unfolding run
begin provider redirect_uri = do
  response ← run (provider.client.initiate_auth_code_flow redirect_uri)
  flow ← require_json_object response
  authorization_of flow (get "auth_uri" flow)

-- the nonce of a flow whose state is the callback's
abbrev checked_nonce : Option PyValue → Option PyValue → Option String → Result String
checked_nonce (some (str state)) (some (str nonce)) (some given) =
    if is_empty state || not (str_eq given state) || is_empty nonce
    then raise oidc_invalid_response
    else ok nonce
checked_nonce _ _ _ = raise oidc_invalid_response

-- `except RuntimeError`
abbrev except_runtime_error : Result PyValue → Result PyValue
except_runtime_error (ok v) = ok v
except_runtime_error (raise e) = if is_runtime_error e then raise oidc_invalid_response else raise e

abbrev dict_claims : Option PyValue → Result Entries
dict_claims (some (dict claims)) = ok claims
dict_claims _ = raise oidc_invalid_response

abbrev token_claims : PyValue → Result Entries
token_claims (dict result) =
    if is_some (get "error" result)
    then raise oidc_invalid_response
    else dict_claims (get "id_token_claims" result)
token_claims _ = raise oidc_invalid_response

abbrev shortened : Option String → Option String
shortened none = none
shortened (some name) = some (text_take 256 name)

-- what is kept of the validated claims
unfoldable pub retained_claims : Entries → Result ValidatedOidcClaims
retained_claims claims = do
  display_name ← optional_string claims "name"
  tenant_id ← optional_string claims "tid"
  user_object_id ← optional_string claims "oid"
  group_object_ids ← group_claims claims
  group_overage ← has_group_overage claims
  ok (record {
    tenant_id = tenant_id;
    user_object_id = user_object_id;
    display_name = shortened display_name;
    group_object_ids = group_object_ids;
    group_overage = group_overage;
  })

unfoldable pub exchange :
    Platform → EntraOidcProvider → (now : ℕ) → Entries → Callback → Result ValidatedOidcClaims
unfolding run is_runtime_error
exchange p provider now flow callback = do
  nonce ← checked_nonce (get "state" flow) (get "nonce" flow) (lookup "state" callback)
  result ←
      except_runtime_error (run (provider.client.acquire_token_by_auth_code_flow flow callback))
  claims ← token_claims result
  validate_id_token_claims p claims provider.expected_issuer provider.expected_audience nonce now
  retained_claims claims
