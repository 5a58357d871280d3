-- ===== src/Auth/Domain.antt =====
-- auth/domain.py: the administrator references, the error codes, the exceptions, and the values
-- that an identity provider exchanges with the service. A UUID is its 128-bit number.
use pullfrog_azure.Prelude.{
  ℕ, String, ◌≡◌, ◌↔◌, Bool, true, false, ◌&&◌, Option, none, some, List, [], ◌∷◌, arith, ◌==◌,
  str_eq, if◌then◌else◌,
}
use pullfrog_azure.Values.{Entries}

pub data AdminIdentityKind : Type 0 where
  user group : AdminIdentityKind

abbrev pub kind_eq : AdminIdentityKind → AdminIdentityKind → Bool
kind_eq user user = true
kind_eq group group = true
kind_eq _ _ = false

pub data AuthErrorCode : Type 0 where
  invalid_login_attempt identity_provider_unavailable identity_not_authorized : AuthErrorCode
  group_claim_overage invalid_session csrf_failed : AuthErrorCode

-- The exceptions that the modelled code raises or handles: those of the program, and the built-in
-- and database ones that its calls can raise.
pub data PyException : Type 0 where
  authentication_error : AuthErrorCode → PyException
  oidc_invalid_response oidc_provider_unavailable database_unavailable : PyException
  value_error type_error timeout_error os_error runtime_error : PyException
  integrity_error data_error : PyException

-- What a Python call comes back with: a value or the exception that it raised.
pub data Result {ℓ} (A : Type ℓ) : Type ℓ where
  ok : A → Result A
  raise : PyException → Result A

pub record AdminIdentityRef : Type 0 where
  pub tenant_id : ℕ
  pub kind : AdminIdentityKind
  pub object_id : ℕ

-- `==` of the frozen dataclass
unfoldable pub ref_eq : AdminIdentityRef → AdminIdentityRef → Bool
ref_eq a b = a.tenant_id == b.tenant_id && kind_eq a.kind b.kind && a.object_id == b.object_id

pub ref_eq_iff : (a b : AdminIdentityRef) → (ref_eq a b ≡ true) ↔ (a ≡ b)
unfolding ref_eq
ref_eq_iff a b = ground arith

pub record OidcAuthorization : Type 0 where
  pub authorization_uri : String
  pub flow : Entries

pub record ValidatedOidcClaims : Type 0 where
  pub tenant_id : Option String
  pub user_object_id : Option String
  pub display_name : Option String
  pub group_object_ids : List String
  pub group_overage : Bool

-- the query parameters of a callback, a mapping of texts
abbrev pub Callback : Type 0
Callback = List (String × String)

-- `callback.get(key)`
unfoldable pub lookup : String → Callback → Option String
lookup key [] = none
lookup key ((k, v) ∷ rest) = if str_eq k key then some v else lookup key rest

-- What the service asks of an identity provider.
pub record OidcProvider : Type 0 where
  pub begin : (redirect_uri : String) → Result OidcAuthorization
  pub exchange : Entries → Callback → Result ValidatedOidcClaims
