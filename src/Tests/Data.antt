-- ===== src/Tests/Data.antt =====
-- The shared inputs of the tests: a platform, a provider, a service and a database with one attempt,
-- one configured group and one session.
use pullfrog_azure.Prelude.{
  In, here, there, arith, true, false, none, some, [], ◌∷◌, is_empty, text_length, if◌then◌else◌,
  leb,
}
use pullfrog_azure.Prelude.Int.{pos}
use pullfrog_azure.Auth.Domain.{
  AdminIdentityRef, user, group, OidcAuthorization, OidcProvider, ValidatedOidcClaims, Callback,
}
use pullfrog_azure.Models.{AdminIdentity, AdminSession, OidcLoginAttempt, Database}
use pullfrog_azure.Outcome.{ok}
use pullfrog_azure.Platform.{Platform}
use pullfrog_azure.Providers.EntraOidc.{EntraOidcProvider, Msal}
use pullfrog_azure.Services.Authentication.{AuthenticationService}
use pullfrog_azure.Repositories.AdminSessions.Laws as Sessions
use pullfrog_azure.Repositories.AdminSessions.{NewAdminSession}
use pullfrog_azure.Values.{Entries, end, entry, str, int, dict, list, nil, cons}

abbrev pub small_platform : Platform
small_platform = record {
  sha256 = λ s. text_length s;
  hexdigest = λ n. "0f";
  parse_uuid = λ s. if is_empty s then none else some (text_length s);
  uuid_text = λ n. if leb n 1 then "t" else "a";
  unquote = λ s. s;
  netloc_ok = λ s. true;
}

abbrev pub small_flow : Entries
small_flow =
    entry (str "state") (str "s")
      (entry (str "nonce") (str "n") (entry (str "auth_uri") (str "u") end))

abbrev pub small_callback : Callback
small_callback = ("state", "s") ∷ []

abbrev pub small_token : Entries
small_token = entry (str "iss") (str "i") (
    entry (str "aud") (str "a") (
      entry (str "exp") (int (pos 10)) (
        entry (str "nonce") (str "0f") (
          entry (str "tid") (str "t") (
            entry (str "oid") (str "uu")
              (entry (str "groups") (list (cons (str "ggg") nil)) end))))))

abbrev pub small_result : Entries
small_result = entry (str "id_token_claims") (dict small_token) end

abbrev pub small_msal : Msal
small_msal = record {
  initiate_auth_code_flow = λ uri. ok (dict small_flow);
  acquire_token_by_auth_code_flow = λ flow callback. ok (dict small_result);
}

abbrev pub small_provider : EntraOidcProvider
small_provider = record { client = small_msal; expected_issuer = "i"; expected_audience = "a" }

abbrev pub small_claims : ValidatedOidcClaims
small_claims = record {
  tenant_id = some "t";
  user_object_id = some "uu";
  display_name = none;
  group_object_ids = "ggg" ∷ [];
  group_overage = false;
}

abbrev pub small_authorization : OidcAuthorization
small_authorization = record { authorization_uri = "u"; flow = small_flow }

abbrev pub small_oidc : OidcProvider
small_oidc = record {
  begin = λ redirect_uri. ok small_authorization;
  exchange = λ flow callback. ok small_claims;
}

abbrev pub other_user : AdminIdentityRef
other_user = record { tenant_id = 1; kind = user; object_id = 9 }

abbrev pub some_group : AdminIdentityRef
some_group = record { tenant_id = 1; kind = group; object_id = 3 }

abbrev pub small_service : AuthenticationService
small_service = record {
  oidc = small_oidc;
  configured_identities = other_user ∷ [];
  tenant_id = 1;
  callback_url = "c";
  attempt_lifetime = 10;
  idle_lifetime = 30;
  absolute_lifetime = 100;
  touch_interval = 5;
}

abbrev pub group_row : AdminIdentity
group_row = record { id = 1; tenant_id = 1; kind = group; entra_object_id = 3; created_at = 0 }

-- the session of the token `abcde`
abbrev pub session_row : AdminSession
session_row = record {
  id = 7;
  token_digest = 5;
  csrf_token_digest = 6;
  tenant_id = 1;
  user_object_id = 2;
  authorizing_kind = group;
  authorizing_object_id = 3;
  display_name = none;
  created_at = 0;
  last_seen_at = 0;
  idle_expires_at = 30;
  absolute_expires_at = 100;
  revoked_at = none;
}

abbrev pub small_session : NewAdminSession
small_session = record {
  token_digest = 3;
  csrf_token_digest = 4;
  tenant_id = 1;
  user_object_id = 2;
  authorizer = some_group;
  display_name = none;
  created_at = 2;
  idle_expires_at = 32;
  absolute_expires_at = 102;
}

-- the attempt of the token `ab`
abbrev pub attempt_row : OidcLoginAttempt
attempt_row = record {
  id = 4;
  token_digest = 2;
  flow = small_flow;
  return_to = "/x";
  created_at = 0;
  expires_at = 10;
}

abbrev pub small_database : Database
small_database = record {
  oidc_login_attempt = attempt_row ∷ [];
  admin_identity = group_row ∷ [];
  admin_session = session_row ∷ [];
}

pub sessions-IsConsistent : Sessions.IsConsistent small_database.admin_session
sessions-IsConsistent = record { digests = (tt, tt); ids = (tt, tt); valid = only }
  where
    only : (row : AdminSession) → In row (session_row ∷ []) → Sessions.IsValidRow row
    only row (here e) = ground arith
    only row (there i) = elim i [ ]
