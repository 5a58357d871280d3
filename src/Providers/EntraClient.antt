-- ===== src/Providers/EntraClient.antt =====
-- providers/entra_oidc.py: how the adapter and its MSAL clients are set up from the settings. What
-- MSAL does with the options of a client is an argument.
use pullfrog_azure.Prelude.{ℕ, String, Bool, true, false, List, [], ◌∷◌, text_append}
use pullfrog_azure.Auth.Domain.{OidcProvider}
use pullfrog_azure.Config.{Settings}
use pullfrog_azure.Platform.{Platform}
use pullfrog_azure.Providers.EntraOidc.{EntraOidcProvider, Msal, begin, exchange}

-- the arguments of `msal.ConfidentialClientApplication`
pub record ClientOptions : Type 0 where
  pub client_id : String
  pub client_credential : String
  pub authority : String
  pub validate_authority : Bool
  pub timeout : ℕ
  pub exclude_scopes : List String
  pub enable_pii_log : Bool

abbrev pub authority_url : String
authority_url = "https://login.microsoftonline.com/"

-- `ConfidentialClientFactory(settings)()`
unfoldable pub client_options : Platform → Settings → ClientOptions
client_options p settings = record {
  client_id = p.uuid_text settings.entra_client_id;
  client_credential = settings.entra_client_secret;
  authority = text_append authority_url (p.uuid_text settings.entra_tenant_id);
  validate_authority = true;
  timeout = settings.oidc_http_timeout_seconds;
  exclude_scopes = "offline_access" ∷ [];
  enable_pii_log = false;
}

-- `EntraOidcProvider(settings)`
unfoldable pub entra_provider : Platform → (ClientOptions → Msal) → Settings → EntraOidcProvider
entra_provider p msal settings = record {
  client = msal (client_options p settings);
  expected_issuer =
      text_append authority_url (text_append (p.uuid_text settings.entra_tenant_id) "/v2.0");
  expected_audience = p.uuid_text settings.entra_client_id;
}

-- The adapter as the service sees it, at one instant.
abbrev pub as_oidc : Platform → EntraOidcProvider → (now : ℕ) → OidcProvider
as_oidc p provider now = record {
  begin = λ redirect_uri. begin provider redirect_uri;
  exchange = λ flow callback. exchange p provider now flow callback;
}
