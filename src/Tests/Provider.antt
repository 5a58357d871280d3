-- ===== src/Tests/Provider.antt =====
-- The Entra adapter at concrete inputs.
use pullfrog_azure.Prelude.{◌≡◌, refl, ◌↔◌, ◌⊎◌, inl, true, is_ascii}
use pullfrog_azure.Auth.Domain.{oidc_invalid_response, timeout_error, lookup}
use pullfrog_azure.Outcome.{ok, raise}
use pullfrog_azure.Providers.EntraOidc.{
  EntraOidcProvider, validate_id_token_claims, exchange, retained_claims, optional_string,
  group_claims, has_group_overage,
}
use pullfrog_azure.Providers.EntraOidc.Token.{IsValidToken, validate_id_token_claims_iff}
use pullfrog_azure.Providers.EntraOidc.Exchange.{
  IsRedeemed, exchange_sound, exchange-transport_failure,
}
use pullfrog_azure.Tests.Data.{
  small_platform, small_flow, small_callback, small_token, small_provider, small_claims,
}
use pullfrog_azure.Values.{get}

plain : is_ascii "n" ≡ true
unfolding is_ascii
plain = refl

validate_id_token_claims_iff_example :
    ((validate_id_token_claims small_platform small_token "i" "a" "n" 100 ≡ ok tt)
      ↔ IsValidToken small_platform small_token "i" "a" "n" 100)
    × ((validate_id_token_claims small_platform small_token "i" "a" "n" 100 ≡ ok tt)
        ⊎ (validate_id_token_claims small_platform small_token "i" "a" "n" 100
            ≡ raise oidc_invalid_response))
validate_id_token_claims_iff_example =
    validate_id_token_claims_iff small_platform small_token "i" "a" "n" 100 plain

exchanged : exchange small_platform small_provider 100 small_flow small_callback ≡ ok small_claims
unfolding exchange validate_id_token_claims retained_claims optional_string group_claims
    has_group_overage get lookup is_ascii
exchanged = refl

exchange_sound_example :
    IsRedeemed small_platform small_provider 100 small_flow small_callback small_claims
exchange_sound_example =
    exchange_sound small_platform small_provider 100 small_flow small_callback small_claims
      exchanged

abbrev slow_provider : EntraOidcProvider
slow_provider = record small_provider {
  client = record {
    initiate_auth_code_flow = λ uri. raise timeout_error;
    acquire_token_by_auth_code_flow = λ flow callback. raise timeout_error;
  };
}

exchange-transport_failure_example :
    exchange small_platform slow_provider 100 small_flow small_callback
    ≡ raise oidc_invalid_response
exchange-transport_failure_example =
    exchange-transport_failure small_platform slow_provider 100 small_flow small_callback (inl refl)
