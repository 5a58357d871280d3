-- ===== src/Tests/Http.antt =====
-- A request of the HTTP server at a concrete input.
use pullfrog_azure.Prelude.{String, ◌≡◌, ◌↔◌, some, [], ◌∷◌, is_empty, if◌then◌else◌}
use pullfrog_azure.Api.QueryRedaction.{IsRedacted, redact}
use pullfrog_azure.App.{get_callback}
use pullfrog_azure.App.Http.{HttpRequest, scope_of, route}
use pullfrog_azure.App.Http.Shielded.{IsCallbackRequest, route-IsRedacted}
use pullfrog_azure.Auth.Domain.{Callback}
use pullfrog_azure.Config.CallbackUrl.{IsCallbackUrl}
use pullfrog_azure.Config.{callback_url}
use pullfrog_azure.Tests.Config.{small_settings}

abbrev callback_request : HttpRequest
callback_request = record {
  method = "GET";
  path = "/api/v1/auth/callback";
  query_string = "code=1";
  cookie = λ name. some "ab";
  header = λ name. some "v";
}

abbrev one_pair : String → Callback
one_pair s = if is_empty s then [] else ("code", s) ∷ []

route-IsRedacted_example :
    IsCallbackUrl "http://localhost/" (callback_url small_settings)
    × ((route one_pair callback_request (redact (scope_of callback_request)).application
          ≡ some (get_callback (some "ab") (("code", "code=1") ∷ [])))
        ↔ IsCallbackRequest one_pair callback_request (some "ab") (("code", "code=1") ∷ []))
    × IsRedacted (scope_of callback_request) (redact (scope_of callback_request))
route-IsRedacted_example =
    route-IsRedacted one_pair callback_request (some "ab") (("code", "code=1") ∷ []) small_settings
