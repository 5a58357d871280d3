-- ===== src/App/SignedIn.antt =====
-- A sign-in through the application, and a later request with the session's cookie.
use pullfrog_azure.Prelude.{◌≡◌}
use pullfrog_azure.Api.AuthCookies.{Response}
use pullfrog_azure.App.Steps.{admin_response}
use pullfrog_azure.Config.{Settings}
use pullfrog_azure.Outcome.{Result, ok}
use pullfrog_azure.Platform.{Platform}
use pullfrog_azure.Services.Authentication.{AuthenticatedAdmin, LoginCompletion}
use pullfrog_azure.Services.Authentication.Resumed.{IsSame}

module _ (p : Platform) (settings : Settings) where
  -- A request that shows the administrator who has signed in, with his session's expiries.
  pub record IsShown (c : LoginCompletion) (r : Result Response) : Type 0 where
    pub admin : AuthenticatedAdmin
    pub same : IsSame admin c.admin
    pub answer_is : r ≡ ok (admin_response p settings admin)
