-- ===== src/Api/AuthCookies.antt =====
-- api/auth_cookies.py: the `Set-Cookie` headers that a response carries. A cookie that is deleted is
-- one that is set to nothing and has expired.
pub mod Jar
use pullfrog_azure.Prelude.{ℕ, String, Bool, true, false, Option, none, some, List, [], ◌∷◌, ◌++◌}
use pullfrog_azure.Auth.Domain.{AuthErrorCode}
use pullfrog_azure.Services.Authentication.{AuthenticatedAdmin}

-- the attributes of a `Set-Cookie` header; without a domain the cookie is host-only
pub record CookieAttributes : Type 0 where
  pub path : String
  pub secure : Bool
  pub httponly : Bool
  pub samesite : String

pub data SetCookie : Type 0 where
  -- `response.set_cookie(…)`
  set_cookie : (key value : String) (expires : ℕ) → CookieAttributes → SetCookie
  -- `response.delete_cookie(…)`
  delete_cookie : (key : String) → CookieAttributes → SetCookie

-- schemas/*.py: what the body says
pub data Body : Type 0 where
  no_body : Body
  auth_error : AuthErrorCode → Body
  admin_session : (display_name : Option String) (idle_expires_at absolute_expires_at : ℕ) → Body
  status_text : String → Body

pub record Response : Type 0 where
  pub status_code : ℕ
  -- the `url` of a `RedirectResponse`
  pub location : Option String
  pub body : Body
  pub cookies : List SetCookie

abbrev pub oidc_attempt_cookie : String
oidc_attempt_cookie = "pullfrog_oidc_attempt"

abbrev pub admin_session_cookie : String
admin_session_cookie = "pullfrog_admin_session"

abbrev pub admin_csrf_cookie : String
admin_csrf_cookie = "pullfrog_admin_csrf"

abbrev pub callback_path : String
callback_path = "/api/v1/auth/callback"

abbrev attempt_attributes : Bool → CookieAttributes
attempt_attributes secure = record {
  path = callback_path;
  secure = secure;
  httponly = true;
  samesite = "lax";
}

abbrev admin_attributes : (httponly secure : Bool) → CookieAttributes
admin_attributes httponly secure = record {
  path = "/";
  secure = secure;
  httponly = httponly;
  samesite = "lax";
}

abbrev add_cookie : Response → SetCookie → Response
add_cookie response cookie = record response { cookies = response.cookies ++ cookie ∷ [] }

unfoldable pub set_attempt_cookie :
    Response → (token : String) (expires_at : ℕ) (secure : Bool) → Response
set_attempt_cookie response token expires_at secure =
    add_cookie response
      (set_cookie oidc_attempt_cookie token expires_at (attempt_attributes secure))

unfoldable pub clear_attempt_cookie : Response → (secure : Bool) → Response
clear_attempt_cookie response secure =
    add_cookie response (delete_cookie oidc_attempt_cookie (attempt_attributes secure))

unfoldable pub set_admin_cookies :
    Response
    → (session_token csrf_token : String) (absolute_expires_at : ℕ) (secure : Bool) → Response
set_admin_cookies response session_token csrf_token absolute_expires_at secure =
    add_cookie
      (add_cookie response (
        set_cookie admin_session_cookie session_token absolute_expires_at
          (admin_attributes true secure)))
      (set_cookie admin_csrf_cookie csrf_token absolute_expires_at (admin_attributes false secure))

unfoldable pub clear_admin_cookies : Response → (secure : Bool) → Response
clear_admin_cookies response secure =
    add_cookie
      (add_cookie response (delete_cookie admin_session_cookie (admin_attributes true secure)))
      (delete_cookie admin_csrf_cookie (admin_attributes false secure))
