-- ===== src/Api/AuthCookies/Jar.antt =====
-- A browser's cookies of one host, by name and path, as `Set-Cookie` headers change them: a header
-- replaces or removes the cookie of its own name and path, and no other.
use mathlib.Core.Option.{map}
use pullfrog_azure.Prelude.{
  ℕ, String, ◌≡◌, refl, ◌∙◌, ap, Bool, true, false, ◌&&◌, Option, none, some, List, [], ◌∷◌, ◌++◌,
  str_eq, if◌then◌else◌,
}
use pullfrog_azure.Api.AuthCookies.{
  SetCookie, set_cookie, delete_cookie, Response, admin_session_cookie, admin_csrf_cookie,
  oidc_attempt_cookie, callback_path, set_admin_cookies, clear_admin_cookies, set_attempt_cookie,
  clear_attempt_cookie, attempt_attributes, admin_attributes,
}

pub record Cookie : Type 0 where
  pub value : String
  pub expires : ℕ
  pub secure : Bool
  pub httponly : Bool

abbrev pub Jar : Type 0
Jar = (key path : String) → Option Cookie

abbrev pub is_at : (key path key' path' : String) → Bool
is_at key path key' path' = str_eq key key' && str_eq path path'

abbrev pub receive : SetCookie → Jar → Jar
receive (set_cookie key value expires a) jar key' path' =
    if is_at key a.path key' path'
    then some
        (record { value = value; expires = expires; secure = a.secure; httponly = a.httponly })
    else jar key' path'
receive (delete_cookie key a) jar key' path' =
    if is_at key a.path key' path' then none else jar key' path'

-- what the browser sends for a cookie
abbrev pub held : Jar → (key path : String) → Option String
held jar key path = map (λ (c : Cookie). c.value) (jar key path)

-- the headers in their order
abbrev pub receive_all : List SetCookie → Jar → Jar
receive_all [] jar = jar
receive_all (c ∷ cs) jar = receive_all cs (receive c jar)

receive_all-append :
    (xs ys : List SetCookie) (jar : Jar) (key path : String)
    → receive_all (xs ++ ys) jar key path ≡ receive_all ys (receive_all xs jar) key path
receive_all-append [] ys jar key path = refl
receive_all-append (c ∷ xs) ys jar key path = receive_all-append xs ys (receive c jar) key path

-- The jar with a cookie, and without one.
abbrev pub with_cookie : (key path : String) → Cookie → Jar → Jar
with_cookie key path cookie jar key' path' =
    if is_at key path key' path' then some cookie else jar key' path'

abbrev pub without_cookie : (key path : String) → Jar → Jar
without_cookie key path jar key' path' = if is_at key path key' path' then none else jar key' path'

module _ (response : Response) (secure : Bool) (jar : Jar) (key path : String) where
  abbrev before : Jar
  before = receive_all response.cookies jar

  pub clear_attempt_cookie_lem :
      receive_all (clear_attempt_cookie response secure).cookies jar key path
      ≡ without_cookie oidc_attempt_cookie callback_path before key path
  unfolding clear_attempt_cookie
  clear_attempt_cookie_lem =
      receive_all-append response.cookies
        (delete_cookie oidc_attempt_cookie (attempt_attributes secure) ∷ []) jar key path

  pub set_attempt_cookie_lem :
      (token : String) (expires_at : ℕ)
      → receive_all (set_attempt_cookie response token expires_at secure).cookies jar key path
        ≡ with_cookie oidc_attempt_cookie callback_path
            (record { value = token; expires = expires_at; secure = secure; httponly = true })
            before
            key
            path
  unfolding set_attempt_cookie
  set_attempt_cookie_lem token expires_at =
      receive_all-append response.cookies
        (set_cookie oidc_attempt_cookie token expires_at (attempt_attributes secure) ∷ []) jar key
        path

  pub clear_admin_cookies_lem :
      receive_all (clear_admin_cookies response secure).cookies jar key path
      ≡ without_cookie admin_csrf_cookie "/"
          (without_cookie admin_session_cookie "/" before)
          key
          path
  unfolding clear_admin_cookies
  clear_admin_cookies_lem =
      receive_all-append
        (response.cookies ++ delete_cookie admin_session_cookie (admin_attributes true secure) ∷ [])
        (delete_cookie admin_csrf_cookie (admin_attributes false secure) ∷ []) jar key path
      ∙ ap (λ o. if is_at admin_csrf_cookie "/" key path then none else o)
          (receive_all-append response.cookies
            (delete_cookie admin_session_cookie (admin_attributes true secure) ∷ []) jar key path)

  pub set_admin_cookies_lem :
      (session csrf : String) (expires : ℕ)
      → receive_all (set_admin_cookies response session csrf expires secure).cookies jar key path
        ≡ with_cookie admin_csrf_cookie "/"
            (record { value = csrf; expires = expires; secure = secure; httponly = false })
            (with_cookie admin_session_cookie "/"
              (record { value = session; expires = expires; secure = secure; httponly = true })
              before)
            key
            path
  unfolding set_admin_cookies
  set_admin_cookies_lem session csrf expires =
      receive_all-append
        (response.cookies
          ++ set_cookie admin_session_cookie session expires (admin_attributes true secure) ∷ [])
        (set_cookie admin_csrf_cookie csrf expires (admin_attributes false secure) ∷ []) jar key
        path
      ∙ ap
          (λ o.
            if is_at admin_csrf_cookie "/" key path
            then some
                (record { value = csrf; expires = expires; secure = secure; httponly = false })
            else o)
          (receive_all-append response.cookies
            (set_cookie admin_session_cookie session expires (admin_attributes true secure) ∷ [])
            jar key path)
