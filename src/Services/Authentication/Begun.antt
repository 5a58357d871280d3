-- ===== src/Services/Authentication/Begun.antt =====
-- Logins that must start, and do.
use pullfrog_azure.Prelude.{
  ℕ, ◌+◌, ◌≤◌, String, ◌≡◌, refl, Bool, Option, none, some, ◌∷◌, arith, ◌∙◌, text_length, ==_iff,
}
use pullfrog_azure.Auth.Domain.{OidcAuthorization}
use pullfrog_azure.Auth.Policy.{validate_return_to}
use pullfrog_azure.Exec.{lift, >>=-of-ok}
use pullfrog_azure.Models.{Database, OidcLoginAttempt}
use pullfrog_azure.Outcome.{ok}
use pullfrog_azure.Platform.{Platform}
use pullfrog_azure.Repositories.LoginAttempts
use pullfrog_azure.Repositories.LoginAttempts.{by_digest, without_expired}
use pullfrog_azure.Repositories.LoginAttempts.Laws.{new_attempt}
use pullfrog_azure.Repositories.Table.{find_by}
use pullfrog_azure.Services.Authentication.Login.{validate_return_to-IsLocalPath}
use pullfrog_azure.Services.Authentication.{
  AuthenticationService, LoginStart, begin_login, map_provider_error,
}

-- The fresh row id and the digest of the fresh token are not those of an attempt that the cleanup
-- leaves.
pub record IsFreshAttempt (locked : ℕ → Bool) (now id digest : ℕ) (db : Database) : Type 0 where
  pub digest_free :
      find_by by_digest digest (without_expired locked now db.oidc_login_attempt) ≡ none
  pub id_free :
      find_by
        (λ (row : OidcLoginAttempt). row.id)
        id
        (without_expired locked now db.oidc_login_attempt)
      ≡ none

module _ (p : Platform) (service : AuthenticationService) (return_to : Option String) (now : ℕ)
    (attempt_token : String) (id : ℕ) (locked : ℕ → Bool) (db : Database) (path : String)
    (a : OidcAuthorization) where
  abbrev pub begun : OidcLoginAttempt
  begun = new_attempt id (p.sha256 attempt_token) a.flow path now (now + service.attempt_lifetime)

  abbrev pub with_attempt : Database
  with_attempt = record db {
    oidc_login_attempt = begun ∷ without_expired locked now db.oidc_login_attempt;
  }

  abbrev pub start : LoginStart
  start = record {
    authorization_uri = a.authorization_uri;
    attempt_token = attempt_token;
    attempt_expires_at = now + service.attempt_lifetime;
  }

  create_begun :
      text_length path ≤ 2048
      → IsFreshAttempt locked now id (p.sha256 attempt_token) db
      → LoginAttempts.create locked id
          (p.sha256 attempt_token)
          a.flow
          path
          now
          (now + service.attempt_lifetime)
          db
        ≡ (ok tt, with_attempt)
  unfolding LoginAttempts.create
  create_begun fits f = ground (arith, f.digest_free, f.id_free)

  -- A login starts whenever its return path is valid, the provider gives an authorization and the new
  -- attempt's id and digest are free; the attempt is stored with the provider's flow and the path.
  pub begin_login_complete :
      validate_return_to p return_to ≡ ok path
      → service.oidc.begin service.callback_url ≡ ok a
      → IsFreshAttempt locked now id (p.sha256 attempt_token) db
      → begin_login p service return_to now attempt_token id locked db ≡ (ok start, with_attempt)
  unfolding begin_login
  begin_login_complete valid given f =
      let path_fits = (validate_return_to-IsLocalPath p return_to path valid).fits in
      >>=-of-ok (lift (validate_return_to p return_to)) _ (λ i. (valid i, db))
      ∙ >>=-of-ok (lift (map_provider_error (service.oidc.begin service.callback_url))) _
          (λ i. (map_provider_error (given i), db))
      ∙ >>=-of-ok
          (LoginAttempts.create locked id (p.sha256 attempt_token) a.flow path now
            (now + service.attempt_lifetime))
          _ (create_begun path_fits f)

  pub begun-found :
      find_by by_digest (p.sha256 attempt_token) with_attempt.oidc_login_attempt ≡ some begun
  unfolding find_by
  begun-found = rw ((==_iff (p.sha256 attempt_token) (p.sha256 attempt_token)).1 refl)
