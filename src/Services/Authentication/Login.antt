-- ===== src/Services/Authentication/Login.antt =====
-- What `begin_login` stores and how it fails.
use pullfrog_azure.Prelude.{
  ℕ, ◌+◌, ◌≤◌, ◌<◌, String, ◌≡◌, refl, ◌⊎◌, inl, inr, Bool, Option, none, some, List, ◌∷◌, arith,
  sym, ◌∙◌, text_length,
}
use pullfrog_azure.Auth.Domain.{PyException, integrity_error, OidcAuthorization}
use pullfrog_azure.Auth.Policy.{validate_return_to}
use pullfrog_azure.Auth.Policy.ReturnTo.{IsLocalPath, validate_return_to-eq-ok_iff}
use pullfrog_azure.Exec.{lift, after_parts, after-return, >>=-eq-raise}
use pullfrog_azure.Models.{Database, OidcLoginAttempt}
use pullfrog_azure.Outcome.{ok, raise, Result-cases}
use pullfrog_azure.Platform.{Platform}
use pullfrog_azure.Repositories.LoginAttempts
use pullfrog_azure.Repositories.LoginAttempts.{
  LoginAttemptRecord, by_digest, consume, without_expired,
}
use pullfrog_azure.Repositories.LoginAttempts.Cleanup.{IsCleanup, without_expired-IsCleanup}
use pullfrog_azure.Repositories.LoginAttempts.Laws.{IsConsistent, create-eq-ok, consume-create}
use pullfrog_azure.Repositories.Table.{IsAbsent}
use pullfrog_azure.Values.{Entries}
use pullfrog_azure.Services.Authentication.{
  AuthenticationService, LoginStart, begin_login, map_provider_error,
}

-- The return path of every started login is a local path; `/` is the default.
pub validate_return_to-IsLocalPath :
    (p : Platform) (o : Option String) (t : String) → validate_return_to p o ≡ ok t → IsLocalPath t
unfolding validate_return_to
validate_return_to-IsLocalPath p none t h =
    let same : "/" ≡ t = cc in
    rw (← same)
      (record { fits = unfold text_length in omega arith; safe = ground arith; rooted = refl })
validate_return_to-IsLocalPath p (some r) t h = ((validate_return_to-eq-ok_iff p r t).0 h).2

module _ (p : Platform) (service : AuthenticationService) (return_to : Option String) (now : ℕ)
    (attempt_token : String) (id : ℕ) (locked : ℕ → Bool) (db : Database) where
  -- A call of `begin_login` that returned: its provider's authorization and its insertion.
  pub record IsBegun (s : LoginStart) (db' : Database) : Type 0 where
    pub authorization : OidcAuthorization
    pub path : String
    pub authorized : service.oidc.begin service.callback_url ≡ ok authorization
    pub validated : validate_return_to p return_to ≡ ok path
    pub start : s ≡ record {
      authorization_uri = authorization.authorization_uri;
      attempt_token = attempt_token;
      attempt_expires_at = now + service.attempt_lifetime;
    }
    pub stored :
        LoginAttempts.create locked id
          (p.sha256 attempt_token)
          authorization.flow
          path
          now
          (now + service.attempt_lifetime)
          db
        ≡ (ok tt, db')

  -- A started login: the provider's authorization, a local return path, and one new attempt in
  -- front of what the cleanup kept.
  pub record IsStarted (s : LoginStart) (db' : Database) : Type 0 where
    pub authorization : OidcAuthorization
    pub path : String
    pub kept : List OidcLoginAttempt
    pub authorized : service.oidc.begin service.callback_url ≡ ok authorization
    pub validated : validate_return_to p return_to ≡ ok path
    pub is_local : IsLocalPath path
    pub start : s ≡ record {
      authorization_uri = authorization.authorization_uri;
      attempt_token = attempt_token;
      attempt_expires_at = now + service.attempt_lifetime;
    }
    pub cleaned : IsCleanup locked now db.oidc_login_attempt kept
    pub fresh :
        IsAbsent by_digest (p.sha256 attempt_token) kept
        × IsAbsent (λ (row : OidcLoginAttempt). row.id) id kept
    pub added : db' ≡ record db {
      oidc_login_attempt =
          record {
            id = id;
            token_digest = p.sha256 attempt_token;
            flow = authorization.flow;
            return_to = path;
            created_at = now;
            expires_at = now + service.attempt_lifetime;
          }
          ∷ kept;
    }

  pub begin_login-IsBegun :
      (s : LoginStart) (db' : Database)
      → begin_login p service return_to now attempt_token id locked db ≡ (ok s, db')
      → IsBegun s db'
  unfolding begin_login
  begin_login-IsBegun s db' h = elim (Result-cases (validate_return_to p return_to)) [
    | inr (e, bad) ↦ cc (after_parts (rw bad at h)).0
    | inl (path, good) ↦ elim (Result-cases (service.oidc.begin service.callback_url)) [
      | inr (e, bad) ↦ absurd (refused path e good bad)
      | inl (a, given) ↦
          let (u, stored, value) =
            after-return
              (LoginAttempts.create locked id (p.sha256 attempt_token) a.flow path now
                (now + service.attempt_lifetime) db)
              _ (rw (good, given) at h) in
          record {
            authorization = a;
            path = path;
            authorized = given;
            validated = good;
            start = value;
            stored = stored;
          }
    ]
  ]
    where
      refused :
          (path : String) (e : PyException)
          → validate_return_to p return_to ≡ ok path
          → service.oidc.begin service.callback_url ≡ raise e
          → ⊥
      refused path e good bad = ground (arith, after_parts h)

  -- When `begin_login` returns, on a table with distinct digests and ids, the provider gave an
  -- authorization for the callback URL, and the validated return path is a local one; what it returns
  -- leads to that authorization with the attempt token. The database differs only in the attempts:
  -- one new row, under the token's digest, with the provider's flow, the path and the returned
  -- expiry, stands in front of what a cleanup at that instant may leave, where its digest and id are
  -- not taken.
  pub begin_login_sound :
      (s : LoginStart) (db' : Database)
      → IsConsistent db.oidc_login_attempt
      → begin_login p service return_to now attempt_token id locked db ≡ (ok s, db')
      → IsStarted s db'
  begin_login_sound s db' c h =
      let i = begin_login-IsBegun s db' h in
      let (added, digest_free, id_free) =
        create-eq-ok locked id (p.sha256 attempt_token) i.authorization.flow i.path now
          (now + service.attempt_lifetime) db i.stored in
      record {
        authorization = i.authorization;
        path = i.path;
        kept = without_expired locked now db.oidc_login_attempt;
        authorized = i.authorized;
        validated = i.validated;
        is_local = validate_return_to-IsLocalPath p return_to i.path i.validated;
        start = i.start;
        cleaned = without_expired-IsCleanup locked now db.oidc_login_attempt c;
        fresh = (digest_free, id_free);
        added = added;
      }

  -- The stored attempt can be consumed at every instant before its expiry, and gives the
  -- provider's flow and the validated return path.
  pub consume-begin_login :
      (s : LoginStart) (db' : Database) (later : ℕ)
      → begin_login p service return_to now attempt_token id locked db ≡ (ok s, db')
      → later < now + service.attempt_lifetime
      → (i : IsBegun s db') × ((consume (p.sha256 attempt_token) later db').0
          ≡ ok (
              some (record {
                flow = i.authorization.flow;
                return_to = i.path;
                expires_at = now + service.attempt_lifetime;
              })))
  consume-begin_login s db' later h early =
      let i = begin_login-IsBegun s db' h in
      let taken =
        consume-create locked id (p.sha256 attempt_token) i.authorization.flow i.path now
          (now + service.attempt_lifetime) later db i.stored early in
      (i, (after_parts taken).0)

  create_fails :
      (flow : Entries) (path : String) (e : PyException) (db' : Database)
      → text_length path ≤ 2048
      → LoginAttempts.create locked id
          (p.sha256 attempt_token)
          flow
          path
          now
          (now + service.attempt_lifetime)
          db
        ≡ (raise e, db')
      → (db' ≡ db) × (e ≡ integrity_error)
  unfolding LoginAttempts.create
  create_fails flow path e db' fits h = ground arith

  -- When `begin_login` raises, nothing is stored and nothing cleaned up, and the exception is that of
  -- the return path, that of the provider as `map_provider_error` names it, or a clash with a unique
  -- value; a validated path always fits its column.
  pub begin_login-eq-raise :
      (e : PyException) (db' : Database)
      → begin_login p service return_to now attempt_token id locked db ≡ (raise e, db')
      → (db' ≡ db)
        × ((validate_return_to p return_to ≡ raise e)
            ⊎ (map_provider_error (service.oidc.begin service.callback_url) ≡ raise e)
            ⊎ (e ≡ integrity_error))
  unfolding begin_login
  begin_login-eq-raise e db' h = elim (>>=-eq-raise (lift (validate_return_to p return_to)) _ h) [
    | inl bad ↦ (sym (after_parts bad).1, inl (after_parts bad).0)
    | inr (path, s₁, good, h) ↦
        elim (>>=-eq-raise (lift (map_provider_error (service.oidc.begin service.callback_url))) _
          h) [
            | inl bad ↦
                (sym ((after_parts good).1 ∙ (after_parts bad).1), inr (inl (after_parts bad).0))
            | inr (a, s₂, given, h) ↦
                elim (>>=-eq-raise
                  (LoginAttempts.create locked id (p.sha256 attempt_token) a.flow path now
                    (now + service.attempt_lifetime))
                  _ h) [
                    | inr (u, s₃, _, h) ↦ cc (after_parts h).0
                    | inl bad ↦
                        let fits =
                          (validate_return_to-IsLocalPath p return_to path
                            (after_parts good).0).fits in
                        let same = (after_parts good).1 ∙ (after_parts given).1 in
                        let (state, clash) =
                          create_fails a.flow path e db' fits (rw (← same) at bad) in
                        (state, inr (inr clash))
                  ]
          ]
  ]
