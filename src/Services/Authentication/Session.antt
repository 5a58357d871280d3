-- ===== src/Services/Authentication/Session.antt =====
-- Resolving, deauthorizing and ending sessions.
use pullfrog_azure.Prelude.{
  ℕ, String, ◌≡◌, refl, Bool, true, false, is_empty, Option, none, some, List, ◌++◌, arith, sym,
  ◌∙◌,
}
use pullfrog_azure.Auth.Domain.{AdminIdentityRef, invalid_session}
use pullfrog_azure.Auth.Policy.{contains_ref, contains_ref-append}
use pullfrog_azure.Exec.{>>=-eq-ok, runs, after_parts}
use pullfrog_azure.Models.{Database, AdminSession}
use pullfrog_azure.Outcome.{ok}
use pullfrog_azure.Platform.{Platform}
use pullfrog_azure.Repositories.AdminIdentities.Laws.{all_refs, is_configured_lem}
use pullfrog_azure.Repositories.AdminSessions.{
  AdminSessionRecord, by_digest, get_active_and_touch, revoke,
}
use pullfrog_azure.Repositories.AdminSessions.Laws.{IsActive}
use pullfrog_azure.Repositories.AdminSessions.Lookup.{IsRecordOf, get_active_and_touch_sound}
use pullfrog_azure.Repositories.Table.{find_by}
use pullfrog_azure.Services.Authentication.{
  AuthenticationService, AuthenticatedAdmin, authenticated_admin, present_token, present_session,
  still_configured, admit, current_admin,
}
use pullfrog_azure.Services.Authentication.SignIn.{present_token_sound}

module _ (p : Platform) (service : AuthenticationService) where
  -- the identities that count at a request
  abbrev pub known_refs : Database → List AdminIdentityRef
  known_refs db = service.configured_identities ++ all_refs db

  pub still_configured_lem :
      (r : AdminIdentityRef) (db : Database)
      → still_configured p service r db ≡ (ok (contains_ref (known_refs db) r), db)
  still_configured_lem r db = ground (
    arith,
    is_configured_lem r db,
    contains_ref-append service.configured_identities (all_refs db) r,
  )

  -- The administrator of a request: an active session row of the token, whose authorizer is still
  -- configured.
  pub record IsCurrent (session_token : Option String) (now : ℕ) (db : Database)
      (a : AuthenticatedAdmin) : Type 0 where
    pub token : String
    pub row : AdminSession
    pub session : AdminSessionRecord
    pub between : Database
    pub given : session_token ≡ some token
    pub not_empty : is_empty token ≡ false
    pub stored : find_by by_digest (p.sha256 token) db.admin_session ≡ some row
    pub active : IsActive now row
    pub read : IsRecordOf now service.idle_lifetime service.touch_interval row session
    pub touched :
        get_active_and_touch (p.sha256 token) now service.idle_lifetime service.touch_interval db
        ≡ (ok (some session), between)
    pub authorized : contains_ref (known_refs between) session.authorizer ≡ true
    pub admin : a ≡ record {
      session_id = session.session_id;
      display_name = session.display_name;
      idle_expires_at = session.idle_expires_at;
      absolute_expires_at = session.absolute_expires_at;
      csrf_token_digest = session.csrf_token_digest;
    }

  present_session_sound :
      (o : Option AdminSessionRecord) (r : AdminSessionRecord) (s t : Database)
      → present_session p service o s ≡ (ok r, t)
      → (o ≡ some r) × (s ≡ t)
  present_session_sound none r s t h = cc (after_parts h).0
  present_session_sound (some b) r s t h = (injected (after_parts h).0, (after_parts h).1)
    where
      injected : ok b ≡ ok r → some b ≡ some r
      injected e = cc

  admit_sound :
      (now : ℕ) (r : AdminSessionRecord) (b : Bool) (a : AuthenticatedAdmin) (s t : Database)
      → admit p service now r b s ≡ (ok a, t)
      → (b ≡ true) × (a ≡ authenticated_admin r)
  unfolding revoke
  admit_sound now r true a s t h = (refl, sym (injected (after_parts h).0))
    where
      injected : {x y : AuthenticatedAdmin} → ok x ≡ ok y → x ≡ y
      injected e = cc
  admit_sound now r false a s t h = cc (after_parts h).0

  module _ (session_token : Option String) (now : ℕ) (db db' : Database)
      (a : AuthenticatedAdmin) where
    admitted :
        (token : String) (s₀ s₁ s₂ s₃ : Database) (o : Option AdminSessionRecord)
        (r : AdminSessionRecord) (b : Bool)
        → present_token p service invalid_session session_token db ≡ (ok token, s₀)
        → get_active_and_touch (p.sha256 token) now service.idle_lifetime service.touch_interval s₀
          ≡ (ok o, s₁)
        → present_session p service o s₁ ≡ (ok r, s₂)
        → still_configured p service r.authorizer s₂ ≡ (ok b, s₃)
        → admit p service now r b s₃ ≡ (ok a, db')
        → IsCurrent session_token now db a
    admitted token s₀ s₁ s₂ s₃ o r b e₀ e₁ e₂ e₃ h =
        let (given, not_empty, first) =
          present_token_sound p service invalid_session session_token token db s₀ e₀ in
        let (found, same) = present_session_sound o r s₁ s₂ e₂ in
        let (yes_b, value) = admit_sound now r b a s₃ db' h in
        let looked =
          (λ i.
            get_active_and_touch (p.sha256 token) now service.idle_lifetime service.touch_interval
              (first i))
          ∙ e₁
          ∙ (λ i. (ok (found i), same i)) in
        let (row, stored, active, read) =
          get_active_and_touch_sound (p.sha256 token) now service.idle_lifetime
            service.touch_interval db r (after_parts looked).0 in
        record {
          token = token;
          row = row;
          session = r;
          between = s₂;
          given = given;
          not_empty = not_empty;
          stored = stored;
          active = active;
          read = read;
          touched = looked;
          authorized =
              answered (after_parts (sym (still_configured_lem r.authorizer s₂) ∙ e₃)).0 yes_b;
          admin = value;
        }
      where
        answered : {x : Bool} → ok x ≡ ok b → b ≡ true → x ≡ true
        answered e f = cc

    -- When `current_admin` returns an administrator, the token was not empty, its session row is neither
    -- revoked nor expired, the row's authorizer is configured at that moment in the settings or the
    -- database, and the administrator shows that row.
    pub current_admin_sound :
        current_admin p service session_token now db ≡ (ok a, db')
        → IsCurrent session_token now db a
    unfolding current_admin
    current_admin_sound h =
        elim (>>=-eq-ok (present_token p service invalid_session session_token) _ h) [
          | runs token s₀ e₀ h ↦
              elim (>>=-eq-ok
                (get_active_and_touch (p.sha256 token) now service.idle_lifetime
                  service.touch_interval)
                _ h) [
                  | runs o s₁ e₁ h ↦ elim (>>=-eq-ok (present_session p service o) _ h) [
                    | runs r s₂ e₂ h ↦
                        elim (>>=-eq-ok (still_configured p service r.authorizer) _ h) [
                          | runs b s₃ e₃ h ↦ admitted token s₀ s₁ s₂ s₃ o r b e₀ e₁ e₂ e₃ h
                        ]
                  ]
                ]
        ]
