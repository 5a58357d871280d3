-- ===== src/Services/Authentication/Establish.antt =====
-- What `complete_login` guarantees when it returns: only an authorizer makes a session.
use pullfrog_azure.Prelude.{
  ℕ, String, ◌≡◌, refl, ◌⊎◌, inl, inr, true, Option, none, some, List, [], ◌∷◌, ◌++◌, arith, ap,
  sym, ◌∙◌, Bool-cases, Option-cases, ◌==◌, ==_iff,
}
use pullfrog_azure.Auth.Domain.{AdminIdentityRef, ValidatedOidcClaims}
use pullfrog_azure.Auth.Policy.Selection.{IsAuthorizer, select_authorizer-eq-some_iff}
use pullfrog_azure.Exec.{Exec, return, lift, ◌>>=◌, >>=-eq-ok, runs, after_parts}
use pullfrog_azure.Models.{Database}
use pullfrog_azure.Outcome.{ok}
use pullfrog_azure.Platform.{Platform}
use pullfrog_azure.Repositories.AdminIdentities.Laws.{all_refs}
use pullfrog_azure.Repositories.AdminSessions
use pullfrog_azure.Repositories.AdminSessions.{
  AdminSessionRecord, NewAdminSession, session_record, new_row, by_digest, by_id,
}
use pullfrog_azure.Repositories.LoginAttempts.{LoginAttemptRecord}
use pullfrog_azure.Repositories.Table.{find_by}
use pullfrog_azure.Services.Authentication.Authorization.{
  IsGroupSet, resolve_authorizer_lem, resolve_authorizer-database, resolve_authorizer-malformed,
}
use pullfrog_azure.Services.Authentication.Established.{IsEstablished}
use pullfrog_azure.Services.Authentication.{
  AuthenticationService, LoginCompletion, authenticated_admin, require_claim_uuid, parse_all,
  require_authorizer, new_session, establish, resolve_authorizer,
}

module _ (p : Platform) (service : AuthenticationService) where
  -- A selection that succeeded used a set of groups that count.
  resolved_groups :
      (t u : ℕ) (claims : ValidatedOidcClaims) (r : AdminIdentityRef) (db db' : Database)
      → resolve_authorizer p service t u claims db ≡ (ok (some r), db')
      → (gs : List ℕ) × IsGroupSet p claims gs
        × IsAuthorizer (service.configured_identities ++ all_refs db) t u gs r
  resolved_groups t u claims r db db' h = elim (Bool-cases claims.group_overage) [
    | inl over ↦ selected [] (inl (over, refl))
    | inr inline ↦ elim (Option-cases (parse_all p claims.group_object_ids)) [
      | inr (gs, parsed) ↦ selected gs (inr (inline, parsed))
      | inl malformed ↦
          cc
            (after_parts
              (sym (resolve_authorizer-malformed p service t u claims db inline malformed) ∙ h)).0
    ]
  ]
    where
      selected :
          (gs : List ℕ)
          → IsGroupSet p claims gs
          → (gs : List ℕ) × IsGroupSet p claims gs
            × IsAuthorizer (service.configured_identities ++ all_refs db) t u gs r
      selected gs g =
          let same =
            (after_parts (sym (resolve_authorizer_lem p service t u claims gs db g) ∙ h)).0 in
          (
            gs,
            g,
            (select_authorizer-eq-some_iff (service.configured_identities ++ all_refs db) t u gs
                  r).0
                (ok_inj same),
          )
        where
          ok_inj : {a b : Option AdminIdentityRef} → ok a ≡ ok b → a ≡ b
          ok_inj e = cc

  created_record :
      (id : ℕ) (n : NewAdminSession) (r : AdminSessionRecord) (db db' : Database)
      → AdminSessions.create id n db ≡ (ok r, db')
      → r ≡ session_record (new_row id n)
  unfolding AdminSessions.create
  created_record id n r db db' h = ground (arith, after_parts h)

  created_row :
      (id : ℕ) (n : NewAdminSession) (r : AdminSessionRecord) (db db' : Database)
      → AdminSessions.create id n db ≡ (ok r, db')
      → (db' ≡ record db { admin_session = new_row id n ∷ db.admin_session })
        × (find_by by_digest n.token_digest db.admin_session ≡ none)
        × (find_by by_id id db.admin_session ≡ none)
  unfolding AdminSessions.create
  created_row id n r db db' h = ground (arith, after_parts h)

  module _ (attempt : LoginAttemptRecord) (claims : ValidatedOidcClaims) (now : ℕ)
      (session csrf : String) (id : ℕ) (db : Database) (c : LoginCompletion) (db' : Database) where
    -- the parts of an establishment, put together
    established :
        (u : ℕ) (r : AdminIdentityRef) (x : AdminSessionRecord)
        → require_claim_uuid p claims.tenant_id ≡ ok service.tenant_id
        → require_claim_uuid p claims.user_object_id ≡ ok u
        → resolve_authorizer p service service.tenant_id u claims db ≡ (ok (some r), db)
        → AdminSessions.create id
            (new_session p service service.tenant_id u r claims now session csrf)
            db
          ≡ (ok x, db')
        → record {
          return_to = attempt.return_to;
          session_token = session;
          csrf_token = csrf;
          admin = authenticated_admin x;
        }
          ≡ c
        → IsEstablished p service attempt claims now session csrf id db c db'
    established u r x tenant user resolved created value =
        let (gs, group_set, authorized) =
          resolved_groups service.tenant_id u claims r db db resolved in
        let n = new_session p service service.tenant_id u r claims now session csrf in
        let row = created_record id n x db db' created in
        let (inserted, fresh, fresh_id) = created_row id n x db db' created in
        record {
          user_object_id = u;
          groups = gs;
          authorizer = r;
          tenant = tenant;
          user = user;
          group_set = group_set;
          authorized = authorized;
          added = inserted;
          fresh = (fresh, fresh_id);
          return_to = sym (ap (λ (l : LoginCompletion). l.return_to) value);
          tokens = (
            sym (ap (λ (l : LoginCompletion). l.session_token) value),
            sym (ap (λ (l : LoginCompletion). l.csrf_token) value),
          );
          admin = sym (ap (λ (l : LoginCompletion). l.admin) value) ∙ ap authenticated_admin row;
        }

    -- The rest of the method, from the selection on.
    abbrev conclude : (t u : ℕ) → AdminIdentityRef → Exec Database LoginCompletion
    conclude t u r =
        AdminSessions.create id (new_session p service t u r claims now session csrf) >>= λ x.
        return (record {
          return_to = attempt.return_to;
          session_token = session;
          csrf_token = csrf;
          admin = authenticated_admin x;
        })

    selected :
        (t u : ℕ) (o : Option AdminIdentityRef) (s₁ s₂ s₃ : Database)
        → (t == service.tenant_id) ≡ true
        → lift (require_claim_uuid p claims.tenant_id) db ≡ (ok t, s₁)
        → lift (require_claim_uuid p claims.user_object_id) s₁ ≡ (ok u, s₂)
        → resolve_authorizer p service t u claims s₂ ≡ (ok o, s₃)
        → (require_authorizer p service claims.group_overage o >>= conclude t u) s₃ ≡ (ok c, db')
        → (o ≡ none) ⊎ ((r : AdminIdentityRef) × (o ≡ some r))
        → IsEstablished p service attempt claims now session csrf id db c db'
    selected t u o s₁ s₂ s₃ same e₁ e₂ e₃ h (inl missing) = cc (after_parts (rw missing at h)).0
    selected t u o s₁ s₂ s₃ same e₁ e₂ e₃ h (inr (r, found)) =
        let tenant = (==_iff t service.tenant_id).0 same in
        let before = (after_parts e₁).1 ∙ (after_parts e₂).1 in
        let kept =
          before ∙ sym (resolve_authorizer-database p service t u claims s₂) ∙ (after_parts e₃).1 in
        elim (>>=-eq-ok
          (AdminSessions.create id (new_session p service t u r claims now session csrf)) _
          (rw found at h)) [
            | runs x s₄ e₄ h ↦
                established u r x ((after_parts e₁).0 ∙ ap ok tenant) (after_parts e₂).0
                  ((λ i. resolve_authorizer p service (sym tenant i) u claims (before i))
                    ∙ e₃
                    ∙ (λ i. (ok (found i), sym kept i)))
                  ((λ i.
                      AdminSessions.create id
                        (new_session p service (sym tenant i) u r claims now session csrf) (kept i))
                    ∙ e₄
                    ∙ (λ i. (ok x, (after_parts h).1 i)))
                  (injected (after_parts h).0)
          ]
      where
        injected : {a b : LoginCompletion} → ok a ≡ ok b → a ≡ b
        injected e = cc

    pub establish_sound :
        establish p service attempt claims now session csrf id db ≡ (ok c, db')
        → IsEstablished p service attempt claims now session csrf id db c db'
    unfolding establish
    establish_sound h = elim (>>=-eq-ok (lift (require_claim_uuid p claims.tenant_id)) _ h) [
      | runs t s₁ e₁ h ↦ elim (Bool-cases (t == service.tenant_id)) [
        | inr other ↦ cc (after_parts (rw other at h)).0
        | inl same ↦
            elim (>>=-eq-ok (lift (require_claim_uuid p claims.user_object_id)) _ (rw same at h)) [
              | runs u s₂ e₂ h ↦ elim (>>=-eq-ok (resolve_authorizer p service t u claims) _ h) [
                | runs o s₃ e₃ h ↦ selected t u o s₁ s₂ s₃ same e₁ e₂ e₃ h (Option-cases o)
              ]
            ]
      ]
    ]
