-- ===== src/Providers/EntraOidc/Begin.antt =====
-- What starting a login flow guarantees, and how it fails.
use pullfrog_azure.Prelude.{
  String, ◌≡◌, refl, ◌↔◌, inl, inr, false, Option, some, arith, is_empty, Bool-cases, ap, sym, ◌∙◌,
}
use pullfrog_azure.Auth.Domain.{OidcAuthorization}
use pullfrog_azure.Outcome.{Result, ok, raise, >>=-eq-ok}
use pullfrog_azure.Values.{PyValue, str, dict, Entries, get}
use pullfrog_azure.Providers.EntraOidc.{
  EntraOidcProvider, run, begin, authorization_of, require_json_object,
}
use pullfrog_azure.Providers.EntraOidc.Json.{IsJsonObject, require_json_object-eq-ok_iff}

-- A flow that MSAL initiated: a dict that JSON can write, with a non-empty authorization URI.
pub record IsInitiated (response : Result PyValue) (a : OidcAuthorization) : Type 0 where
  pub initiated : response ≡ ok (dict a.flow)
  pub storable : IsJsonObject a.flow
  pub has_uri : get "auth_uri" a.flow ≡ some (str a.authorization_uri)
  pub uri_given : is_empty a.authorization_uri ≡ false

run_sound : (r : Result PyValue) (v : PyValue) → run r ≡ ok v → r ≡ ok v
unfolding run
run_sound (ok w) v h = h
run_sound (raise e) v h = ground arith

authorization_of_sound :
    (flow : Entries) (o : Option PyValue) (a : OidcAuthorization)
    → authorization_of flow o ≡ ok a
    → (a.flow ≡ flow)
      × (o ≡ some (str a.authorization_uri))
      × (is_empty a.authorization_uri ≡ false)
authorization_of_sound flow (some (str uri)) a h = elim (Bool-cases (is_empty uri)) [
  | inl missing ↦ cc (rw missing at h)
  | inr given ↦ built given (rw given at h)
]
  where
    built :
        is_empty uri ≡ false
        → ok (record { authorization_uri = uri; flow = flow }) ≡ ok a
        → (a.flow ≡ flow)
          × (some (str uri) ≡ some (str a.authorization_uri))
          × (is_empty a.authorization_uri ≡ false)
    built given e =
        let same : record { authorization_uri = uri; flow = flow } ≡ a = cc in
        (
          sym (ap (λ (x : OidcAuthorization). x.flow) same),
          ap (λ (x : OidcAuthorization). some (str x.authorization_uri)) same,
          rw (← same) given,
        )
authorization_of_sound flow o a h = cc

module _ (provider : EntraOidcProvider) (redirect_uri : String) where
  abbrev response : Result PyValue
  response = provider.client.initiate_auth_code_flow redirect_uri

  begin_sound :
      (a : OidcAuthorization) → begin provider redirect_uri ≡ ok a → IsInitiated response a
  unfolding begin
  begin_sound a h =
      let (v, ran, h₁) = >>=-eq-ok (run response) _ h in
      let (flow, copied, h₂) = >>=-eq-ok (require_json_object v) _ h₁ in
      let (same, uri, given) = authorization_of_sound flow (get "auth_uri" flow) a h₂ in
      let (is_dict, json) = (require_json_object-eq-ok_iff v flow).0 copied in
      record {
        initiated = run_sound response v ran ∙ ap ok is_dict ∙ ap (λ f. ok (dict f)) (sym same);
        storable = rw same json;
        has_uri = rw same uri;
        uri_given = given;
      }

  begin_complete :
      (a : OidcAuthorization) → IsInitiated response a → begin provider redirect_uri ≡ ok a
  unfolding begin
  begin_complete a i =
      let copied = (require_json_object-eq-ok_iff (dict a.flow) a.flow).1 (refl, i.storable) in
      ground (arith, i.initiated, copied, i.has_uri, i.uri_given)

  -- `begin` returns an authorization exactly when MSAL initiated a flow that JSON can write with a
  -- non-empty `auth_uri`, which it returns with that flow.
  pub begin-eq-ok_iff :
      (a : OidcAuthorization)
      → (begin provider redirect_uri ≡ ok a)
        ↔ IsInitiated (provider.client.initiate_auth_code_flow redirect_uri) a
  begin-eq-ok_iff a = (begin_sound a, begin_complete a)
