-- ===== src/Providers/EntraOidc/Exchange.antt =====
-- What a redeemed login flow guarantees, and how `begin` and `exchange` fail.
use pullfrog_azure.Prelude.{
  ℕ, String, ◌≡◌, refl, ◌≢◌, ◌⊎◌, inl, inr, false, Option, none, some, arith, str_eq_iff,
  Option-cases, is_empty, ◌∙◌, ap,
}
use pullfrog_azure.Auth.Domain.{
  oidc_invalid_response, timeout_error, os_error, ValidatedOidcClaims, Callback, lookup,
}
use pullfrog_azure.Outcome.{Result, ok, raise, >>=-eq-ok}
use pullfrog_azure.Platform.{Platform}
use pullfrog_azure.Values.{PyValue, str, dict, Entries, get}
use pullfrog_azure.Providers.EntraOidc.{
  EntraOidcProvider, run, exchange, checked_nonce, except_runtime_error, token_claims, dict_claims,
  validate_id_token_claims, is_runtime_error,
}
use pullfrog_azure.Providers.EntraOidc.Token.{IsValidToken, validate_sound}
use pullfrog_azure.Providers.EntraOidc.Claims.{IsRetained, retained_claims-IsRetained}

module _ (p : Platform) (provider : EntraOidcProvider) (now : ℕ) (flow : Entries)
    (callback : Callback) where
  abbrev acquired : Result PyValue
  acquired = provider.client.acquire_token_by_auth_code_flow flow callback

  -- The transport failures of the token request.
  abbrev pub IsTransportFailure : Type 0
  IsTransportFailure = (acquired ≡ raise timeout_error) ⊎ (acquired ≡ raise os_error)

  -- A transport failure of the token request, a timeout or an `OSError`, makes `exchange` raise
  -- `OidcInvalidResponseError`, whatever the flow and the callback.
  pub exchange-transport_failure :
      IsTransportFailure → exchange p provider now flow callback ≡ raise oidc_invalid_response
  unfolding exchange
  exchange-transport_failure h = ground arith

  -- A login response that was redeemed: the callback answers the flow's state, MSAL returned a
  -- result without an error, and its ID token is valid for the flow's nonce.
  pub record IsRedeemed (c : ValidatedOidcClaims) : Type 0 where
    pub state : String
    pub nonce : String
    pub result : Entries
    pub claims : Entries
    pub flow_state : get "state" flow ≡ some (str state)
    pub callback_state : lookup "state" callback ≡ some state
    pub flow_nonce : get "nonce" flow ≡ some (str nonce)
    pub present : (state ≢ "") × (nonce ≢ "")
    pub acquired_result : acquired ≡ ok (dict result)
    pub no_error : get "error" result ≡ none
    pub id_token : get "id_token_claims" result ≡ some (dict claims)
    pub valid : IsValidToken p claims provider.expected_issuer provider.expected_audience nonce now
    pub retained : IsRetained claims c

checked_nonce_sound :
    (state nonce : Option PyValue) (given : Option String) (n : String)
    → checked_nonce state nonce given ≡ ok n
    → (s : String) × (state ≡ some (str s))
      × (nonce ≡ some (str n))
      × (given ≡ some s)
      × (is_empty s ≡ false)
      × (is_empty n ≡ false)
checked_nonce_sound (some (str s)) (some (str m)) (some g) n h =
    (s, refl, ground arith, ground (arith, str_eq_iff g s), ground arith, ground arith)
checked_nonce_sound s m g n h = cc

token_claims_sound :
    (v : PyValue) (claims : Entries)
    → token_claims v ≡ ok claims
    → (result : Entries) × (v ≡ dict result)
      × (get "error" result ≡ none)
      × (get "id_token_claims" result ≡ some (dict claims))
token_claims_sound (dict result) claims h = elim (Option-cases (get "error" result)) [
  | inr (e, bad) ↦ cc (rw bad at h)
  | inl fine ↦ (result, refl, fine, claims_of (get "id_token_claims" result) (rw fine at h))
]
  where
    claims_of : (o : Option PyValue) → dict_claims o ≡ ok claims → o ≡ some (dict claims)
    claims_of (some (dict c)) e = cc
    claims_of o e = cc
token_claims_sound v claims h = cc

nonempty : (s : String) → is_empty s ≡ false → s ≢ ""
nonempty s h e = cc (h, ap is_empty e)

acquired_sound : (r : Result PyValue) (v : PyValue) → except_runtime_error (run r) ≡ ok v → r ≡ ok v
unfolding run is_runtime_error
acquired_sound (ok w) v h = h
acquired_sound (raise e) v h = ground arith

module _ (p : Platform) (provider : EntraOidcProvider) (now : ℕ) (flow : Entries)
    (callback : Callback) where
  -- When `exchange` returns claims, the callback carries the non-empty state of the stored flow, MSAL
  -- returned a dict without an `error`, its ID token is valid for the flow's non-empty nonce and the
  -- provider's issuer and audience, and the claims are what is kept of that token.
  pub exchange_sound :
      (c : ValidatedOidcClaims)
      → exchange p provider now flow callback ≡ ok c
      → IsRedeemed p provider now flow callback c
  unfolding exchange
  exchange_sound c h =
      let (nonce, checked, h₁) =
        >>=-eq-ok (checked_nonce (get "state" flow) (get "nonce" flow) (lookup "state" callback)) _
          h in
      let (v, acquired, h₂) =
        >>=-eq-ok
          (except_runtime_error
            (run (provider.client.acquire_token_by_auth_code_flow flow callback)))
          _ h₁ in
      let (claims, token, h₃) = >>=-eq-ok (token_claims v) _ h₂ in
      let (u, validated, kept) =
        >>=-eq-ok
          (validate_id_token_claims p claims provider.expected_issuer provider.expected_audience
            nonce now)
          _ h₃ in
      let (state, flow_state, flow_nonce, callback_state, state_given, nonce_given) =
        checked_nonce_sound (get "state" flow) (get "nonce" flow) (lookup "state" callback) nonce
          checked in
      let (result, is_dict, no_error, id_token) = token_claims_sound v claims token in
      record {
        state = state;
        nonce = nonce;
        result = result;
        claims = claims;
        flow_state = flow_state;
        callback_state = callback_state;
        flow_nonce = flow_nonce;
        present = (nonempty state state_given, nonempty nonce nonce_given);
        acquired_result = acquired_sound _ v acquired ∙ ap ok is_dict;
        no_error = no_error;
        id_token = id_token;
        valid =
            (validate_sound p claims provider.expected_issuer provider.expected_audience nonce now
              validated).1;
        retained = retained_claims-IsRetained claims c kept;
      }
