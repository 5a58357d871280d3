-- ===== src/Providers/EntraOidc/Claims.antt =====
-- What is kept of the claims of an ID token: texts, the inline groups, and the group overage.
use pullfrog_azure.Prelude.{
  String, ◌≡◌, refl, ◌↔◌, ◌⊎◌, inl, inr, Bool, true, false, ◌||◌, Option, none, some, List, [], ◌∷◌,
  arith, sym, ◌∙◌,
}
use pullfrog_azure.Auth.Domain.{PyException, oidc_invalid_response, ValidatedOidcClaims}
use pullfrog_azure.Outcome.{Result, ok, raise, ◌>>=◌, Result-cases, >>=-eq-raise}
use pullfrog_azure.Values.{PyValue, bool, str, list, dict, Items, nil, cons, Entries, get}
use pullfrog_azure.Providers.EntraOidc.Token.{AreTexts, no_texts, text}
use pullfrog_azure.Providers.EntraOidc.{
  string_items, group_claims, groups_claim, has_group_overage, optional_string, string_claim,
  retained_claims, shortened, hasgroups_overage, claim_names_overage, names_groups,
}

-- The claim is missing, or a text.
abbrev pub IsOptionalText : Option PyValue → Option String → Type 0
IsOptionalText o none = o ≡ none
IsOptionalText o (some s) = o ≡ some (str s)

-- The `groups` claim is missing, or a list of exactly these texts.
pub data IsGroups : Option PyValue → List String → Type 0 where
  missing : {o : Option PyValue} {gs : List String} → o ≡ none → gs ≡ [] → IsGroups o gs
  inline :
      {o : Option PyValue} {gs : List String} (items : Items)
      → o ≡ some (list items)
      → AreTexts items gs
      → IsGroups o gs

-- Either mark of an Entra group overage.
pub data IsOverage (claims : Entries) : Type 0 where
  by_hasgroups : get "hasgroups" claims ≡ some (bool true) → IsOverage claims
  by_claim_names :
      (names : Entries) (source : String)
      → get "_claim_names" claims ≡ some (dict names)
      → get "groups" names ≡ some (str source)
      → IsOverage claims

-- What is kept of the claims of a validated token.
pub record IsRetained (claims : Entries) (c : ValidatedOidcClaims) : Type 0 where
  pub tenant : IsOptionalText (get "tid" claims) c.tenant_id
  pub user : IsOptionalText (get "oid" claims) c.user_object_id
  pub name :
      (full : Option String) × IsOptionalText (get "name" claims) full
      × (c.display_name ≡ shortened full)
  pub groups : IsGroups (get "groups" claims) c.group_object_ids
  pub overage : (c.group_overage ≡ true) ↔ IsOverage claims

string_claim_sound :
    (o : Option PyValue) (r : Option String) → string_claim o ≡ ok r → IsOptionalText o r
string_claim_sound none none h = refl
string_claim_sound none (some s) h = cc
string_claim_sound (some (str s)) none h = cc
string_claim_sound (some (str s)) (some t) h = cc
string_claim_sound (some _) r h = cc

string_items_sound :
    (items : Items) (gs : List String) → string_items items ≡ ok gs → AreTexts items gs
unfolding string_items
string_items_sound nil [] h = no_texts
string_items_sound nil (g ∷ gs) h = cc
string_items_sound (cons (str s) items) gs h =
    step (string_items items) h (string_items_sound items)
  where
    step :
        (later : Result (List String))
        → (later >>= λ rest. ok (s ∷ rest)) ≡ ok gs
        → ((r : List String) → later ≡ ok r → AreTexts items r)
        → AreTexts (cons (str s) items) gs
    step (ok r) e ih = let same : s ∷ r ≡ gs = cc (e) in rw (← same) (text (ih r refl))
    step (raise x) e ih = cc
string_items_sound (cons v items) gs h = cc

groups_claim_sound :
    (o : Option PyValue) (gs : List String) → groups_claim o ≡ ok gs → IsGroups o gs
groups_claim_sound none gs h = missing refl (cc)
groups_claim_sound (some (list items)) gs h = inline items refl (string_items_sound items gs h)
groups_claim_sound (some v) gs h = cc

hasgroups_sound : (o : Option PyValue) → hasgroups_overage o ≡ ok true → o ≡ some (bool true)
hasgroups_sound (some (bool true)) h = refl
hasgroups_sound o h = cc

names_groups_sound :
    (o : Option PyValue) → names_groups o ≡ ok true → (s : String) × (o ≡ some (str s))
names_groups_sound (some (str s)) h = (s, refl)
names_groups_sound o h = cc

claim_names_sound :
    (o : Option PyValue)
    → claim_names_overage o ≡ ok true
    → (names : Entries) × (o ≡ some (dict names))
      × (s : String) × (get "groups" names ≡ some (str s))
claim_names_sound (some (dict names)) h =
    let (s, e) = names_groups_sound (get "groups" names) h in (names, refl, s, e)
claim_names_sound o h = cc

-- the two overage tests, joined by `or`
either_flag :
    (x y : Result Bool) (b : Bool)
    → (x >>= λ a. y >>= λ c. ok (a || c)) ≡ ok b
    → b ≡ true
    → (x ≡ ok true) ⊎ (y ≡ ok true)
either_flag (ok true) y b h e = inl refl
either_flag (ok false) (ok true) b h e = inr refl
either_flag x y b h e = cc

has_group_overage_sound :
    (claims : Entries) (b : Bool) → has_group_overage claims ≡ ok b → (b ≡ true) ↔ IsOverage claims
unfolding has_group_overage
has_group_overage_sound claims b h = (λ e. marked (either_flag _ _ b h e), flagged)
  where
    marked :
        (hasgroups_overage (get "hasgroups" claims) ≡ ok true)
          ⊎ (claim_names_overage (get "_claim_names" claims) ≡ ok true)
        → IsOverage claims
    marked (inl e) = by_hasgroups (hasgroups_sound (get "hasgroups" claims) e)
    marked (inr e) =
        let (names, f, s, g) = claim_names_sound (get "_claim_names" claims) e in
        by_claim_names names s f g

    flagged : IsOverage claims → b ≡ true
    flagged (by_hasgroups e) = ground (arith, e)
    flagged (by_claim_names names source e f) = ground (arith, e, f)

optional_string_sound :
    (claims : Entries) (name : String) (r : Option String)
    → optional_string claims name ≡ ok r
    → IsOptionalText (get name claims) r
unfolding optional_string
optional_string_sound claims name r h = string_claim_sound (get name claims) r h

group_claims_sound :
    (claims : Entries) (gs : List String)
    → group_claims claims ≡ ok gs
    → IsGroups (get "groups" claims) gs
unfolding group_claims
group_claims_sound claims gs h = groups_claim_sound (get "groups" claims) gs h

pub retained_claims-IsRetained :
    (claims : Entries) (c : ValidatedOidcClaims)
    → retained_claims claims ≡ ok c
    → IsRetained claims c
unfolding retained_claims
retained_claims-IsRetained claims c h = elim (Result-cases (optional_string claims "name")) [
  | inr (e, bad) ↦ cc (rw bad at h)
  | inl (full, read) ↦ record {
    tenant = optional_string_sound claims "tid" c.tenant_id (ground arith);
    user = optional_string_sound claims "oid" c.user_object_id (ground arith);
    name = (full, optional_string_sound claims "name" full read, ground arith);
    groups = group_claims_sound claims c.group_object_ids (ground arith);
    overage = has_group_overage_sound claims c.group_overage (ground arith);
  }
]

string_items-raise :
    (items : Items) (e : PyException) → string_items items ≡ raise e → e ≡ oidc_invalid_response
unfolding string_items
string_items-raise nil e h = cc
string_items-raise (cons (str s) items) e h = elim (Result-cases (string_items items)) [
  | inl (rest, good) ↦ cc (rw good at h)
  | inr (x, bad) ↦ let same : x ≡ e = cc (rw bad at h) in sym same ∙ string_items-raise items x bad
]
string_items-raise (cons v items) e h = cc

optional_string-raise :
    (claims : Entries) (name : String) (e : PyException)
    → optional_string claims name ≡ raise e
    → e ≡ oidc_invalid_response
unfolding optional_string
optional_string-raise claims name e h = go (get name claims) h
  where
    go : (o : Option PyValue) → string_claim o ≡ raise e → e ≡ oidc_invalid_response
    go none k = cc
    go (some (str s)) k = cc
    go (some v) k = cc

group_claims-raise :
    (claims : Entries) (e : PyException) → group_claims claims ≡ raise e → e ≡ oidc_invalid_response
unfolding group_claims
group_claims-raise claims e h = go (get "groups" claims) h
  where
    go : (o : Option PyValue) → groups_claim o ≡ raise e → e ≡ oidc_invalid_response
    go none k = cc
    go (some (list items)) k = string_items-raise items e k
    go (some v) k = cc

has_group_overage-raise :
    (claims : Entries) (e : PyException)
    → has_group_overage claims ≡ raise e
    → e ≡ oidc_invalid_response
unfolding has_group_overage
has_group_overage-raise claims e h = ground arith

-- Keeping the claims fails in one way.
pub retained_claims-raise :
    (claims : Entries) (e : PyException)
    → retained_claims claims ≡ raise e
    → e ≡ oidc_invalid_response
unfolding retained_claims
retained_claims-raise claims e h = elim (>>=-eq-raise (optional_string claims "name") _ h) [
  | inl bad ↦ optional_string-raise claims "name" e bad
  | inr (n, _, h) ↦ elim (>>=-eq-raise (optional_string claims "tid") _ h) [
    | inl bad ↦ optional_string-raise claims "tid" e bad
    | inr (t, _, h) ↦ elim (>>=-eq-raise (optional_string claims "oid") _ h) [
      | inl bad ↦ optional_string-raise claims "oid" e bad
      | inr (u, _, h) ↦ elim (>>=-eq-raise (group_claims claims) _ h) [
        | inl bad ↦ group_claims-raise claims e bad
        | inr (g, _, h) ↦ elim (>>=-eq-raise (has_group_overage claims) _ h) [
          | inl bad ↦ has_group_overage-raise claims e bad
          | inr (o, _, h) ↦ cc
        ]
      ]
    ]
  ]
]
