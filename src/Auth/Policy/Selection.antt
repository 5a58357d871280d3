-- ===== src/Auth/Policy/Selection.antt =====
-- Which identity `select_authorizer` selects, described without the order of its search.
use pullfrog_azure.Prelude.{
  ℕ, ◌≤◌, ◌≡◌, refl, ◌↔◌, ◌⊎◌, inl, inr, true, false, none, some, List, [], ◌∷◌, arith, sort_by, In,
  here, there, In-cons, IsSorted, sort_by-IsSorted, In-sort_by, sort_by-In, Bool-cases,
  Option-cases, sym, ◌∙◌, ap, if◌then◌else◌,
}
use pullfrog_azure.Auth.Domain.{AdminIdentityRef, user, group}
use pullfrog_azure.Auth.Policy.{contains_ref, first_group, select_authorizer}

abbrev pub user_ref : ℕ → ℕ → AdminIdentityRef
user_ref tenant_id object_id = record { tenant_id = tenant_id; kind = user; object_id = object_id }

abbrev pub group_ref : ℕ → ℕ → AdminIdentityRef
group_ref tenant_id object_id = record {
  tenant_id = tenant_id;
  kind = group;
  object_id = object_id;
}

-- The identity that authorizes a user: the user's own reference where it is configured, and else
-- that of the least of the user's configured groups.
pub data IsAuthorizer (configured : List AdminIdentityRef) (t u : ℕ) (gs : List ℕ)
    : AdminIdentityRef → Type 0 where
  by_user :
      {r : AdminIdentityRef}
      → r ≡ user_ref t u
      → contains_ref configured (user_ref t u) ≡ true
      → IsAuthorizer configured t u gs r
  by_group :
      {r : AdminIdentityRef} (g : ℕ)
      → r ≡ group_ref t g
      → contains_ref configured (user_ref t u) ≡ false
      → In g gs
      → contains_ref configured (group_ref t g) ≡ true
      → ((k : ℕ) → In k gs → contains_ref configured (group_ref t k) ≡ true → g ≤ k)
      → IsAuthorizer configured t u gs r

pub IsAuthorizer-contains_ref :
    {configured : List AdminIdentityRef} {t u : ℕ} {gs : List ℕ} {r : AdminIdentityRef}
    → IsAuthorizer configured t u gs r
    → (contains_ref configured r ≡ true) × (r.tenant_id ≡ t)
IsAuthorizer-contains_ref (by_user e c) = rw e (c, refl)
IsAuthorizer-contains_ref (by_group g e _ _ c _) = rw e (c, refl)

module _ (configured : List AdminIdentityRef) (t : ℕ) where
  first_group-eq-none :
      (gs : List ℕ) (k : ℕ)
      → first_group configured t gs ≡ none
      → In k gs
      → contains_ref configured (group_ref t k) ≡ false
  unfolding first_group
  first_group-eq-none [] k h i = elim i [ ]
  first_group-eq-none (g ∷ gs) k h (here e) = ground arith
  first_group-eq-none (g ∷ gs) k h (there i) = first_group-eq-none gs k (ground arith) i

  first_group-eq-some :
      (gs : List ℕ) (r : AdminIdentityRef)
      → IsSorted (λ g. g) gs
      → first_group configured t gs ≡ some r
      → (g : ℕ) × (r ≡ group_ref t g)
        × In g gs
        × (contains_ref configured (group_ref t g) ≡ true)
        × ((k : ℕ) → In k gs → contains_ref configured (group_ref t k) ≡ true → g ≤ k)
  unfolding first_group
  first_group-eq-some [] r s h = cc
  first_group-eq-some (g ∷ gs) r (least, s) h =
      elim (Bool-cases (contains_ref configured (group_ref t g))) [
        | inl hit ↦ (g, ground arith, here refl, hit, λ k i c. ahead k (In-cons i))
        | inr miss ↦ later miss (first_group-eq-some gs r s (ground arith))
      ]
    where
      ahead : (k : ℕ) → (g ≡ k) ⊎ In k gs → g ≤ k
      ahead k (inl e) = omega arith
      ahead k (inr i) = least k i

      past :
          contains_ref configured (group_ref t g) ≡ false
          → (m k : ℕ) → ((j : ℕ) → In j gs → contains_ref configured (group_ref t j) ≡ true → m ≤ j)
          → (g ≡ k) ⊎ In k gs
          → contains_ref configured (group_ref t k) ≡ true
          → m ≤ k
      past miss m k f (inl e) c = cc (ap (λ n. contains_ref configured (group_ref t n)) e)
      past miss m k f (inr i) c = f k i c

      later :
          contains_ref configured (group_ref t g) ≡ false
          → (m : ℕ) × (r ≡ group_ref t m)
            × In m gs
            × (contains_ref configured (group_ref t m) ≡ true)
            × ((j : ℕ) → In j gs → contains_ref configured (group_ref t j) ≡ true → m ≤ j)
          → (m : ℕ) × (r ≡ group_ref t m)
            × In m (g ∷ gs)
            × (contains_ref configured (group_ref t m) ≡ true)
            × ((j : ℕ) → In j (g ∷ gs) → contains_ref configured (group_ref t j) ≡ true → m ≤ j)
      later miss (m, e, i, c, f) = (m, e, there i, c, λ k j d. past miss m k f (In-cons j) d)

module _ (configured : List AdminIdentityRef) (t u : ℕ) (gs : List ℕ) where
  select_authorizer-IsAuthorizer :
      (r : AdminIdentityRef)
      → select_authorizer t u gs configured ≡ some r
      → IsAuthorizer configured t u gs r
  unfolding select_authorizer
  select_authorizer-IsAuthorizer r h = elim (Bool-cases (contains_ref configured (user_ref t u))) [
    | inl own ↦ by_user (ground arith) own
    | inr other ↦
        let (g, e, i, c, f) =
          first_group-eq-some configured t (sort_by (λ g. g) gs) r (sort_by-IsSorted (λ g. g) gs)
            (ground arith) in
        by_group g e other (In-sort_by (λ g. g) g gs i) c (λ k j d. f k (sort_by-In (λ g. g) k j) d)
  ]

  select_authorizer-eq-none :
      select_authorizer t u gs configured ≡ none
      → (contains_ref configured (user_ref t u) ≡ false)
        × ((g : ℕ) → In g gs → contains_ref configured (group_ref t g) ≡ false)
  unfolding select_authorizer
  select_authorizer-eq-none h = elim (Bool-cases (contains_ref configured (user_ref t u))) [
    | inl own ↦ cc (rw own at h)
    | inr other ↦ (
      other,
      λ g i.
          first_group-eq-none configured t (sort_by (λ g. g) gs) g (ground arith)
            (sort_by-In (λ g. g) g i),
    )
  ]

  -- An authorizer is unique.
  IsAuthorizer-unique :
      {r s : AdminIdentityRef}
      → IsAuthorizer configured t u gs r
      → IsAuthorizer configured t u gs s
      → r ≡ s
  IsAuthorizer-unique (by_user e c) (by_user e' c') = e ∙ sym e'
  IsAuthorizer-unique (by_user e c) (by_group g e' o i c' f) = cc
  IsAuthorizer-unique (by_group g e o i c f) (by_user e' c') = cc
  IsAuthorizer-unique (by_group g e o i c f) (by_group g' e' o' i' c' f') =
      let same : g ≡ g' = omega (arith, f g' i' c', f' g i c) in e ∙ ap (group_ref t) same ∙ sym e'

  -- Where an identity authorizes, something is selected.
  IsAuthorizer-select_authorizer :
      (r : AdminIdentityRef)
      → IsAuthorizer configured t u gs r
      → select_authorizer t u gs configured ≡ some r
  IsAuthorizer-select_authorizer r a = elim (Option-cases (select_authorizer t u gs configured)) [
    | inl missing ↦ absurd (unselected a (select_authorizer-eq-none missing))
    | inr (s, found) ↦
        found ∙ ap some (IsAuthorizer-unique (select_authorizer-IsAuthorizer s found) a)
  ]
    where
      unselected :
          IsAuthorizer configured t u gs r
          → (contains_ref configured (user_ref t u) ≡ false)
            × ((g : ℕ) → In g gs → contains_ref configured (group_ref t g) ≡ false)
          → ⊥
      unselected (by_user e c) (o, h) = cc
      unselected (by_group g e o i c f) (_, h) = cc (h g i)

-- `select_authorizer` returns an identity exactly when that identity is the authorizer: the user's
-- own configured reference, and else the configured reference of the least of the user's groups.
pub select_authorizer-eq-some_iff :
    (configured : List AdminIdentityRef) (t u : ℕ) (gs : List ℕ) (r : AdminIdentityRef)
    → (select_authorizer t u gs configured ≡ some r) ↔ IsAuthorizer configured t u gs r
select_authorizer-eq-some_iff configured t u gs r = (
  select_authorizer-IsAuthorizer configured t u gs r,
  IsAuthorizer-select_authorizer configured t u gs r,
)

-- Two configurations agree on every identity that the user could be authorized by.
pub record SameCandidates (configured configured' : List AdminIdentityRef) (t u : ℕ)
    (gs gs' : List ℕ) : Type 0 where
  pub groups : (g : ℕ) → In g gs ↔ In g gs'
  pub own : contains_ref configured (user_ref t u) ≡ contains_ref configured' (user_ref t u)
  pub shared :
      (g : ℕ)
      → In g gs
      → contains_ref configured (group_ref t g) ≡ contains_ref configured' (group_ref t g)

module _ {configured configured' : List AdminIdentityRef} {t u : ℕ} {gs gs' : List ℕ} where
  SameCandidates-sym :
      SameCandidates configured configured' t u gs gs'
      → SameCandidates configured' configured t u gs' gs
  SameCandidates-sym s = record {
    groups = λ g. ((s.groups g).1, (s.groups g).0);
    own = sym s.own;
    shared = λ g i. sym (s.shared g ((s.groups g).1 i));
  }

  IsAuthorizer-mono :
      SameCandidates configured configured' t u gs gs'
      → {r : AdminIdentityRef} → IsAuthorizer configured t u gs r
      → IsAuthorizer configured' t u gs' r
  IsAuthorizer-mono s (by_user e c) = by_user e (sym s.own ∙ c)
  IsAuthorizer-mono s (by_group g e o i c f) =
      by_group g e (sym s.own ∙ o) ((s.groups g).0 i) (sym (s.shared g i) ∙ c)
        λ k j d. let i' = (s.groups k).1 j in f k i' (s.shared k i' ∙ d)

-- The selection depends on membership alone: lists of the same groups, in any order and with any
-- repetitions, and configurations that agree on the user and on those groups select the same.
pub select_authorizer-congr :
    (configured configured' : List AdminIdentityRef) (t u : ℕ) (gs gs' : List ℕ)
    → SameCandidates configured configured' t u gs gs'
    → select_authorizer t u gs configured ≡ select_authorizer t u gs' configured'
select_authorizer-congr configured configured' t u gs gs' s =
    elim (Option-cases (select_authorizer t u gs configured)) [
      | inr (r, found) ↦
          found
          ∙ sym (
              IsAuthorizer-select_authorizer configured' t u gs' r
                (IsAuthorizer-mono s (select_authorizer-IsAuthorizer configured t u gs r found)))
      | inl missing ↦ elim (Option-cases (select_authorizer t u gs' configured')) [
        | inl missing' ↦ missing ∙ sym missing'
        | inr (r, found) ↦
            IsAuthorizer-select_authorizer configured t u gs r (
              IsAuthorizer-mono (SameCandidates-sym s)
                (select_authorizer-IsAuthorizer configured' t u gs' r found))
            ∙ sym found
      ]
    ]

-- Without groups only the user's own reference counts.
pub select_authorizer-nil :
    (t u : ℕ) (configured : List AdminIdentityRef)
    → select_authorizer t u [] configured
      ≡ (if contains_ref configured (user_ref t u) then some (user_ref t u) else none)
unfolding select_authorizer sort_by
select_authorizer-nil t u configured = refl
