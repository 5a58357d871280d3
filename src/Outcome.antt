-- ===== src/Outcome.antt =====
-- Chains of calls that may raise: the rest runs only if the call returns.
use pullfrog_azure.Prelude.{◌≡◌, refl, ◌⊎◌, inl, inr, Bool, true, false}
use pullfrog_azure.Auth.Domain.{PyException}
pub use pullfrog_azure.Auth.Domain.{Result, ok, raise}

module _ {ℓ κ} {A : Type ℓ} {B : Type κ} where
  infixl 5 ◌>>=◌
  abbrev pub ◌>>=◌ : (call : Result A) (rest : A → Result B) → Result B
  raise thrown >>= rest = raise thrown
  ok returned >>= rest = rest returned

  -- Inversion of a chain, by its first call.
  pub >>=-eq-raise :
      (call : Result A) (rest : A → Result B) {thrown : PyException}
      → (call >>= rest) ≡ raise thrown
      → (call ≡ raise thrown)
        ⊎ ((returned : A) × (call ≡ ok returned) × (rest returned ≡ raise thrown))
  >>=-eq-raise (raise x) rest chained = inl (cc)
  >>=-eq-raise (ok returned) rest chained = inr (returned, refl, chained)

  pub >>=-eq-ok :
      (call : Result A) (rest : A → Result B) {last : B}
      → (call >>= rest) ≡ ok last
      → (returned : A) × (call ≡ ok returned) × (rest returned ≡ ok last)
  >>=-eq-ok (raise x) rest chained = cc
  >>=-eq-ok (ok returned) rest chained = (returned, refl, chained)

module _ {ℓ κ} {A : Type ℓ} {B : Type κ} where
  -- a chain whose first call returned
  pub >>=-of-ok :
      (call : Result A) (rest : A → Result B) {returned : A}
      → call ≡ ok returned
      → (call >>= rest) ≡ rest returned
  >>=-of-ok call rest h = rw h

module _ {ℓ} {B : Type ℓ} where
  infixl 5 ◌>>◌
  abbrev pub ◌>>◌ : (test : Result (Unit {0})) (rest : Result B) → Result B
  test >> rest = test >>= λ passed. rest

-- `if not test: raise thrown`
abbrev pub guard : (test : Bool) (thrown : PyException) → Result (Unit {0})
guard false thrown = raise thrown
guard true thrown = ok tt

pub Result-cases {ℓ} :
    {A : Type ℓ} (call : Result A)
    → ((returned : A) × (call ≡ ok returned)) ⊎ ((thrown : PyException) × (call ≡ raise thrown))
Result-cases (raise thrown) = inr (thrown, refl)
Result-cases (ok returned) = inl (returned, refl)

pub ok_inj {ℓ} : {A : Type ℓ} {a b : A} → ok a ≡ ok b → a ≡ b
ok_inj e = cc
