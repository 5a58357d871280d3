-- ===== src/Exec.antt =====
-- Methods of the repositories and the service, over the committed tables. A commit outlasts an
-- exception that follows it, so that both results carry the tables.
pub mod Keeps
pub mod Spares
use pullfrog_azure.Prelude.{◌≡◌, refl, ap, ◌⊎◌, inl, inr}
use pullfrog_azure.Auth.Domain.{PyException}
use pullfrog_azure.Outcome.{Result, ok, raise}

abbrev pub Exec {ℓ} : (Tables Value : Type ℓ) → Type ℓ
Exec Tables Value = (tables : Tables) → Result Value × Tables

module _ {ℓ} {S A : Type ℓ} where
  -- `return a`
  abbrev pub return : A → Exec S A
  return a s = (ok a, s)

  -- `raise e`
  abbrev pub throw : PyException → Exec S A
  throw e s = (raise e, s)

  -- a call that does not touch the database
  abbrev pub lift : Result A → Exec S A
  lift r s = (r, s)

module _ {ℓ} {S A B : Type ℓ} where
  abbrev pub after : Result A × S → (A → Exec S B) → Result B × S
  after (ok a, s) f = f a s
  after (raise e, s) f = (raise e, s)

  infixl 5 ◌>>=◌ ◌>>◌
  abbrev pub ◌>>=◌ : Exec S A → (A → Exec S B) → Exec S B
  ◌>>=◌ m f s = after (m s) f

  abbrev pub ◌>>◌ : Exec S A → Exec S B → Exec S B
  first >> rest = first >>= λ done. rest

module _ {ℓ} {S A B : Type ℓ} where
  -- a method whose result, returned or raised, is turned into another
  abbrev pub answer : (Result A → Result B) → Exec S A → Exec S B
  answer f m s = (f (m s).0, (m s).1)

-- Inversion of a method, by its first call.
module _ {ℓ} {S A B : Type ℓ} where
  -- The call returned, and the rest went on from there.
  pub data Runs (m : Exec S A) (f : A → Exec S B) (b : B) (s t : S) : Type ℓ where
    runs : (a : A) (u : S) → m s ≡ (ok a, u) → f a u ≡ (ok b, t) → Runs m f b s t

  after-eq-raise :
      (x : Result A × S) (f : A → Exec S B) {e : PyException} {t : S}
      → after x f ≡ (raise e, t)
      → (x ≡ (raise e, t)) ⊎ ((a : A) × (u : S) × (x ≡ (ok a, u)) × (f a u ≡ (raise e, t)))
  after-eq-raise (ok a, u) f h = inr (a, u, refl, h)
  after-eq-raise (raise x, u) f {e} {t} h =
      inl (thrown (ap (λ (p : Result B × S). p.0) h) (ap (λ (p : Result B × S). p.1) h))
    where
      thrown :
          ◌≡◌ {A = Result B} (raise x) (raise e)
          → u ≡ t
          → ◌≡◌ {A = Result A × S} (raise x, u) (raise e, t)
      thrown p q = let same : x ≡ e = cc in λ i. (raise (same i), q i)

  pub >>=-eq-ok :
      (m : Exec S A) (f : A → Exec S B) {b : B} {s t : S} → (m >>= f) s ≡ (ok b, t) → Runs m f b s t
  >>=-eq-ok m f {b} {s} {t} h = go (m s) refl h
    where
      go : (x : Result A × S) → m s ≡ x → after x f ≡ (ok b, t) → Runs m f b s t
      go (ok a, u) e k = runs a u e k
      go (raise x, u) e k = cc (ap (λ (p : Result B × S). p.0) k)

  pub >>=-eq-raise :
      (m : Exec S A) (f : A → Exec S B) {e : PyException} {s t : S}
      → (m >>= f) s ≡ (raise e, t)
      → (m s ≡ (raise e, t)) ⊎ ((a : A) × (u : S) × (m s ≡ (ok a, u)) × (f a u ≡ (raise e, t)))
  >>=-eq-raise m f {s} h = after-eq-raise (m s) f h

  -- a chain whose first call returned
  pub >>=-of-ok :
      (m : Exec S A) (f : A → Exec S B) {a : A} {s u : S} → m s ≡ (ok a, u) → (m >>= f) s ≡ f a u
  >>=-of-ok m f h = ap (λ x. after x f) h

  pub >>=-of-raise :
      (m : Exec S A) (f : A → Exec S B) {e : PyException} {s u : S}
      → m s ≡ (raise e, u)
      → (m >>= f) s ≡ (raise e, u)
  >>=-of-raise m f h = ap (λ x. after x f) h

  -- a chain whose first call raised
  pub after-of-raise :
      (x : Result A × S) (f : A → Exec S B) {e : PyException}
      → x.0 ≡ raise e
      → (after x f).0 ≡ raise e
  after-of-raise (ok a, u) f h = cc
  after-of-raise (raise d, u) f {e} h = let same : d ≡ e = cc in rw same

  -- a method that returns a value after a call
  pub after-return :
      (x : Result A × S) (r : B) {b : B} {t : S}
      → after x (λ _. return r) ≡ (ok b, t)
      → (a : A) × (x ≡ (ok a, t)) × (b ≡ r)
  after-return (ok a, u) r h =
      let state = ap (λ (p : Result B × S). p.1) h in
      let value = ap (λ (p : Result B × S). p.0) h in (a, λ i. (ok a, state i), cc)
  after-return (raise e, u) r h = cc (ap (λ (p : Result B × S). p.0) h)

module _ {ℓ} {S A : Type ℓ} where
  -- the two parts of what a method comes back with
  pub after_parts :
      {x y : Result A} {s t : S} → ◌≡◌ {A = Result A × S} (x, s) (y, t) → (x ≡ y) × (s ≡ t)
  after_parts h = (ap (λ (p : Result A × S). p.0) h, ap (λ (p : Result A × S). p.1) h)
