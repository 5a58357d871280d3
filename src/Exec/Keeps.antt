-- ===== src/Exec/Keeps.antt =====
-- What a method leaves as it was, however it ends.
use pullfrog_azure.Prelude.{◌≡◌, refl, sym, ap, ◌∙◌, inl, inr, Bool, true, false, if◌then◌else◌}
use pullfrog_azure.Auth.Domain.{PyException}
use pullfrog_azure.Exec.{Exec, return, throw, lift, after, ◌>>=◌, >>=-eq-raise, after_parts}
use pullfrog_azure.Outcome.{Result, ok, raise}

-- The view of the state is the same after the method, whether it returns or raises.
pub record Keeps {ℓ} {S A V : Type ℓ} (view : S → V) (m : Exec S A) : Type ℓ where
  pub at : (s : S) → view (m s).1 ≡ view s

module _ {ℓ} {S A V : Type ℓ} {view : S → V} where
  pub Keeps-return : (a : A) → Keeps view (return a)
  Keeps-return a = record { at = λ s. refl }

  pub Keeps-throw : (e : PyException) → Keeps view (throw {A = A} e)
  Keeps-throw e = record { at = λ s. refl }

  pub Keeps-lift : (r : Result A) → Keeps view (lift r)
  Keeps-lift r = record { at = λ s. refl }

  pub Keeps-if :
      (b : Bool) (m n : Exec S A) → Keeps view m → Keeps view n → Keeps view (if b then m else n)
  Keeps-if true m n km kn = km
  Keeps-if false m n km kn = kn

module _ {ℓ} {S A B V : Type ℓ} {view : S → V} where
  pub Keeps-bind :
      (m : Exec S A) (f : A → Exec S B)
      → Keeps view m
      → ((a : A) → Keeps view (f a))
      → Keeps view (m >>= f)
  Keeps-bind m f km kf = record { at = λ s. go (m s) (km.at s) }
    where
      go : {s : S} (x : Result A × S) → view x.1 ≡ view s → view (after x f).1 ≡ view s
      go (ok a, u) e = (kf a).at u ∙ e
      go (raise x, u) e = e

-- The view of the state is the same after the method if it raises.
pub record KeepsRaising {ℓ} {S A V : Type ℓ} (view : S → V) (m : Exec S A) : Type ℓ where
  pub raised : (s t : S) (e : PyException) → m s ≡ (raise e, t) → view t ≡ view s

module _ {ℓ} {S A V : Type ℓ} {view : S → V} where
  pub Keeps-raising : (m : Exec S A) → Keeps view m → KeepsRaising view m
  Keeps-raising m k = record { raised = λ s t e h. sym (ap view (after_parts h).1) ∙ k.at s }

module _ {ℓ} {S A B V : Type ℓ} {view : S → V} where
  pub KeepsRaising-bind :
      (m : Exec S A) (f : A → Exec S B)
      → Keeps view m
      → ((a : A) → KeepsRaising view (f a))
      → KeepsRaising view (m >>= f)
  KeepsRaising-bind m f km kf = record {
    raised = λ s t e h. elim (>>=-eq-raise m f h) [
      | inl bad ↦ (Keeps-raising m km).raised s t e bad
      | inr (a, u, good, later) ↦
          (kf a).raised u t e later ∙ sym (ap view (after_parts good).1) ∙ km.at s
    ];
  }

  -- A value that is returned after a call that may raise.
  pub KeepsRaising-return :
      (m : Exec S A) (r : A → B) → KeepsRaising view m → KeepsRaising view (m >>= λ a. return (r a))
  KeepsRaising-return m r km = record {
    raised = λ s t e h. elim (>>=-eq-raise m (λ a. return (r a)) h) [
      | inl bad ↦ km.raised s t e bad
      | inr (a, u, good, later) ↦ cc (after_parts later).0
    ];
  }
