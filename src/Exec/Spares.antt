-- ===== src/Exec/Spares.antt =====
-- What a method keeps true of the state however it ends, and what holds of what it returns.
use pullfrog_azure.Prelude.{◌≡◌, refl, Bool, true, false, if◌then◌else◌}
use pullfrog_azure.Auth.Domain.{PyException}
use pullfrog_azure.Exec.{Exec, return, throw, answer, after, ◌>>=◌}
use pullfrog_azure.Outcome.{Result, ok, raise}

module _ {S : Type 0} (Holds : S → Type 0) where
  pub record Spares {A : Type 0} (m : Exec S A) (Post : A → Type 0) : Type 0 where
    pub from : (s : S) → Holds s → Holds (m s).1 × ((a : A) → (m s).0 ≡ ok a → Post a)

  module _ {A : Type 0} (Post : A → Type 0) where
    pub Spares-return : (a : A) → Post a → Spares (return a) Post
    Spares-return a q = record { from = λ s h. (h, λ b e. back b e) }
      where
        back : (b : A) → ◌≡◌ {A = Result A} (ok a) (ok b) → Post b
        back b e = let same : a ≡ b = cc in rw same at q

    pub Spares-throw : (e : PyException) → Spares (throw {A = A} e) Post
    Spares-throw e = record { from = λ s h. (h, λ b k. cc) }

    pub Spares-if :
        (b : Bool) (m n : Exec S A)
        → Spares m Post
        → Spares n Post
        → Spares (if b then m else n) Post
    Spares-if true m n sm sn = sm
    Spares-if false m n sm sn = sn

  -- a method that does not touch the state
  pub Spares-same : {A : Type 0} (m : Exec S A) → ((s : S) → (m s).1 ≡ s) → Spares m (λ a. Unit)
  Spares-same m same = record { from = λ s h. (rw (same s) h, λ a e. tt) }

  -- a method of whose results nothing is said
  pub Spares-state :
      {A : Type 0} (m : Exec S A) → ((s : S) → Holds s → Holds (m s).1) → Spares m (λ a. Unit)
  Spares-state m kept = record { from = λ s h. (kept s h, λ a e. tt) }

  pub Spares-bind :
      {A B : Type 0} (P : A → Type 0) (Q : B → Type 0) (m : Exec S A) (f : A → Exec S B)
      → Spares m P
      → ((a : A) → P a → Spares (f a) Q)
      → Spares (m >>= f) Q
  Spares-bind {A} {B} P Q m f sm sf = record { from = λ s h. go (m s) (sm.from s h) }
    where
      go :
          (x : Result A × S)
          → Holds x.1 × ((a : A) → x.0 ≡ ok a → P a)
          → Holds (after x f).1 × ((b : B) → (after x f).0 ≡ ok b → Q b)
      go (ok a, u) (h, post) = (sf a (post a refl)).from u h
      go (raise e, u) (h, post) = (h, λ b k. cc)

  pub Spares-answer :
      {A B : Type 0} {P : A → Type 0} (f : Result A → Result B) (m : Exec S A)
      → Spares m P
      → Spares (answer f m) (λ b. Unit)
  Spares-answer f m sm = record { from = λ s h. ((sm.from s h).0, λ b e. tt) }
