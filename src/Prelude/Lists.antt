-- ===== src/Prelude/Lists.antt =====
-- Lists as Python uses them: tests over all elements, membership by a test, comprehensions.
use Prim.Native.Nat.{ℕ, zero, suc, ◌≤◌}
use mathlib.Core.Path.{◌≡◌, refl, ap}
use mathlib.Core.Logic.{◌⊎◌, inl, inr}
use mathlib.Core.Bool.{Bool, true, false, ◌&&◌, ◌||◌}
use mathlib.Core.List.{List, [], ◌∷◌, ◌++◌, map}
use mathlib.Core.Option.{Option, none, some}
use native.Mathlib.Omega.{arith}
use pullfrog_azure.Prelude.Tests.{if◌then◌else◌, Bool-cases}

module _ {ℓ} {A : Type ℓ} where
  abbrev pub length : List A → ℕ
  length [] = 0
  length (x ∷ xs) = suc (length xs)

  abbrev pub take : ℕ → List A → List A
  take zero xs = []
  take (suc n) [] = []
  take (suc n) (x ∷ xs) = x ∷ take n xs

  -- `any(p(x) for x in xs)`
  unfoldable pub any : (A → Bool) → List A → Bool
  any p [] = false
  any p (x ∷ xs) = p x || any p xs

  -- `all(p(x) for x in xs)`
  unfoldable pub all : (A → Bool) → List A → Bool
  all p [] = true
  all p (x ∷ xs) = p x && all p xs

  -- `[x for x in xs if p(x)]`
  unfoldable pub keep : (A → Bool) → List A → List A
  keep p [] = []
  keep p (x ∷ xs) = let rest = keep p xs in if p x then x ∷ rest else rest

  -- the first element that passes the test
  unfoldable pub find : (A → Bool) → List A → Option A
  find p [] = none
  find p (x ∷ xs) = if p x then some x else find p xs

  -- An element of a list, with its position left open.
  pub data In (a : A) : List A → Type ℓ where
    here : {x : A} {xs : List A} → x ≡ a → In a (x ∷ xs)
    there : {x : A} {xs : List A} → In a xs → In a (x ∷ xs)

module _ {ℓ} {A : Type ℓ} where
  pub In-cons : {a x : A} {xs : List A} → In a (x ∷ xs) → (x ≡ a) ⊎ In a xs
  In-cons (here e) = inl e
  In-cons (there h) = inr h

  pub any-In : (p : A → Bool) {a : A} {xs : List A} → In a xs → p a ≡ true → any p xs ≡ true
  unfolding any
  any-In p (here e) h = rw (e, h)
  any-In p (there i) h = ground (arith, any-In p i h)

  pub any-true : (p : A → Bool) (xs : List A) → any p xs ≡ true → (a : A) × In a xs × (p a ≡ true)
  unfolding any
  any-true p [] h = cc
  any-true p (x ∷ xs) h = elim (Bool-cases (p x)) [
    | inl here_true ↦ (x, here refl, here_true)
    | inr here_false ↦ let (a, i, q) = any-true p xs (rw here_false at h) in (a, there i, q)
  ]

module _ {ℓ} {A : Type ℓ} where
  pub In-take : (n : ℕ) {a : A} (xs : List A) → In a (take n xs) → In a xs
  In-take zero xs h = elim h [ ]
  In-take (suc n) [] h = h
  In-take (suc n) (x ∷ xs) h = elim (In-cons h) [ inl e ↦ here e | inr i ↦ there (In-take n xs i) ]

  pub length-take-le : (n : ℕ) (xs : List A) → length (take n xs) ≤ n
  length-take-le zero xs = omega arith
  length-take-le (suc n) [] = omega arith
  length-take-le (suc n) (x ∷ xs) = omega (arith, length-take-le n xs)

  pub In-append : {a : A} (xs ys : List A) → In a (xs ++ ys) → In a xs ⊎ In a ys
  In-append [] ys h = inr h
  In-append (x ∷ xs) ys h = elim (In-cons h) [
    | inl e ↦ inl (here e)
    | inr i ↦ elim (In-append xs ys i) [ inl j ↦ inl (there j) | inr j ↦ inr j ]
  ]

  pub append-In_left : {a : A} {xs : List A} (ys : List A) → In a xs → In a (xs ++ ys)
  append-In_left ys (here e) = here e
  append-In_left ys (there i) = there (append-In_left ys i)

  pub append-In_right : {a : A} (xs : List A) {ys : List A} → In a ys → In a (xs ++ ys)
  append-In_right [] i = i
  append-In_right (x ∷ xs) i = there (append-In_right xs i)

  pub In-keep : (p : A → Bool) {a : A} (xs : List A) → In a (keep p xs) → In a xs × (p a ≡ true)
  unfolding keep
  In-keep p [] h = elim h [ ]
  In-keep p {a} (x ∷ xs) h = elim (Bool-cases (p x)) [
    | inr drop ↦ let (i, q) = In-keep p xs (rw drop at h) in (there i, q)
    | inl pass ↦ first pass (In-cons (rw pass at h)) (In-keep p xs)
  ]
    where
      first :
          p x ≡ true
          → (x ≡ a) ⊎ In a (keep p xs)
          → (In a (keep p xs) → In a xs × (p a ≡ true))
          → In a (x ∷ xs) × (p a ≡ true)
      first pass (inl e) ih = (here e, rw (← e) pass)
      first pass (inr i) ih = let (j, q) = ih i in (there j, q)

  pub keep-In : (p : A → Bool) {a : A} {xs : List A} → In a xs → p a ≡ true → In a (keep p xs)
  unfolding keep
  keep-In p (here {x} {xs} e) q = let pass : p x ≡ true = rw e q in rw pass (here e)
  keep-In p (there {x} {xs} i) q = elim (Bool-cases (p x)) [
    | inl pass ↦ rw pass (there (keep-In p i q))
    | inr drop ↦ rw drop (keep-In p i q)
  ]

  pub length-keep : (p : A → Bool) (xs : List A) → length (keep p xs) ≤ length xs
  unfolding keep
  length-keep p [] = omega arith
  length-keep p (x ∷ xs) = ground (arith, length-keep p xs)

module _ {ℓ κ} {A : Type ℓ} {B : Type κ} where
  pub In-map : (f : A → B) {b : B} (xs : List A) → In b (map f xs) → (a : A) × In a xs × (f a ≡ b)
  In-map f [] h = elim h [ ]
  In-map f (x ∷ xs) h = elim (In-cons h) [
    | inl e ↦ (x, here refl, e)
    | inr i ↦ let (a, j, e) = In-map f xs i in (a, there j, e)
  ]

  pub map-In : (f : A → B) {a : A} {xs : List A} → In a xs → In (f a) (map f xs)
  map-In f (here e) = here (ap f e)
  map-In f (there i) = there (map-In f i)

  pub length-map : (f : A → B) (xs : List A) → length (map f xs) ≡ length xs
  length-map f [] = refl
  length-map f (x ∷ xs) = ap suc (length-map f xs)
