-- ===== src/Prelude/Sort.antt =====
-- `sorted(xs, key=key)` and `ORDER BY key` over a key that is a number: a stable insertion sort.
use Prim.Native.Nat.{ℕ, zero, suc, ◌≤◌}
use mathlib.Core.Path.{◌≡◌, refl}
use mathlib.Core.Bool.{true, false}
use mathlib.Core.Logic.{◌⊎◌, inl, inr}
use mathlib.Core.List.{List, [], ◌∷◌}
use native.Mathlib.Omega.{arith}
use pullfrog_azure.Prelude.Tests.{leb, leb→le, Bool-cases, if◌then◌else◌}
use pullfrog_azure.Prelude.Lists.{In, here, there, In-cons, take}

module _ {ℓ} {A : Type ℓ} (key : A → ℕ) where
  unfoldable pub insert_by : A → List A → List A
  insert_by x [] = x ∷ []
  insert_by x (y ∷ ys) =
      let later = insert_by x ys in if leb (key x) (key y) then x ∷ y ∷ ys else y ∷ later

  unfoldable pub sort_by : List A → List A
  unfolding insert_by
  sort_by [] = []
  sort_by (x ∷ xs) = insert_by x (sort_by xs)

  -- every element is at most those behind it
  abbrev pub IsSorted : List A → Type ℓ
  IsSorted [] = Unit
  IsSorted (x ∷ xs) = ((y : A) → In y xs → key x ≤ key y) × IsSorted xs

  In-insert_by : (a x : A) (xs : List A) → In a (insert_by x xs) → (x ≡ a) ⊎ In a xs
  unfolding insert_by
  In-insert_by a x [] h = In-cons h
  In-insert_by a x (y ∷ ys) h = elim (Bool-cases (leb (key x) (key y))) [
    | inl first ↦ In-cons (rw first at h)
    | inr later ↦ deeper (In-cons (rw later at h)) (In-insert_by a x ys)
  ]
    where
      deeper :
          (y ≡ a) ⊎ In a (insert_by x ys)
          → (In a (insert_by x ys) → (x ≡ a) ⊎ In a ys)
          → (x ≡ a) ⊎ In a (y ∷ ys)
      deeper (inl e) ih = inr (here e)
      deeper (inr r) ih = elim (ih r) [ inl e ↦ inl e | inr s ↦ inr (there s) ]

  insert_by-In_self : (x : A) (xs : List A) → In x (insert_by x xs)
  unfolding insert_by
  insert_by-In_self x [] = here refl
  insert_by-In_self x (y ∷ ys) = elim (Bool-cases (leb (key x) (key y))) [
    | inl first ↦ rw first (here refl)
    | inr later ↦ rw later (there (insert_by-In_self x ys))
  ]

  insert_by-In : (a x : A) {xs : List A} → In a xs → In a (insert_by x xs)
  unfolding insert_by
  insert_by-In a x (here {x = y} {xs = ys} e) = elim (Bool-cases (leb (key x) (key y))) [
    | inl first ↦ rw first (there (here e))
    | inr later ↦ rw later (here e)
  ]
  insert_by-In a x (there {x = y} {xs = ys} h) = elim (Bool-cases (leb (key x) (key y))) [
    | inl first ↦ rw first (there (there h))
    | inr later ↦ rw later (there (insert_by-In a x h))
  ]

  insert_by-IsSorted : (x : A) (xs : List A) → IsSorted xs → IsSorted (insert_by x xs)
  unfolding insert_by
  insert_by-IsSorted x [] h = ((λ y i. elim i [ ]), tt)
  insert_by-IsSorted x (y ∷ ys) (least, h) = elim (Bool-cases (leb (key x) (key y))) [
    | inl first ↦ rw first ((λ z i. ahead z first (In-cons i)), (least, h))
    | inr later ↦
        rw later ((λ z i. behind z later (In-insert_by z x ys i)), insert_by-IsSorted x ys h)
  ]
    where
      ahead : (z : A) → leb (key x) (key y) ≡ true → (y ≡ z) ⊎ In z ys → key x ≤ key z
      ahead z first (inl e) = rw (← e) (leb→le (key x) (key y) first)
      ahead z first (inr i) = omega (arith, leb→le (key x) (key y) first, least z i)

      behind : (z : A) → leb (key x) (key y) ≡ false → (x ≡ z) ⊎ In z ys → key y ≤ key z
      behind z later (inl e) = rw (← e) (ground arith)
      behind z later (inr i) = least z i

  pub sort_by-IsSorted : (xs : List A) → IsSorted (sort_by xs)
  unfolding sort_by
  sort_by-IsSorted [] = tt
  sort_by-IsSorted (x ∷ xs) = insert_by-IsSorted x (sort_by xs) (sort_by-IsSorted xs)

  -- The sorted list has the elements of the list.
  pub In-sort_by : (a : A) (xs : List A) → In a (sort_by xs) → In a xs
  unfolding sort_by
  In-sort_by a [] h = h
  In-sort_by a (x ∷ xs) h = back (In-insert_by a x (sort_by xs) h) (In-sort_by a xs)
    where
      back : (x ≡ a) ⊎ In a (sort_by xs) → (In a (sort_by xs) → In a xs) → In a (x ∷ xs)
      back (inl e) ih = here e
      back (inr i) ih = there (ih i)

  pub sort_by-In : (a : A) {xs : List A} → In a xs → In a (sort_by xs)
  unfolding sort_by
  sort_by-In a (here {x} {xs} e) = rw (← e) (insert_by-In_self x (sort_by xs))
  sort_by-In a (there {x} {xs} h) = insert_by-In a x (sort_by-In a h)

  -- Of a sorted list, what is cut off is not below what is taken.
  pub In-take-sorted :
      (n : ℕ) (xs : List A) {x y : A}
      → IsSorted xs
      → In x (take n xs)
      → In y xs
      → In y (take n xs) ⊎ (key x ≤ key y)
  In-take-sorted zero xs s i j = elim i [ ]
  In-take-sorted (suc n) [] s i j = elim i [ ]
  In-take-sorted (suc n) (z ∷ zs) s i (here e) = inl (here e)
  In-take-sorted (suc n) (z ∷ zs) {y} s (here e) (there j) = inr (rw (← e) (s.0 y j))
  In-take-sorted (suc n) (z ∷ zs) s (there i) (there j) = elim (In-take-sorted n zs s.1 i j) [
    | inl k ↦ inl (there k)
    | inr h ↦ inr h
  ]
