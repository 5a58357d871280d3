-- ===== src/Repositories/Table.antt =====
-- Selecting, deleting and updating the rows of a table by a column with distinct values.
use mathlib.Core.Option
use pullfrog_azure.Prelude.{
  ℕ, ◌≡◌, refl, ◌≢◌, Bool, not, Option, none, some, List, [], ◌∷◌, arith, ◌==◌, if◌then◌else◌, keep,
  any, length, ◌+◌, ◌≤◌, In, here, there, Bool-cases, inl, inr, sym, ap, ◌∙◌, map,
}

module _ {ℓ} {A : Type ℓ} (key : A → ℕ) where
  -- `SELECT … WHERE key = k`, of which `scalar` reads the first row
  unfoldable pub find_by : ℕ → List A → Option A
  find_by k [] = none
  find_by k (x ∷ xs) = if key x == k then some x else find_by k xs

  -- `DELETE … WHERE key = k`
  unfoldable pub delete_by : ℕ → List A → List A
  delete_by k xs = keep (λ x. not (key x == k)) xs

  -- `UPDATE … SET … WHERE key = k`
  unfoldable pub update_by : ℕ → (A → A) → List A → List A
  update_by k f xs = map (λ x. if key x == k then f x else x) xs

  -- no row has the value
  abbrev pub IsAbsent : ℕ → List A → Type 0
  IsAbsent k [] = Unit
  IsAbsent k (x ∷ xs) = (key x ≢ k) × IsAbsent k xs

  -- a unique constraint
  abbrev pub IsDistinct : List A → Type 0
  IsDistinct [] = Unit
  IsDistinct (x ∷ xs) = IsAbsent (key x) xs × IsDistinct xs

  pub find_by-eq-none : (k : ℕ) (xs : List A) → find_by k xs ≡ none → IsAbsent k xs
  unfolding find_by
  find_by-eq-none k [] h = tt
  find_by-eq-none k (x ∷ xs) h = ground (arith, find_by-eq-none k xs)

  pub IsAbsent-find_by : (k : ℕ) (xs : List A) → IsAbsent k xs → find_by k xs ≡ none
  unfolding find_by
  IsAbsent-find_by k [] h = refl
  IsAbsent-find_by k (x ∷ xs) h = ground (arith, IsAbsent-find_by k xs)

  pub find_by-key : (k : ℕ) (xs : List A) (x : A) → find_by k xs ≡ some x → key x ≡ k
  unfolding find_by
  find_by-key k [] y h = cc
  find_by-key k (x ∷ xs) y h = elim (Bool-cases (key x == k)) [
    | inl hit ↦ ground (arith, ap key (some_inj x y (rw hit at h)))
    | inr miss ↦ find_by-key k xs y (rw miss at h)
  ]
    where
      some_inj : (a b : A) → some a ≡ some b → a ≡ b
      some_inj a b e = cc

  pub find_by-In : (k : ℕ) (xs : List A) (x : A) → find_by k xs ≡ some x → In x xs
  unfolding find_by
  find_by-In k [] y h = cc
  find_by-In k (x ∷ xs) y h = elim (Bool-cases (key x == k)) [
    | inl hit ↦ here (some_inj x y (rw hit at h))
    | inr miss ↦ there (find_by-In k xs y (rw miss at h))
  ]
    where
      some_inj : (a b : A) → some a ≡ some b → a ≡ b
      some_inj a b e = cc

  -- What a filter leaves keeps the constraint.
  pub IsAbsent-keep : (p : A → Bool) (k : ℕ) (xs : List A) → IsAbsent k xs → IsAbsent k (keep p xs)
  unfolding keep
  IsAbsent-keep p k [] h = tt
  IsAbsent-keep p k (x ∷ xs) h = ground (arith, IsAbsent-keep p k xs)

  pub IsDistinct-keep : (p : A → Bool) (xs : List A) → IsDistinct xs → IsDistinct (keep p xs)
  unfolding keep
  IsDistinct-keep p [] h = tt
  IsDistinct-keep p (x ∷ xs) h = ground (arith, IsDistinct-keep p xs, IsAbsent-keep p (key x) xs)

  pub find_by-delete_by :
      (k j : ℕ) (xs : List A) → find_by j (delete_by k xs) ≡ (if k == j then none else find_by j xs)
  unfolding find_by delete_by keep
  find_by-delete_by k j [] = ground arith
  find_by-delete_by k j (x ∷ xs) = ground (arith, find_by-delete_by k j xs)

-- A change of the rows that leaves a column alone.
module _ {ℓ} {A : Type ℓ} (key : A → ℕ) (g : A → A) (same : (x : A) → key (g x) ≡ key x) where
  pub find_by-map :
      (j : ℕ) (xs : List A) → find_by key j (map g xs) ≡ Option.map g (find_by key j xs)
  unfolding find_by
  find_by-map j [] = refl
  find_by-map j (x ∷ xs) = ground (arith, same x, find_by-map j xs)

  pub IsAbsent-map : (j : ℕ) (xs : List A) → IsAbsent key j xs → IsAbsent key j (map g xs)
  IsAbsent-map j [] h = tt
  IsAbsent-map j (x ∷ xs) (h, t) = (λ e. h (sym (same x) ∙ e), IsAbsent-map j xs t)

  pub IsDistinct-map : (xs : List A) → IsDistinct key xs → IsDistinct key (map g xs)
  IsDistinct-map [] h = tt
  IsDistinct-map (x ∷ xs) (h, t) = (rw (same x) (IsAbsent-map (key x) xs h), IsDistinct-map xs t)

module _ {ℓ} {A : Type ℓ} (key : A → ℕ) where
  IsAbsent-In : (k : ℕ) {x : A} {xs : List A} → IsAbsent key k xs → In x xs → key x ≢ k
  IsAbsent-In k h (here e) = λ p. h.0 (ap key e ∙ p)
  IsAbsent-In k h (there i) = IsAbsent-In k h.1 i

  -- Two rows of one table with the same value of a unique column are one row.
  pub IsDistinct-In :
      {x y : A} {xs : List A} → IsDistinct key xs → In x xs → In y xs → key x ≡ key y → x ≡ y
  IsDistinct-In d (here e) (here e') s = sym e ∙ e'
  IsDistinct-In d (here {x = z} e) (there j) s =
      absurd (IsAbsent-In (key z) d.0 j (sym s ∙ sym (ap key e)))
  IsDistinct-In d (there i) (here {x = z} e) s =
      absurd (IsAbsent-In (key z) d.0 i (s ∙ sym (ap key e)))
  IsDistinct-In d (there i) (there j) s = IsDistinct-In d.1 i j s

  pub find_by-In_self :
      {x : A} (xs : List A) → IsDistinct key xs → In x xs → find_by key (key x) xs ≡ some x
  unfolding find_by
  find_by-In_self [] d i = elim i [ ]
  find_by-In_self {x} (y ∷ ys) d (here e) = ground (arith, e, ap key e)
  find_by-In_self {x} (y ∷ ys) (h, t) (there i) =
      ground (arith, find_by-In_self ys t i, IsAbsent-In (key y) h i)

  pub IsAbsent-delete_by : (k : ℕ) (xs : List A) → IsAbsent key k xs → delete_by key k xs ≡ xs
  unfolding delete_by keep
  IsAbsent-delete_by k [] h = refl
  IsAbsent-delete_by k (x ∷ xs) h = ground (arith, IsAbsent-delete_by k xs)

  length-delete_by :
      (k : ℕ) (xs : List A) → IsDistinct key xs → length xs ≤ length (delete_by key k xs) + 1
  unfolding delete_by keep
  length-delete_by k [] h = omega arith
  length-delete_by k (x ∷ xs) (a, d) = elim (Bool-cases (key x == k)) [
    | inl hit ↦
        let e : key x ≡ k = ground arith in
        let same = ap length (IsAbsent-delete_by k xs (rw e at a)) in ground arith
    | inr miss ↦ ground (arith, length-delete_by k xs d)
  ]

  keep-any :
      (k : ℕ) (ks : List ℕ) (xs : List A)
      → keep (λ x. not (any (λ j. j == key x) (k ∷ ks))) xs
        ≡ delete_by key k (keep (λ x. not (any (λ j. j == key x) ks)) xs)
  unfolding delete_by keep any
  keep-any k ks [] = refl
  keep-any k ks (x ∷ xs) = ground (arith, keep-any k ks xs)

  keep-any-nil : (xs : List A) → keep (λ x. not (any (λ j. j == key x) [])) xs ≡ xs
  unfolding keep any
  keep-any-nil [] = refl
  keep-any-nil (x ∷ xs) = ap (λ ys. x ∷ ys) (keep-any-nil xs)

  -- Deleting by a list of values of a unique column removes at most one row for each.
  pub length-keep-any :
      (ks : List ℕ) (xs : List A)
      → IsDistinct key xs
      → length xs ≤ length (keep (λ x. not (any (λ j. j == key x) ks)) xs) + length ks
  length-keep-any [] xs d = rw (keep-any-nil xs) (omega arith)
  length-keep-any (k ∷ ks) xs d =
      let kept = keep (λ x. not (any (λ j. j == key x) ks)) xs in
      rw (keep-any k ks xs) (
        omega (
          arith,
          length-keep-any ks xs d,
          length-delete_by k kept (IsDistinct-keep key (λ x. not (any (λ j. j == key x) ks)) xs d),
        ))
