-- ===== src/Config/Identities.antt =====
-- Administrator lists from the environment: what is read back from a list that was written, and
-- that an accepted list holds no UUID twice.
use pullfrog_azure.Prelude.{
  ℕ, ◌≤◌, String, ◌≡◌, refl, ◌↔◌, false, List, [], ◌∷◌, map, arith, ◌==◌, ==_iff, is_empty, any,
  length, split, strip, join, text_append, HasNoComma, IsBlank, IsTrimmed, split-HasNoComma,
  split-append, HasNoComma-append, IsBlank-HasNoComma, strip-append, ap, ◌∙◌,
}
use pullfrog_azure.Config.{
  one_text, texts, parse_identity_ids, distinct, reject_duplicate_identity_ids,
}
use pullfrog_azure.Outcome.{ok}

-- An entry of a list as it may be written: white space around a text without commas.
pub record Entry : Type 0 where
  pub before : String
  pub name : String
  pub behind : String

abbrev pub written : Entry → String
written e = text_append e.before (text_append e.name e.behind)

pub record IsEntry (e : Entry) : Type 0 where
  pub blank_before : IsBlank e.before
  pub trimmed : IsTrimmed e.name
  pub no_comma : HasNoComma e.name
  pub blank_behind : IsBlank e.behind

abbrev pub AreEntries : List Entry → Type 0
AreEntries [] = Unit
AreEntries (e ∷ es) = IsEntry e × AreEntries es

written-HasNoComma : (e : Entry) → IsEntry e → HasNoComma (written e)
written-HasNoComma e i =
    HasNoComma-append e.before (text_append e.name e.behind)
      (IsBlank-HasNoComma e.before i.blank_before)
      (HasNoComma-append e.name e.behind i.no_comma (IsBlank-HasNoComma e.behind i.blank_behind))

strip-written : (e : Entry) → IsEntry e → strip (written e) ≡ e.name
strip-written e i = strip-append e.before e.name e.behind i.blank_before i.trimmed i.blank_behind

split-join :
    (e : Entry) (es : List Entry)
    → IsEntry e
    → AreEntries es
    → map strip (split (join (map written (e ∷ es)))) ≡ map (λ (x : Entry). x.name) (e ∷ es)
split-join e [] i is =
    ap (map strip) (split-HasNoComma (written e) (written-HasNoComma e i))
    ∙ ap (λ s. s ∷ []) (strip-written e i)
split-join e (d ∷ es) i is =
    ap (map strip) (split-append (written e) (join (map written (d ∷ es))) (written-HasNoComma e i))
    ∙ (λ k. strip-written e i k ∷ split-join d es is.0 is.1 k)

trimmed_given : (s : String) → IsTrimmed s → is_empty s ≡ false
trimmed_given String.[] t = elim t.starts [ ]
trimmed_given (String.◌∷◌ c s) t = refl

names_given :
    (es : List Entry) → AreEntries es → any is_empty (map (λ (x : Entry). x.name) es) ≡ false
unfolding any
names_given [] is = refl
names_given (e ∷ es) is = rw (trimmed_given e.name is.0.trimmed, names_given es is.1)

given_left : (s t : String) → is_empty s ≡ false → is_empty (text_append s t) ≡ false
given_left String.[] t h = cc
given_left (String.◌∷◌ c s) t h = refl

given_right : (s t : String) → is_empty t ≡ false → is_empty (text_append s t) ≡ false
given_right String.[] t h = h
given_right (String.◌∷◌ c s) t h = refl

one_given : (e : Entry) → IsEntry e → is_empty (written e) ≡ false
one_given e i =
    given_right e.before (text_append e.name e.behind)
      (given_left e.name e.behind (trimmed_given e.name i.trimmed))

written_given :
    (e : Entry) (es : List Entry) → IsEntry e → is_empty (join (map written (e ∷ es))) ≡ false
written_given e [] i = one_given e i
written_given e (d ∷ es) i =
    given_left (written e) (String.◌∷◌ "," (join (map written (d ∷ es)))) (one_given e i)

-- A list of entries written with commas between them and any white space around each is read back as
-- those entries, in their order.
pub parse_identity_ids-join :
    (e : Entry) (es : List Entry)
    → IsEntry e
    → AreEntries es
    → parse_identity_ids (one_text (join (map written (e ∷ es))))
      ≡ ok (texts (map (λ (x : Entry). x.name) (e ∷ es)))
unfolding parse_identity_ids
parse_identity_ids-join e es i is =
    rw (written_given e es i, split-join e es i is, names_given (e ∷ es) (i, is))

-- An accepted list holds no UUID twice.
abbrev pub IsDistinctList : List ℕ → Type 0
IsDistinctList [] = Unit
IsDistinctList (x ∷ xs) = (any (λ y. y == x) xs ≡ false) × IsDistinctList xs

distinct-le : (xs : List ℕ) → length (distinct xs) ≤ length xs
unfolding distinct
distinct-le [] = omega arith
distinct-le (x ∷ xs) = ground (arith, distinct-le xs)

any-distinct : (x : ℕ) (xs : List ℕ) → any (λ y. y == x) (distinct xs) ≡ any (λ y. y == x) xs
unfolding distinct any
any-distinct x [] = refl
any-distinct x (z ∷ xs) = ground (arith, any-distinct x xs, any-distinct z xs)

distinct-IsDistinctList : (xs : List ℕ) → length xs ≡ length (distinct xs) → IsDistinctList xs
unfolding distinct
distinct-IsDistinctList [] h = tt
distinct-IsDistinctList (x ∷ xs) h =
    ground (arith, any-distinct x xs, distinct-le xs, distinct-IsDistinctList xs)

IsDistinctList-distinct : (xs : List ℕ) → IsDistinctList xs → distinct xs ≡ xs
unfolding distinct
IsDistinctList-distinct [] h = refl
IsDistinctList-distinct (x ∷ xs) h = rw (IsDistinctList-distinct xs h.1, h.0)

pub reject_duplicate_identity_ids-eq-ok_iff :
    (xs ys : List ℕ) → (reject_duplicate_identity_ids xs ≡ ok ys) ↔ ((xs ≡ ys) × IsDistinctList xs)
unfolding reject_duplicate_identity_ids
reject_duplicate_identity_ids-eq-ok_iff xs ys = (
  λ h. (ground arith, distinct-IsDistinctList xs (ground arith)),
  λ h. rw (IsDistinctList-distinct xs h.1, (==_iff (length xs) (length xs)).1 refl) (ap ok h.0),
)
