-- ===== src/Prelude/Split.antt =====
-- `str.split(",")`, `str.strip()` and `",".join` on the native texts.
use Prim.Native.Nat.{ℕ}
use Prim.Native.Char.{Char, code}
use Prim.Native.String.{String}
use mathlib.Core.Path.{◌≡◌, refl, ap, ◌∙◌}
use mathlib.Core.Bool.{Bool, true, false, ◌&&◌, ◌||◌}
use mathlib.Core.List.{List, [], ◌∷◌}
use native.Mathlib.Omega.{arith}
use pullfrog_azure.Prelude.Tests.{leb, ◌==◌, if◌then◌else◌}
use pullfrog_azure.Prelude.Text.{is_empty}

-- `text + text`
abbrev pub text_append : String → String → String
text_append String.[] t = t
text_append (String.◌∷◌ c s) t = String.◌∷◌ c (text_append s t)

abbrev cons_head : Char → List String → List String
cons_head c [] = String.◌∷◌ c String.[] ∷ []
cons_head c (field ∷ fields) = String.◌∷◌ c field ∷ fields

-- `text.split(",")`, which has a field more than the text has commas
unfoldable pub split : String → List String
split String.[] = String.[] ∷ []
split (String.◌∷◌ c s) =
    let fields = split s in if code c == b',' then String.[] ∷ fields else cons_head c fields

-- `character.isspace()`
abbrev is_space : ℕ → Bool
is_space c =
    leb 9 c && leb c 13
    || leb 28 c && leb c 32
    || c == 133
    || c == 160
    || c == 5760
    || leb 8192 c && leb c 8202
    || c == 8232
    || c == 8233
    || c == 8239
    || c == 8287
    || c == 12288

-- `text.lstrip()`, `text.rstrip()` and `text.strip()`
lstrip : String → String
lstrip String.[] = String.[]
lstrip (String.◌∷◌ c s) = if is_space (code c) then lstrip s else String.◌∷◌ c s

rstrip : String → String
rstrip String.[] = String.[]
rstrip (String.◌∷◌ c s) =
    let rest = rstrip s in
    if is_empty rest && is_space (code c) then String.[] else String.◌∷◌ c rest

unfoldable pub strip : String → String
unfolding lstrip rstrip
strip s = rstrip (lstrip s)

-- `",".join(fields)`
abbrev pub join : List String → String
join [] = String.[]
join (field ∷ []) = field
join (field ∷ next ∷ fields) = text_append field (String.◌∷◌ "," (join (next ∷ fields)))

abbrev pub HasNoComma : String → Type 0
HasNoComma String.[] = Unit
HasNoComma (String.◌∷◌ c s) = ((code c == b',') ≡ false) × HasNoComma s

-- only white space
abbrev pub IsBlank : String → Type 0
IsBlank String.[] = Unit
IsBlank (String.◌∷◌ c s) = (is_space (code c) ≡ true) × IsBlank s

abbrev IsStart : String → Type 0
IsStart String.[] = ⊥
IsStart (String.◌∷◌ c s) = is_space (code c) ≡ false

abbrev IsStop : String → Type 0
IsStop String.[] = ⊥
IsStop (String.◌∷◌ c String.[]) = is_space (code c) ≡ false
IsStop (String.◌∷◌ c (String.◌∷◌ d s)) = IsStop (String.◌∷◌ d s)

-- A text that neither begins nor ends with white space, and is not empty.
pub record IsTrimmed (s : String) : Type 0 where
  pub starts : IsStart s
  pub stops : IsStop s

pub split-HasNoComma : (s : String) → HasNoComma s → split s ≡ s ∷ []
unfolding split
split-HasNoComma String.[] h = refl
split-HasNoComma (String.◌∷◌ c s) h = rw (h.0, split-HasNoComma s h.1)

pub split-append :
    (s t : String) → HasNoComma s → split (text_append s (String.◌∷◌ "," t)) ≡ s ∷ split t
unfolding split
split-append String.[] t h = refl
split-append (String.◌∷◌ c s) t h = rw (h.0, split-append s t h.1)

pub HasNoComma-append : (s t : String) → HasNoComma s → HasNoComma t → HasNoComma (text_append s t)
HasNoComma-append String.[] t h k = k
HasNoComma-append (String.◌∷◌ c s) t h k = (h.0, HasNoComma-append s t h.1 k)

pub IsBlank-HasNoComma : (s : String) → IsBlank s → HasNoComma s
IsBlank-HasNoComma String.[] h = tt
IsBlank-HasNoComma (String.◌∷◌ c s) h = (ground arith, IsBlank-HasNoComma s h.1)

lstrip-append : (l s : String) → IsBlank l → IsStart s → lstrip (text_append l s) ≡ s
unfolding lstrip
lstrip-append String.[] String.[] h k = elim k [ ]
lstrip-append String.[] (String.◌∷◌ c s) h k = rw k
lstrip-append (String.◌∷◌ c l) s h k = rw h.0 (lstrip-append l s h.1 k)

rstrip-IsBlank : (r : String) → IsBlank r → rstrip r ≡ String.[]
unfolding rstrip
rstrip-IsBlank String.[] h = refl
rstrip-IsBlank (String.◌∷◌ c r) h = rw (rstrip-IsBlank r h.1, h.0)

rstrip-cons :
    (c d : Char) (t s : String)
    → rstrip t ≡ String.◌∷◌ d s
    → rstrip (String.◌∷◌ c t) ≡ String.◌∷◌ c (String.◌∷◌ d s)
unfolding rstrip
rstrip-cons c d t s h = rw h

rstrip-append : (s r : String) → IsStop s → IsBlank r → rstrip (text_append s r) ≡ s
unfolding rstrip
rstrip-append String.[] r h k = elim h [ ]
rstrip-append (String.◌∷◌ c String.[]) r h k = rw (rstrip-IsBlank r k, h)
rstrip-append (String.◌∷◌ c (String.◌∷◌ d s)) r h k =
    rstrip-cons c d (text_append (String.◌∷◌ d s) r) s (rstrip-append (String.◌∷◌ d s) r h k)

IsStart-append : (s r : String) → IsStart s → IsStart (text_append s r)
IsStart-append String.[] r h = elim h [ ]
IsStart-append (String.◌∷◌ c s) r h = h

-- White space around a trimmed text is what `strip` removes.
pub strip-append :
    (l s r : String)
    → IsBlank l
    → IsTrimmed s
    → IsBlank r
    → strip (text_append l (text_append s r)) ≡ s
unfolding strip
strip-append l s r hl t hr =
    ap rstrip (lstrip-append l (text_append s r) hl (IsStart-append s r t.starts))
    ∙ rstrip-append s r t.stops hr
