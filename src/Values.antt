-- ===== src/Values.antt =====
-- The Python objects that MSAL hands over, `JsonValue` of auth/domain.py among them. A float is its
-- IEEE 754 bit pattern; `other` is any object of another class.
use pullfrog_azure.Prelude.{
  ℕ, String, Bool, true, false, not, Option, none, some, ◌==◌, str_eq, if◌then◌else◌,
}
use pullfrog_azure.Prelude.Int.{ℤ}
use Prim.Native.Nat.{◌/◌, ◌%◌, ◌^◌}

mutual
  pub data PyValue : Type 0 where
    none_value : PyValue
    bool : Bool → PyValue
    int : ℤ → PyValue
    float : (bits : ℕ) → PyValue
    str : String → PyValue
    list : Items → PyValue
    dict : Entries → PyValue
    other : ℕ → PyValue

  pub data Items : Type 0 where
    nil : Items
    cons : PyValue → Items → Items

  -- the items of a dict, in insertion order; a key may be any hashable object
  pub data Entries : Type 0 where
    end : Entries
    entry : (key item : PyValue) → Entries → Entries

-- `isinstance(value, str)`
abbrev pub is_str : PyValue → Bool
is_str (str s) = true
is_str _ = false

-- `value == text`, for a text
abbrev pub equals_text : PyValue → String → Bool
equals_text (str s) t = str_eq s t
equals_text _ t = false

-- `entries.get(key)`; `none` where `key not in entries`
unfoldable pub get : String → Entries → Option PyValue
get key end = none
get key (entry k v rest) = if equals_text k key then some v else get key rest

-- `math.isfinite(value)`: the exponent is not all ones
unfoldable pub is_finite : ℕ → Bool
is_finite bits = not (bits / 2 ^ 52 % 2 ^ 11 == 2047)
