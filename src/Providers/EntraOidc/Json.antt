-- ===== src/Providers/EntraOidc/Json.antt =====
-- Which provider values are JSON, and what `require_json_object` lets through.
use pullfrog_azure.Prelude.{ℕ, String, ◌≡◌, refl, ◌↔◌, true, Bool-cases, inl, inr, Bool}
use mathlib.Core.Bool.{and-eq-true_iff}
use pullfrog_azure.Prelude.Int.{ℤ}
use pullfrog_azure.Outcome.{Result, ok, raise, ◌>>=◌}
use pullfrog_azure.Values.{
  PyValue, none_value, bool, int, float, str, list, dict, other, Items, nil, cons, Entries, end,
  entry, is_finite,
}
use pullfrog_azure.Providers.EntraOidc.{
  is_json_value, all_json, all_json_entries, copy_entries, require_json_object,
}

-- The values that JSON can write: null, booleans, integers, finite floats, texts, and lists and
-- objects of such, with texts for keys.
mutual
  pub data IsJson : PyValue → Type 0 where
    a_null : IsJson none_value
    a_bool : {b : Bool} → IsJson (bool b)
    an_int : {n : ℤ} → IsJson (int n)
    a_float : {bits : ℕ} → is_finite bits ≡ true → IsJson (float bits)
    a_str : {s : String} → IsJson (str s)
    a_list : {items : Items} → AllJson items → IsJson (list items)
    an_object : {entries : Entries} → IsJsonObject entries → IsJson (dict entries)

  pub data AllJson : Items → Type 0 where
    no_items : AllJson nil
    more : {v : PyValue} {items : Items} → IsJson v → AllJson items → AllJson (cons v items)

  pub data IsJsonObject : Entries → Type 0 where
    no_entries : IsJsonObject end
    field :
        {key : String} {v : PyValue} {rest : Entries}
        → IsJson v
        → IsJsonObject rest
        → IsJsonObject (entry (str key) v rest)

mutual
  unfolding is_json_value

  is_json_value_sound : (v : PyValue) → is_json_value v ≡ true → IsJson v
  is_json_value_sound none_value h = a_null
  is_json_value_sound (bool b) h = a_bool
  is_json_value_sound (int n) h = an_int
  is_json_value_sound (float bits) h = a_float h
  is_json_value_sound (str s) h = a_str
  is_json_value_sound (list items) h = a_list (all_json_sound items h)
  is_json_value_sound (dict entries) h = an_object (all_json_entries_sound entries h)
  is_json_value_sound (other n) h = cc

  all_json_sound : (items : Items) → all_json items ≡ true → AllJson items
  all_json_sound nil h = no_items
  all_json_sound (cons v items) h =
      let (here, later) = (and-eq-true_iff _ _).0 h in
      more (is_json_value_sound v here) (all_json_sound items later)

  all_json_entries_sound :
      (entries : Entries) → all_json_entries entries ≡ true → IsJsonObject entries
  all_json_entries_sound end h = no_entries
  all_json_entries_sound (entry (str key) v rest) h =
      let (here, later) = (and-eq-true_iff _ _).0 h in
      field (is_json_value_sound v here) (all_json_entries_sound rest later)
  all_json_entries_sound (entry _ v rest) h = cc

mutual
  unfolding is_json_value

  is_json_value_complete : {v : PyValue} → IsJson v → is_json_value v ≡ true
  is_json_value_complete a_null = refl
  is_json_value_complete a_bool = refl
  is_json_value_complete an_int = refl
  is_json_value_complete (a_float h) = h
  is_json_value_complete a_str = refl
  is_json_value_complete (a_list h) = all_json_complete h
  is_json_value_complete (an_object h) = all_json_entries_complete h

  all_json_complete : {items : Items} → AllJson items → all_json items ≡ true
  all_json_complete no_items = refl
  all_json_complete (more h t) = rw (is_json_value_complete h) (all_json_complete t)

  all_json_entries_complete :
      {entries : Entries} → IsJsonObject entries → all_json_entries entries ≡ true
  all_json_entries_complete no_entries = refl
  all_json_entries_complete (field h t) =
      rw (is_json_value_complete h) (all_json_entries_complete t)

-- `is_json_value` accepts exactly the values that JSON can write.
pub is_json_value_iff : (v : PyValue) → (is_json_value v ≡ true) ↔ IsJson v
is_json_value_iff v = (is_json_value_sound v, is_json_value_complete)

-- The copy of a dict that holds JSON is that dict, and of any other dict there is none.
copy_entries-IsJsonObject :
    (entries copied : Entries)
    → copy_entries entries ≡ ok copied
    → (copied ≡ entries) × IsJsonObject entries
unfolding copy_entries
copy_entries-IsJsonObject end copied h = (cc, no_entries)
copy_entries-IsJsonObject (entry (str key) v rest) copied h = elim (Bool-cases (is_json_value v)) [
  | inr bad ↦ cc (rw bad at h)
  | inl good ↦
      step (copy_entries rest) (rw good at h) (copy_entries-IsJsonObject rest)
        (is_json_value_sound v good)
]
  where
    step :
        (later : Result Entries)
        → (later >>= λ c. ok (entry (str key) v c)) ≡ ok copied
        → ((c : Entries) → later ≡ ok c → (c ≡ rest) × IsJsonObject rest)
        → IsJson v
        → (copied ≡ entry (str key) v rest) × IsJsonObject (entry (str key) v rest)
    step (ok c) e ih j = let (same, o) = ih c refl in (cc, field j o)
    step (raise x) e ih j = cc
copy_entries-IsJsonObject (entry _ v rest) copied h = cc

IsJsonObject-copy_entries :
    {entries : Entries} → IsJsonObject entries → copy_entries entries ≡ ok entries
unfolding copy_entries
IsJsonObject-copy_entries no_entries = refl
IsJsonObject-copy_entries (field h t) = rw (is_json_value_complete h, IsJsonObject-copy_entries t)

-- `require_json_object` returns a value exactly when it is given a dict that JSON can write, and
-- then a dict with the same items in the same order.
pub require_json_object-eq-ok_iff :
    (v : PyValue) (flow : Entries)
    → (require_json_object v ≡ ok flow) ↔ ((v ≡ dict flow) × IsJsonObject flow)
unfolding require_json_object
require_json_object-eq-ok_iff (dict entries) flow = (
  λ h. let (same, o) = copy_entries-IsJsonObject entries flow h in (cc, rw same o),
  λ h. let q = h.0 in let e : entries ≡ flow = cc (q) in rw e (IsJsonObject-copy_entries h.1),
)
require_json_object-eq-ok_iff _ flow = (λ h. cc, λ h. cc)
