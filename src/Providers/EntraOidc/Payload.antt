-- ===== src/Providers/EntraOidc/Payload.antt =====
-- providers/entra_oidc.py: the checks of JSON values and the readers of claims.
use pullfrog_azure.Prelude.{
  String, Bool, true, false, not, ◌&&◌, ◌||◌, Option, none, some, List, [], ◌∷◌, if◌then◌else◌,
}
use pullfrog_azure.Auth.Domain.{oidc_invalid_response}
use pullfrog_azure.Outcome.{Result, ok, raise, ◌>>=◌}
use pullfrog_azure.Values.{
  PyValue, none_value, bool, int, float, str, list, dict, other, Items, nil, cons, Entries, end,
  entry, is_str, get, is_finite,
}

unfoldable mutual
  pub is_json_value : PyValue → Bool
  is_json_value none_value = true
  is_json_value (bool b) = true
  is_json_value (int n) = true
  is_json_value (str s) = true
  is_json_value (float bits) = is_finite bits
  is_json_value (list items) = all_json items
  is_json_value (dict entries) = all_json_entries entries
  is_json_value (other n) = false

  pub all_json : Items → Bool
  all_json nil = true
  all_json (cons v items) = is_json_value v && all_json items

  pub all_json_entries : Entries → Bool
  all_json_entries end = true
  all_json_entries (entry k v rest) = is_str k && is_json_value v && all_json_entries rest

-- The keys of a dict are distinct, so that each assignment to the copy adds an item.
unfoldable pub copy_entries : Entries → Result Entries
copy_entries end = ok end
copy_entries (entry k v rest) =
    let later = copy_entries rest in
    if not (is_str k) || not (is_json_value v)
    then raise oidc_invalid_response
    else (later >>= λ copied. ok (entry k v copied))

unfoldable pub require_json_object : PyValue → Result Entries
unfolding copy_entries
require_json_object (dict entries) = copy_entries entries
require_json_object _ = raise oidc_invalid_response

abbrev pub string_claim : Option PyValue → Result (Option String)
string_claim none = ok none
string_claim (some (str s)) = ok (some s)
string_claim (some _) = raise oidc_invalid_response

unfoldable pub optional_string : Entries → String → Result (Option String)
optional_string claims claim_name = string_claim (get claim_name claims)

-- a list of texts, as a tuple
unfoldable pub string_items : Items → Result (List String)
string_items nil = ok []
string_items (cons (str s) items) = string_items items >>= λ rest. ok (s ∷ rest)
string_items (cons _ items) = raise oidc_invalid_response

abbrev pub groups_claim : Option PyValue → Result (List String)
groups_claim none = ok []
groups_claim (some (list items)) = string_items items
groups_claim (some _) = raise oidc_invalid_response

unfoldable pub group_claims : Entries → Result (List String)
unfolding string_items
group_claims claims = groups_claim (get "groups" claims)

abbrev pub hasgroups_overage : Option PyValue → Result Bool
hasgroups_overage none = ok false
hasgroups_overage (some (bool true)) = ok true
hasgroups_overage (some _) = raise oidc_invalid_response

abbrev pub names_groups : Option PyValue → Result Bool
names_groups none = ok false
names_groups (some (str s)) = ok true
names_groups (some _) = raise oidc_invalid_response

abbrev pub claim_names_overage : Option PyValue → Result Bool
claim_names_overage none = ok false
claim_names_overage (some (dict claim_names)) = names_groups (get "groups" claim_names)
claim_names_overage (some _) = raise oidc_invalid_response

unfoldable pub has_group_overage : Entries → Result Bool
has_group_overage claims = do
  hasgroups ← hasgroups_overage (get "hasgroups" claims)
  named ← claim_names_overage (get "_claim_names" claims)
  ok (hasgroups || named)
