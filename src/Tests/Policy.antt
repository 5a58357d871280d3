-- ===== src/Tests/Policy.antt =====
-- Return paths, selections and CSRF proofs at concrete inputs.
use pullfrog_azure.Prelude.{
  ◌≤◌, String, ◌≡◌, refl, ◌↔◌, some, [], ◌∷◌, arith, text_length, any_char,
}
use pullfrog_azure.Auth.Domain.{value_error}
use pullfrog_azure.Auth.Policy.{validate_return_to, select_authorizer, netloc_of}
use pullfrog_azure.Auth.Policy.ReturnTo.{
  IsSafeText, IsLocalPath, IsUnclosed, validate_return_to-eq-ok_iff, validate_return_to-malformed,
}
use pullfrog_azure.Auth.Policy.Selection.{IsAuthorizer, select_authorizer-eq-some_iff}
use pullfrog_azure.Outcome.{ok, raise}
use pullfrog_azure.Tests.Data.{small_platform, other_user, some_group}

abbrev local : String
local = "/a"

validate_return_to-eq-ok_iff_example :
    (validate_return_to small_platform (some "/a") ≡ ok "/a")
    ↔ ((local ≡ small_platform.unquote local) × IsSafeText "/a" × IsLocalPath "/a")
validate_return_to-eq-ok_iff_example = validate_return_to-eq-ok_iff small_platform "/a" "/a"

unclosed : IsUnclosed "//[" "["
unfolding any_char netloc_of
unclosed = record { remote = refl; opened = refl; unclosed = refl }

safe : IsSafeText "//["
safe = ground arith

short : text_length "//[" ≤ 2048
unfolding text_length
short = omega arith

validate_return_to-malformed_example :
    validate_return_to small_platform (some "//[") ≡ raise value_error
validate_return_to-malformed_example =
    validate_return_to-malformed small_platform "//[" "[" safe safe short unclosed

select_authorizer-eq-some_iff_example :
    (select_authorizer 1 2 (5 ∷ 3 ∷ []) (other_user ∷ some_group ∷ []) ≡ some some_group)
    ↔ IsAuthorizer (other_user ∷ some_group ∷ []) 1 2 (5 ∷ 3 ∷ []) some_group
select_authorizer-eq-some_iff_example =
    select_authorizer-eq-some_iff (other_user ∷ some_group ∷ []) 1 2 (5 ∷ 3 ∷ []) some_group
