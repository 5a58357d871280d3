-- ===== src/Auth/Tokens.antt =====
-- auth/tokens.py: the digest of a token and the CSRF comparison. The random token itself comes from
-- `secrets.token_urlsafe`, so the operations that make one take it as an argument.
pub mod Csrf
use pullfrog_azure.Prelude.{
  ℕ, String, Bool, true, false, ◌&&◌, Option, none, some, ◌==◌, str_eq, if◌then◌else◌, is_ascii,
}
use pullfrog_azure.Auth.Domain.{type_error}
use pullfrog_azure.Outcome.{Result, ok, raise, ◌>>=◌}
use pullfrog_azure.Platform.{Platform}

abbrev pub digest_token : Platform → String → ℕ
digest_token p token = p.sha256 token

-- `hmac.compare_digest` of two texts raises `TypeError` unless both are ASCII.
compare_texts : String → String → Result Bool
compare_texts a b = if is_ascii a && is_ascii b then ok (str_eq a b) else raise type_error

unfoldable pub csrf_matches : Platform → Option String → Option String → ℕ → Result Bool
unfolding compare_texts
csrf_matches p none header_value stored_digest = ok false
csrf_matches p (some cookie) none stored_digest = ok false
csrf_matches p (some cookie) (some header) stored_digest = compare_texts cookie header >>= λ same.
    if same then ok (digest_token p cookie == stored_digest) else ok false
