-- ===== src/Platform.antt =====
-- What the program calls of its platform and what has no definition here: the SHA-256 digest, the
-- parser of UUID texts, percent decoding, and the two host checks of `urlsplit`. They are functions
-- of the model, and each theorem that relies on one says what it assumes of it.
use pullfrog_azure.Prelude.{ℕ, String, Bool, Option}

pub record Platform : Type 0 where
  -- `hashlib.sha256(text.encode("utf-8")).digest()`, the 32 bytes read as one number
  pub sha256 : String → ℕ
  -- the lower-case hexadecimal text of a digest, `hexdigest()`
  pub hexdigest : ℕ → String
  -- `UUID(text)`, as its 128-bit number; `none` where it raises `ValueError`
  pub parse_uuid : String → Option ℕ
  -- `str(uuid)`, 36 characters in lower case
  pub uuid_text : ℕ → String
  -- `urllib.parse.unquote(text)`
  pub unquote : String → String
  -- the checks that `urlsplit` makes of a network location besides its brackets: a bracketed host
  -- is an IP address, and no character turns into a delimiter under NFKC
  pub netloc_ok : String → Bool
