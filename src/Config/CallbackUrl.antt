-- ===== src/Config/CallbackUrl.antt =====
-- config.py, `callback_url`: the URL that the provider redirects to, from the text of the base URL.
use pullfrog_azure.Prelude.{
  String, code, ◌≡◌, ◌≢◌, refl, inl, inr, ◌==◌, ==_iff, ap, if◌then◌else◌, is_empty, ◌&&◌,
  text_append, Bool-cases,
}
use pullfrog_azure.Prelude.{Char}
use pullfrog_azure.Config.{Settings, callback_url, strip_slashes}

-- only slashes
abbrev pub IsSlashes : String → Type 0
IsSlashes String.[] = Unit
IsSlashes (String.◌∷◌ c s) = (code c ≡ b'/') × IsSlashes s

-- no slash at the end
abbrev pub IsBare : String → Type 0
IsBare String.[] = Unit
IsBare (String.◌∷◌ c String.[]) = code c ≢ b'/'
IsBare (String.◌∷◌ c (String.◌∷◌ d s)) = IsBare (String.◌∷◌ d s)

-- `base` is the text without the slashes at its end.
pub record IsStripped (text base : String) : Type 0 where
  pub slashes : String
  pub whole : text ≡ text_append base slashes
  pub only_slashes : IsSlashes slashes
  pub bare : IsBare base

strip_step :
    (c : Char) (t rest : String)
    → IsStripped t rest
    → IsStripped
        (String.◌∷◌ c t)
        (if is_empty rest && code c == b'/' then String.[] else String.◌∷◌ c rest)
strip_step c t String.[] h = elim (Bool-cases (code c == b'/')) [
  | inl slash ↦ rw slash (record {
    slashes = String.◌∷◌ c h.slashes;
    whole = ap (String.◌∷◌ c) h.whole;
    only_slashes = ((==_iff (code c) b'/').0 slash, h.only_slashes);
    bare = tt;
  })
  | inr other ↦ rw other (record {
    slashes = h.slashes;
    whole = ap (String.◌∷◌ c) h.whole;
    only_slashes = h.only_slashes;
    bare = λ e. cc (other, (==_iff (code c) b'/').1 e);
  })
]
strip_step c t (String.◌∷◌ d r) h = record {
  slashes = h.slashes;
  whole = ap (String.◌∷◌ c) h.whole;
  only_slashes = h.only_slashes;
  bare = h.bare;
}

strip_slashes-IsStripped : (s : String) → IsStripped s (strip_slashes s)
unfolding strip_slashes
strip_slashes-IsStripped String.[] = record {
  slashes = String.[];
  whole = refl;
  only_slashes = tt;
  bare = tt;
}
strip_slashes-IsStripped (String.◌∷◌ c s) =
    strip_step c s (strip_slashes s) (strip_slashes-IsStripped s)

-- The base URL's text without its last slashes, and then the path of the callback's route.
pub record IsCallbackUrl (text url : String) : Type 0 where
  pub base : String
  pub stripped : IsStripped text base
  pub appended : url ≡ text_append base "/api/v1/auth/callback"

pub callback_url_lem :
    (settings : Settings) → IsCallbackUrl settings.public_base_url.text (callback_url settings)
unfolding callback_url
callback_url_lem settings = record {
  base = strip_slashes settings.public_base_url.text;
  stripped = strip_slashes-IsStripped settings.public_base_url.text;
  appended = refl;
}
