-- ===== src/Discord/ReturnPath.antt =====
-- `sanitizeReturnPath` of apps/web/lib/discord-auth.ts. `new URL(text, base)` is a parameter, none
-- where it throws.
pub mod Laws
use ivrm_dashboard.Prelude.{
  ℕ, Bool, not, ◌||◌, List, [], ◌∷◌, ◌++◌, Option, none, some, if◌then◌else◌, ltb,
}
use ivrm_dashboard.Prelude.Ascii.{codes}
use ivrm_dashboard.Prelude.Bytes.{same_bytes, starts_with, utf16_length}

-- The parts of a URL that the source reads.
pub record ParsedUrl : Type 0 where
  pub origin : List ℕ
  pub pathname : List ℕ
  pub search : List ℕ

abbrev pub root_path : List ℕ
root_path = codes "/"

abbrev pub console_origin : List ℕ
console_origin = codes "https://console.ivrm.jp"

-- The answer for a URL.
unfoldable pub path_of_url : Option ParsedUrl → List ℕ
path_of_url none = root_path
path_of_url (some parsed) =
    if not (same_bytes parsed.origin console_origin)
    then root_path
    else if same_bytes parsed.pathname (codes "/login")
        || starts_with (codes "/api/auth/") parsed.pathname
    then root_path
    else parsed.pathname ++ parsed.search

-- A value that is no local path.
unfoldable pub is_foreign : List ℕ → Bool
is_foreign value =
    ltb 1024 (utf16_length value)
    || not (starts_with (codes "/") value)
    || starts_with (codes "//") value

module _ (parse_url : List ℕ → Option ParsedUrl) where
  unfoldable pub sanitize : List ℕ → List ℕ
  unfolding path_of_url is_foreign
  sanitize value = if is_foreign value then root_path else path_of_url (parse_url value)

  -- `sanitizeReturnPath`; the empty text counts as null.
  unfoldable pub sanitize_return_path : Option (List ℕ) → List ℕ
  unfolding sanitize
  sanitize_return_path none = root_path
  sanitize_return_path (some []) = root_path
  sanitize_return_path (some (c ∷ value)) = sanitize (c ∷ value)
