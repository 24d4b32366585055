-- ===== src/Discord/ReturnPath/Laws.antt =====
-- A return path that is sanitised twice, as between the start and the end of a sign-in.
use ivrm_dashboard.Prelude.{
  ℕ, true, false, ◌||◌, List, [], ◌∷◌, ◌++◌, Option, none, some, ◌≡◌, refl, sym, ap, ◌∙◌, ◌⊎◌, inl,
  inr, arith,
}
use ivrm_dashboard.Prelude.Tests.{Bool-cases}
use ivrm_dashboard.Prelude.Ascii.{codes}
use ivrm_dashboard.Prelude.Bytes.{same_bytes, same-bytes, starts_with, starts_with-append}
use ivrm_dashboard.Discord.ReturnPath.{
  ParsedUrl, root_path, console_origin, path_of_url, is_foreign, sanitize, sanitize_return_path,
}

-- What a parser of URLs does on paths of its own making: where a text that begins with a slash is read
-- as a URL of the console, the path and the query of this URL are read back as the same URL, unless the
-- path begins with two slashes.
abbrev pub ReadsBack : (List ℕ → Option ParsedUrl) → Type 0
ReadsBack parse_url =
    (value : List ℕ) (parsed : ParsedUrl)
    → starts_with (codes "/") value ≡ true
    → parse_url value ≡ some parsed
    → parsed.origin ≡ console_origin
    → starts_with (codes "//") parsed.pathname ≡ false
    → parse_url (parsed.pathname ++ parsed.search) ≡ some parsed

abbrev pub root_url : ParsedUrl
root_url = record { origin = console_origin; pathname = root_path; search = [] }

-- What the answer for a URL is: the root, or the path and query of a URL of the console.
path_of_url-cases :
    (found : Option ParsedUrl)
    → (path_of_url found ≡ root_path)
      ⊎ ((parsed : ParsedUrl) × (found ≡ some parsed)
          × (parsed.origin ≡ console_origin)
          × (path_of_url found ≡ parsed.pathname ++ parsed.search))
unfolding path_of_url
path_of_url-cases none = inl refl
path_of_url-cases (some parsed) = elim (Bool-cases (same_bytes parsed.origin console_origin)) [
  | inr e ↦ inl (rw e refl)
  | inl e ↦
      elim (Bool-cases (
        same_bytes parsed.pathname (codes "/login")
        || starts_with (codes "/api/auth/") parsed.pathname)) [
          | inl f ↦ inl (rw e (rw f refl))
          | inr f ↦ inr (parsed, refl, same-bytes parsed.origin console_origin e, rw e (rw f refl))
        ]
]

pub sanitize-some :
    (parse_url : List ℕ → Option ParsedUrl) (value : List ℕ)
    → sanitize_return_path parse_url (some value) ≡ sanitize parse_url value
unfolding sanitize_return_path sanitize is_foreign
sanitize-some parse_url [] = refl
sanitize-some parse_url (c ∷ value) = refl

foreign-sanitize :
    (parse_url : List ℕ → Option ParsedUrl) (value : List ℕ)
    → is_foreign value ≡ true
    → sanitize parse_url value ≡ root_path
unfolding sanitize
foreign-sanitize parse_url value h = rw h refl

local-sanitize :
    (parse_url : List ℕ → Option ParsedUrl) (value : List ℕ)
    → is_foreign value ≡ false
    → sanitize parse_url value ≡ path_of_url (parse_url value)
unfolding sanitize
local-sanitize parse_url value h = rw h refl

pub root-sanitize :
    (parse_url : List ℕ → Option ParsedUrl)
    → parse_url root_path ≡ some root_url
    → sanitize parse_url root_path ≡ root_path
unfolding sanitize is_foreign path_of_url
root-sanitize parse_url root = rw root refl

-- A path is local if it begins with one slash and no second one.
abbrev pub IsLocal : List ℕ → Type 0
IsLocal value = (starts_with (codes "/") value ≡ true) × (starts_with (codes "//") value ≡ false)

is_foreign-IsLocal : (value : List ℕ) → is_foreign value ≡ false → IsLocal value
unfolding is_foreign
is_foreign-IsLocal value h = (ground (arith), ground (arith))

-- If a joined path is not foreign, its first part does not begin with two slashes.
first-part :
    (a b : List ℕ) → starts_with (codes "//") (a ++ b) ≡ false → starts_with (codes "//") a ≡ false
first-part a b h = elim (Bool-cases (starts_with (codes "//") a)) [
  | inr e ↦ e
  | inl e ↦ let k = starts_with-append (codes "//") a b e in ground (arith)
]

module _ (parse_url : List ℕ → Option ParsedUrl) where
  -- The answer, from the URL that it was read from.
  sanitize-cases :
      (raw : Option (List ℕ))
      → (sanitize_return_path parse_url raw ≡ root_path)
        ⊎ ((value : List ℕ) × (parsed : ParsedUrl) × (starts_with (codes "/") value ≡ true)
            × (parse_url value ≡ some parsed)
            × (parsed.origin ≡ console_origin)
            × (path_of_url (some parsed) ≡ parsed.pathname ++ parsed.search)
            × (sanitize_return_path parse_url raw ≡ parsed.pathname ++ parsed.search))
  unfolding sanitize_return_path sanitize
  sanitize-cases none = inl refl
  sanitize-cases (some []) = inl refl
  sanitize-cases (some (c ∷ value)) = elim (Bool-cases (is_foreign (c ∷ value))) [
    | inl e ↦ inl (rw e refl)
    | inr e ↦ elim (path_of_url-cases (parse_url (c ∷ value))) [
      | inl f ↦ inl (rw e f)
      | inr (parsed, found, origin, f) ↦ inr (
        c ∷ value,
        parsed,
        (is_foreign-IsLocal (c ∷ value) e).0,
        found,
        origin,
        ap path_of_url (sym found) ∙ f,
        rw e f,
      )
    ]
  ]

  -- The second time, the answer is the root, or it is what the first time gave, which is local.
  sanitize_again :
      ReadsBack parse_url
      → parse_url root_path ≡ some root_url
      → (raw : Option (List ℕ))
      → (sanitize parse_url (sanitize_return_path parse_url raw) ≡ root_path)
        ⊎ ((sanitize parse_url (sanitize_return_path parse_url raw)
              ≡ sanitize_return_path parse_url raw)
            × IsLocal (sanitize_return_path parse_url raw))
  sanitize_again reads root raw =
      elim (Bool-cases (is_foreign (sanitize_return_path parse_url raw))) [
        | inl f ↦ inl (foreign-sanitize parse_url (sanitize_return_path parse_url raw) f)
        | inr f ↦ elim (sanitize-cases raw) [
          | inl e ↦ inl (rw e (root-sanitize parse_url root))
          | inr (value, parsed, slash, found, origin, whole, e) ↦
              let here = is_foreign-IsLocal (sanitize_return_path parse_url raw) f in
              let path =
                first-part parsed.pathname parsed.search
                  (sym (ap (starts_with (codes "//")) e) ∙ here.1) in
              inr (
                local-sanitize parse_url (sanitize_return_path parse_url raw) f
                    ∙ ap (λ t. path_of_url (parse_url t)) e
                    ∙ ap path_of_url (reads value parsed slash found origin path)
                    ∙ whole
                    ∙ sym e,
                here,
              )
        ]
      ]

  -- A return path that has been sanitised twice, as it is on its way through a sign-in, begins with
  -- one slash and no second one, so that a browser stays on the site, and sanitising it once more
  -- leaves it as it is. The conditions on the parser of URLs are that it reads the root
  -- path as the root of the console, and that, where it reads a text that begins with a slash as a URL
  -- of the console whose path does not begin with two slashes, it reads back the path and query.
  pub sanitize_twice-IsLocal :
      ReadsBack parse_url
      → parse_url root_path ≡ some root_url
      → (raw : Option (List ℕ)) (twice : List ℕ)
      → twice ≡ sanitize_return_path parse_url (some (sanitize_return_path parse_url raw))
      → IsLocal twice × (sanitize_return_path parse_url (some twice) ≡ twice)
  sanitize_twice-IsLocal reads root raw twice t =
      let here = t ∙ sanitize-some parse_url (sanitize_return_path parse_url raw) in
      elim (sanitize_again reads root raw) [
        | inl e ↦
            rw (here ∙ e)
              ((refl, refl), sanitize-some parse_url root_path ∙ root-sanitize parse_url root)
        | inr (e, l) ↦
            rw (here ∙ e) (l, sanitize-some parse_url (sanitize_return_path parse_url raw) ∙ e)
      ]
