-- ===== src/Discord/Base64.antt =====
-- `Buffer.toString("base64url")` and `Buffer.from(text, "base64url")` of the runtime, on bytes and on
-- texts of the URL-safe alphabet, as apps/web/lib/discord-oauth-cookies.ts uses them.
pub mod Laws
use ivrm_dashboard.Prelude.{
  ℕ, ◌+◌, ◌-◌, ◌*◌, ◌/◌, ◌%◌, Bool, ◌||◌, ◌==◌, List, [], ◌∷◌, if◌then◌else◌, ltb,
}
use ivrm_dashboard.Prelude.Ascii.{is_digit, between}

-- The character of six bits.
abbrev pub symbol : ℕ → ℕ
symbol v =
    if ltb v 26
    then v + 65
    else if ltb v 52
    then v + 71
    else if ltb v 62
    then v - 4
    else if v == 62
    then 45
    else 95

-- The six bits of a character of the alphabet.
abbrev pub sextet : ℕ → ℕ
sextet c =
    if between 65 90 c
    then c - 65
    else if between 97 122 c
    then c - 71
    else if between 48 57 c
    then c + 4
    else if c == 45
    then 62
    else 63

-- `[A-Za-z0-9_-]`
abbrev pub is_url_character : ℕ → Bool
is_url_character c =
    between b'A' b'Z' c || between b'a' b'z' c || is_digit c || c == b'_' || c == b'-'

unfoldable pub encode : List ℕ → List ℕ
encode [] = []
encode (a ∷ []) = symbol (a / 4) ∷ symbol (a % 4 * 16) ∷ []
encode (a ∷ b ∷ []) = symbol (a / 4) ∷ symbol (a % 4 * 16 + b / 16) ∷ symbol (b % 16 * 4) ∷ []
encode (a ∷ b ∷ c ∷ rest) =
    symbol (a / 4)
    ∷ symbol (a % 4 * 16 + b / 16)
    ∷ symbol (b % 16 * 4 + c / 64)
    ∷ symbol (c % 64)
    ∷ encode rest

unfoldable pub decode : List ℕ → List ℕ
decode [] = []
decode (p ∷ []) = []
decode (p ∷ q ∷ []) = (sextet p * 4 + sextet q / 16) ∷ []
decode (p ∷ q ∷ r ∷ []) = (sextet p * 4 + sextet q / 16) ∷ (sextet q % 16 * 16 + sextet r / 4) ∷ []
decode (p ∷ q ∷ r ∷ s ∷ rest) =
    (sextet p * 4 + sextet q / 16)
    ∷ (sextet q % 16 * 16 + sextet r / 4)
    ∷ (sextet r % 4 * 64 + sextet s)
    ∷ decode rest
