-- ===== src/Prelude/Ascii.antt =====
-- The character classes of the source's regular expressions, over the code points of a text.
use Prim.Native.Nat.{ℕ}
use Prim.Native.Char.{code}
use Prim.Native.String.{String}
use mathlib.Core.Path.{◌≡◌, refl}
use mathlib.Core.Bool.{Bool, true, ◌&&◌, ◌||◌}
use mathlib.Core.List.{List, [], ◌∷◌}
use ivrm_dashboard.Prelude.Tests.{leb, ◌==◌}
use ivrm_dashboard.Prelude.Lists.{length, all}

abbrev pub codes : String → List ℕ
codes String.[] = []
codes (String.◌∷◌ c s) = code c ∷ codes s

abbrev pub between : ℕ → ℕ → ℕ → Bool
between lo hi c = leb lo c && leb c hi

abbrev pub is_digit : ℕ → Bool
is_digit c = between b'0' b'9' c

-- `[a-f0-9]`
abbrev pub is_hex : ℕ → Bool
is_hex c = is_digit c || between b'a' b'f' c

-- `[A-Za-z0-9._-]`
abbrev pub is_name : ℕ → Bool
is_name c =
    is_digit c || between b'a' b'z' c || between b'A' b'Z' c || c == b'.' || c == b'_' || c == b'-'

-- `/^[class]{lo,hi}$/`
unfoldable pub matches : (ℕ → Bool) → ℕ → ℕ → String → Bool
matches class lo hi text =
    let cs = codes text in all class cs && leb lo (length cs) && leb (length cs) hi

snowflake_test : matches is_digit 17 20 "123456789012345678" ≡ true
unfolding matches
snowflake_test = refl
