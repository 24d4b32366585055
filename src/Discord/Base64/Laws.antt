-- ===== src/Discord/Base64/Laws.antt =====
-- The URL-safe base64 of bytes: its alphabet, its length, and that it is read back.
use ivrm_dashboard.Prelude.{
  ℕ, ◌+◌, ◌*◌, ◌/◌, ◌%◌, ◌<◌, ◌≤◌, true, List, [], ◌∷◌, length, all, ◌≡◌, refl, ap, ap₂, arith,
}
use ivrm_dashboard.Prelude.Bytes.{AllBytes}
use ivrm_dashboard.Discord.Base64.{symbol, sextet, is_url_character, encode, decode}

sextet-symbol : (v : ℕ) → v < 64 → sextet (symbol v) ≡ v
sextet-symbol v h = ground (arith)

is_url_character-symbol : (v : ℕ) → v < 64 → is_url_character (symbol v) ≡ true
is_url_character-symbol v h = ground (arith)

first_byte :
    (a b : ℕ)
    → a < 256
    → b < 256
    → sextet (symbol (a / 4)) * 4 + sextet (symbol (a % 4 * 16 + b / 16)) / 16 ≡ a
first_byte a b h k =
    rw (sextet-symbol (a / 4) (omega arith), sextet-symbol (a % 4 * 16 + b / 16) (omega arith))
      (omega arith)

second_byte :
    (a b c : ℕ)
    → b < 256
    → c < 256
    → sextet (symbol (a % 4 * 16 + b / 16)) % 16 * 16 + sextet (symbol (b % 16 * 4 + c / 64)) / 4
      ≡ b
second_byte a b c h k =
    rw
      (
        sextet-symbol (a % 4 * 16 + b / 16) (omega arith),
        sextet-symbol (b % 16 * 4 + c / 64) (omega arith),
      )
      (omega arith)

third_byte :
    (b c : ℕ)
    → c < 256
    → sextet (symbol (b % 16 * 4 + c / 64)) % 4 * 64 + sextet (symbol (c % 64)) ≡ c
third_byte b c h =
    rw (sextet-symbol (b % 16 * 4 + c / 64) (omega arith), sextet-symbol (c % 64) (omega arith))
      (omega arith)

-- Bytes are read back from their base64 text.
pub decode-encode : (bs : List ℕ) → AllBytes bs → decode (encode bs) ≡ bs
unfolding encode decode
decode-encode [] h = refl
decode-encode (a ∷ []) (ha, _) =
    rw (sextet-symbol (a / 4) (omega arith), sextet-symbol (a % 4 * 16) (omega arith))
      (ap (λ x. x ∷ []) (omega arith))
decode-encode (a ∷ b ∷ []) (ha, (hb, _)) =
    rw
      (
        sextet-symbol (a / 4) (omega arith),
        sextet-symbol (a % 4 * 16 + b / 16) (omega arith),
        sextet-symbol (b % 16 * 4) (omega arith),
      )
      (ap₂ (λ x y. x ∷ y ∷ []) (omega arith) (omega arith))
decode-encode (a ∷ b ∷ c ∷ rest) (ha, (hb, (hc, h))) =
    rw (first_byte a b ha hb, second_byte a b c hb hc, third_byte b c hc, decode-encode rest h) refl

-- The text of bytes uses only characters of the alphabet.
pub all-encode : (bs : List ℕ) → AllBytes bs → all is_url_character (encode bs) ≡ true
unfolding encode
all-encode [] h = refl
all-encode (a ∷ []) (ha, _) =
    rw
      (
        is_url_character-symbol (a / 4) (omega arith),
        is_url_character-symbol (a % 4 * 16) (omega arith),
      )
      refl
all-encode (a ∷ b ∷ []) (ha, (hb, _)) =
    rw
      (
        is_url_character-symbol (a / 4) (omega arith),
        is_url_character-symbol (a % 4 * 16 + b / 16) (omega arith),
        is_url_character-symbol (b % 16 * 4) (omega arith),
      )
      refl
all-encode (a ∷ b ∷ c ∷ rest) (ha, (hb, (hc, h))) =
    rw
      (
        is_url_character-symbol (a / 4) (omega arith),
        is_url_character-symbol (a % 4 * 16 + b / 16) (omega arith),
        is_url_character-symbol (b % 16 * 4 + c / 64) (omega arith),
        is_url_character-symbol (c % 64) (omega arith),
      )
      (all-encode rest h)

pub length-encode :
    (bs : List ℕ)
    → (4 * length bs ≤ 3 * length (encode bs)) × (3 * length (encode bs) ≤ 4 * length bs + 2)
unfolding encode
length-encode [] = (omega arith, omega arith)
length-encode (a ∷ []) = (omega arith, omega arith)
length-encode (a ∷ b ∷ []) = (omega arith, omega arith)
length-encode (a ∷ b ∷ c ∷ rest) = let (l, u) = length-encode rest in (omega arith, omega arith)
