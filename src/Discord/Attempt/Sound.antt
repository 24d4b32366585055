-- ===== src/Discord/Attempt/Sound.antt =====
-- What verifyDiscordOAuthAttempt accepts.
use ivrm_dashboard.Prelude.{
  ℕ, ◌+◌, ◌-◌, ◌/◌, ◌≤◌, Bool, true, false, not, List, ◌++◌, Option, none, some, length, ◌≡◌, refl,
  sym, ap, ◌∙◌, arith, if◌then◌else◌,
}
use ivrm_dashboard.Prelude.Bytes.{take, drop, same-bytes, take-drop}
use ivrm_dashboard.Discord.Base64.{encode, decode}
use ivrm_dashboard.Discord.ReturnPath.{ParsedUrl}
use ivrm_dashboard.Discord.Attempt.{
  sign_payload, safe_return_path, verify_payload, verify_encoded, verify_discord_oauth_attempt,
  read8, read32, read16,
}

-- What a guard that passed says.
guarded :
    (b : Bool) (found : Option (List ℕ)) (result : List ℕ)
    → (if b then none else found) ≡ some result
    → (b ≡ false) × (found ≡ some result)
guarded true found result h = ground (arith)
guarded false found result h = (refl, h)

not-false : (b : Bool) → not b ≡ false → b ≡ true
not-false true h = refl
not-false false h = ground (arith)

module _ (parse_url : List ℕ → Option ParsedUrl) (utf8 : List ℕ → List ℕ)
    (from_utf8 : List ℕ → List ℕ) (sha256 : List ℕ → List ℕ) (hmac : List ℕ → List ℕ → List ℕ) where
  -- A payload that is in time, for this state and cookie.
  abbrev pub IsTimely : List ℕ → List ℕ → List ℕ → ℕ → List ℕ → Type 0
  IsTimely payload state cookie now_seconds result =
      (read8 payload ≡ 1)
      × (read32 (drop 1 payload) ≤ now_seconds + 30)
      × (now_seconds ≤ read32 (drop 1 payload) + 600)
      × (length payload ≡ 31 + read16 (drop 29 payload))
      × (encode (sha256 state) ≡ cookie)
      × (result
          ≡ safe_return_path parse_url utf8 from_utf8 sha256 hmac (from_utf8 (drop 31 payload)))

  payload_sound :
      (payload state cookie : List ℕ) (now_seconds : ℕ) (result : List ℕ)
      → verify_payload parse_url utf8 from_utf8 sha256 hmac payload state cookie now_seconds
        ≡ some result
      → IsTimely payload state cookie now_seconds result
  unfolding verify_payload
  payload_sound payload state cookie now_seconds result h = (
    ground (arith),
    ground (arith),
    ground (arith),
    ground (arith),
    same-bytes (encode (sha256 state)) cookie (ground (arith)),
    ground (arith),
  )

  encoded_sound :
      (encoded state cookie secret : List ℕ) (now_seconds : ℕ) (result : List ℕ)
      → verify_encoded parse_url utf8 from_utf8 sha256 hmac encoded state cookie secret now_seconds
        ≡ some result
      → (payload : List ℕ) × (encoded
          ≡ payload ++ sign_payload parse_url utf8 from_utf8 sha256 hmac payload secret)
        × IsTimely payload state cookie now_seconds result
  unfolding verify_encoded
  encoded_sound encoded state cookie secret now_seconds result h =
      let payload = take (length encoded - 32) encoded in
      let (short, rest) = guarded _ _ result h in
      let (checked, verified) = guarded _ _ result rest in
      let signed =
        same-bytes (drop (length encoded - 32) encoded)
          (sign_payload parse_url utf8 from_utf8 sha256 hmac payload secret)
          (not-false _ checked) in
      (
        payload,
        sym (take-drop (length encoded - 32) encoded) ∙ ap (λ s. payload ++ s) signed,
        payload_sound payload state cookie now_seconds result verified,
      )

  -- A state is accepted only if its bytes are a payload followed by the payload's signature under the
  -- client secret, the payload is of version 1, was issued no more than 600 seconds ago and no more
  -- than 30 seconds ahead, and is as long as it says, and the cookie is the fingerprint of this very
  -- state: a state that another browser began, or that was changed, is refused. The result is the
  -- return path of the payload, made safe.
  pub verify_sound :
      (state cookie secret : List ℕ) (now : ℕ) (result : List ℕ)
      → verify_discord_oauth_attempt parse_url utf8 from_utf8 sha256 hmac
          (some state)
          (some cookie)
          secret
          now
        ≡ some result
      → (payload : List ℕ) × (decode state
          ≡ payload ++ sign_payload parse_url utf8 from_utf8 sha256 hmac payload secret)
        × IsTimely payload state cookie (now / 1000) result
  unfolding verify_discord_oauth_attempt
  verify_sound state cookie secret now result h =
      encoded_sound (decode state) state cookie secret (now / 1000) result (ground (arith))
