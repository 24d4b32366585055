-- ===== src/Discord/Attempt/RoundTrip.antt =====
-- A state that createDiscordOAuthAttempt made, as verifyDiscordOAuthAttempt reads it.
use ivrm_dashboard.Prelude.{
  ℕ, ◌+◌, ◌/◌, ◌<◌, ◌≤◌, true, false, List, ◌++◌, Option, some, length, ◌≡◌, ap, ◌∙◌, arith,
}
use ivrm_dashboard.Prelude.Bytes.{AllBytes, AllBytes-append, length-append, same_refl}
use ivrm_dashboard.Discord.Base64.{encode}
use ivrm_dashboard.Discord.Base64.Laws.{decode-encode, all-encode, length-encode}
use ivrm_dashboard.Discord.ReturnPath.{ParsedUrl}
use ivrm_dashboard.Discord.Attempt.{
  OAuthAttempt, payload_of, sign_payload, safe_return_path, attempt_of, is_token, verify_payload,
  verify_encoded, verify_discord_oauth_attempt, create_discord_oauth_attempt, is_empty,
  state_context,
}
use ivrm_dashboard.Discord.Attempt.Fields.{
  payload-version, payload-issued, payload-length_field, payload-return_bytes, length-payload_of,
  AllBytes-payload_of, split-payload,
}

-- A function whose values are 32 bytes.
abbrev pub IsDigest : List ℕ → Type 0
IsDigest bytes = (length bytes ≡ 32) × AllBytes bytes

-- The text of bytes is a token, if its length is in the bounds.
token-encode :
    (lo hi : ℕ) (bytes : List ℕ)
    → AllBytes bytes
    → lo ≤ length (encode bytes)
    → length (encode bytes) ≤ hi
    → is_token lo hi (encode bytes) ≡ true
unfolding is_token
token-encode lo hi bytes h l u = rw (all-encode bytes h) (ground (arith))

-- A text in UTF-8 that is read back.
abbrev pub IsEncoded : (List ℕ → List ℕ) → (List ℕ → List ℕ) → List ℕ → Type 0
IsEncoded utf8 from_utf8 text =
    (from_utf8 (utf8 text) ≡ text)
    × AllBytes (utf8 text)
    × (1 ≤ length (utf8 text))
    × (length (utf8 text) ≤ 512)

module _ (parse_url : List ℕ → Option ParsedUrl) (utf8 : List ℕ → List ℕ)
    (from_utf8 : List ℕ → List ℕ) (sha256 : List ℕ → List ℕ) (hmac : List ℕ → List ℕ → List ℕ) where
  payload-verified :
      (s now : ℕ) (nonce bytes state : List ℕ)
      → s < 4294967296
      → length nonce ≡ 24
      → 1 ≤ length bytes
      → length bytes ≤ 512
      → s ≤ now + 30
      → now ≤ s + 600
      → verify_payload parse_url utf8 from_utf8 sha256 hmac
          (payload_of s nonce bytes)
          state
          (encode (sha256 state))
          now
        ≡ some (safe_return_path parse_url utf8 from_utf8 sha256 hmac (from_utf8 bytes))
  unfolding verify_payload
  payload-verified s now nonce bytes state hs hn h1 h2 t1 t2 =
      rw
        (
          payload-version s nonce bytes,
          payload-issued s nonce bytes hs,
          payload-length_field s nonce bytes hn h2,
          payload-return_bytes s nonce bytes hn,
          length-payload_of s nonce bytes hn,
          same_refl (encode (sha256 state)),
        )
        (ground (arith))

  encoded-verified :
      (p state cookie secret : List ℕ) (now : ℕ)
      → IsDigest (sign_payload parse_url utf8 from_utf8 sha256 hmac p secret)
      → 32 ≤ length p
      → length p ≤ 543
      → verify_encoded parse_url utf8 from_utf8 sha256 hmac
          (p ++ sign_payload parse_url utf8 from_utf8 sha256 hmac p secret)
          state
          cookie
          secret
          now
        ≡ verify_payload parse_url utf8 from_utf8 sha256 hmac p state cookie now
  unfolding verify_encoded
  encoded-verified p state cookie secret now (d, b) l u =
      let signature = sign_payload parse_url utf8 from_utf8 sha256 hmac p secret in
      let (tp, ts) = split-payload p signature d in
      let n = length-append p signature in rw (tp, ts, same_refl signature) (ground (arith))

  state-verified :
      (p cookie secret : List ℕ) (now : ℕ)
      → is_empty secret ≡ false
      → is_token 43 43 cookie ≡ true
      → IsDigest (sign_payload parse_url utf8 from_utf8 sha256 hmac p secret)
      → AllBytes p
      → 32 ≤ length p
      → length p ≤ 543
      → verify_discord_oauth_attempt parse_url utf8 from_utf8 sha256 hmac
          (some (encode (p ++ sign_payload parse_url utf8 from_utf8 sha256 hmac p secret)))
          (some cookie)
          secret
          now
        ≡ verify_payload parse_url utf8 from_utf8 sha256 hmac p
            (encode (p ++ sign_payload parse_url utf8 from_utf8 sha256 hmac p secret))
            cookie
            (now / 1000)
  unfolding verify_discord_oauth_attempt
  state-verified p cookie secret now es ec (d, b) hp l u =
      let signature = sign_payload parse_url utf8 from_utf8 sha256 hmac p secret in
      let whole = AllBytes-append p signature hp b in
      let n = length-append p signature in
      let (lo, hi) = length-encode (p ++ signature) in
      let token = token-encode 80 800 (p ++ signature) whole (omega arith) (omega arith) in
      rw (es, token, ec, decode-encode (p ++ signature) whole)
        (encoded-verified p (encode (p ++ signature)) cookie secret (now / 1000) (d, b) l u)

  -- The attempt that `create_discord_oauth_attempt` returns, and when.
  pub created :
      (path secret nonce : List ℕ) (issued : ℕ) (attempt : OAuthAttempt)
      → create_discord_oauth_attempt parse_url utf8 from_utf8 sha256 hmac path secret issued nonce
        ≡ some attempt
      → (is_empty secret ≡ false)
        × (issued / 1000 < 4294967296)
        × (attempt_of parse_url utf8 from_utf8 sha256 hmac
              (safe_return_path parse_url utf8 from_utf8 sha256 hmac path)
              secret
              (issued / 1000)
              nonce
            ≡ attempt)
  unfolding create_discord_oauth_attempt
  created path secret nonce issued attempt h = (ground (arith), ground (arith), ground (arith))

  pub attempt-verified :
      (return_to secret nonce : List ℕ) (s now : ℕ)
      → ((key text : List ℕ) → IsDigest (hmac key text))
      → ((text : List ℕ) → IsDigest (sha256 text))
      → IsEncoded utf8 from_utf8 return_to
      → length nonce ≡ 24
      → AllBytes nonce
      → is_empty secret ≡ false
      → s < 4294967296
      → s ≤ now / 1000 + 30
      → now / 1000 ≤ s + 600
      → verify_discord_oauth_attempt parse_url utf8 from_utf8 sha256 hmac
          (some (attempt_of parse_url utf8 from_utf8 sha256 hmac return_to secret s nonce).state)
          (some
            (attempt_of parse_url utf8 from_utf8 sha256 hmac return_to secret s nonce).cookie_value)
          secret
          now
        ≡ some (safe_return_path parse_url utf8 from_utf8 sha256 hmac return_to)
  unfolding attempt_of sign_payload
  attempt-verified return_to secret nonce s now hd sd (back, hb, l, u) nl nb es hs t1 t2 =
      let bytes = utf8 return_to in
      let p = payload_of s nonce bytes in
      let n = length-payload_of s nonce bytes nl in
      let state = encode (p ++ hmac secret (state_context ++ p)) in
      let fingerprint = sha256 state in
      let (fl, fb) = sd state in
      let (lo, hi) = length-encode fingerprint in
      let cookie = token-encode 43 43 fingerprint fb (omega arith) (omega arith) in
      state-verified p (encode fingerprint) secret now es cookie (hd secret (state_context ++ p))
        (AllBytes-payload_of s nonce bytes nb hb) (omega arith) (omega arith)
      ∙ payload-verified s (now / 1000) nonce bytes state hs nl l u t1 t2
      ∙ ap (λ t. some (safe_return_path parse_url utf8 from_utf8 sha256 hmac t)) back
