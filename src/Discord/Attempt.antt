-- ===== src/Discord/Attempt.antt =====
-- apps/web/lib/discord-oauth-cookies.ts: the signed state that a sign-in carries to Discord and back, and
-- the cookie that ties it to the browser. The hash, the HMAC, UTF-8 and the 24 random bytes are
-- parameters; times are milliseconds from the Unix epoch. What throws or is refused is none.
pub mod Fields
pub mod RoundTrip
pub mod Sound
use ivrm_dashboard.Prelude.{
  ℕ, ◌+◌, ◌-◌, ◌*◌, ◌/◌, ◌%◌, Bool, true, false, not, ◌&&◌, ◌||◌, ◌==◌, List, [], ◌∷◌, ◌++◌, Option,
  none, some, if◌then◌else◌, ltb, leb, length, all,
}
use ivrm_dashboard.Prelude.Ascii.{codes}
use ivrm_dashboard.Prelude.Bytes.{take, drop, same_bytes}
use ivrm_dashboard.Discord.Base64.{encode, decode, is_url_character}
use ivrm_dashboard.Discord.ReturnPath.{ParsedUrl, root_path, sanitize_return_path}

pub record OAuthAttempt : Type 0 where
  pub state : List ℕ
  pub return_to : List ℕ
  pub cookie_name : List ℕ
  pub cookie_value : List ℕ

-- `OAUTH_STATE_CONTEXT`
abbrev pub state_context : List ℕ
state_context = codes "ivrm-discord-oauth-state-v1" ++ 0 ∷ []

-- `OAUTH_STATE_HEADER_BYTES` and the other sizes
abbrev pub header_bytes : ℕ
header_bytes = 31

abbrev pub signature_bytes : ℕ
signature_bytes = 32

abbrev pub return_path_max_bytes : ℕ
return_path_max_bytes = 512

-- `writeUInt32BE` and `writeUInt16BE`
abbrev pub be32 : ℕ → List ℕ
be32 n = n / 16777216 % 256 ∷ n / 65536 % 256 ∷ n / 256 % 256 ∷ n % 256 ∷ []

abbrev pub be16 : ℕ → List ℕ
be16 n = n / 256 % 256 ∷ n % 256 ∷ []

-- `readUInt8(0)`, `readUInt32BE(0)` and `readUInt16BE(0)`, of enough bytes
abbrev pub read8 : List ℕ → ℕ
read8 [] = 0
read8 (a ∷ _) = a

abbrev pub read32 : List ℕ → ℕ
read32 (a ∷ b ∷ c ∷ d ∷ _) = a * 16777216 + b * 65536 + c * 256 + d
read32 _ = 0

abbrev pub read16 : List ℕ → ℕ
read16 (a ∷ b ∷ _) = a * 256 + b
read16 _ = 0

abbrev hex_symbol : ℕ → ℕ
hex_symbol n = if ltb n 10 then n + b'0' else n + 87

-- `slot.toString(16).padStart(2, "0")`, below 256
abbrev hex2 : ℕ → List ℕ
hex2 n = hex_symbol (n / 16) ∷ hex_symbol (n % 16) ∷ []

-- `oauthCookieNameFromFingerprint`
unfoldable pub cookie_name_of : List ℕ → List ℕ
cookie_name_of fingerprint =
    codes "__Host-ivrm_discord_oauth_slot_" ++ hex2 (read16 fingerprint % 32)

-- `OAUTH_STATE_TOKEN_PATTERN` and `OAUTH_COOKIE_FINGERPRINT_PATTERN`
unfoldable pub is_token : ℕ → ℕ → List ℕ → Bool
is_token lo hi text = all is_url_character text && leb lo (length text) && leb (length text) hi

-- The bytes that are signed.
unfoldable pub payload_of : ℕ → List ℕ → List ℕ → List ℕ
payload_of issued_at_seconds nonce return_bytes =
    1 ∷ be32 issued_at_seconds ++ (nonce ++ (be16 (length return_bytes) ++ return_bytes))

abbrev pub is_empty : List ℕ → Bool
is_empty [] = true
is_empty (_ ∷ _) = false

module _ (parse_url : List ℕ → Option ParsedUrl) (utf8 : List ℕ → List ℕ)
    (from_utf8 : List ℕ → List ℕ) (sha256 : List ℕ → List ℕ) (hmac : List ℕ → List ℕ → List ℕ) where
  -- `signPayload`
  unfoldable pub sign_payload : List ℕ → List ℕ → List ℕ
  sign_payload payload client_secret = hmac client_secret (state_context ++ payload)

  -- `safeReturnPath`
  unfoldable pub safe_return_path : List ℕ → List ℕ
  unfolding sanitize_return_path
  safe_return_path value =
      let sanitized = sanitize_return_path parse_url (some value) in
      if leb (length (utf8 sanitized)) return_path_max_bytes then sanitized else root_path

  -- The attempt for a safe return path.
  unfoldable pub attempt_of : List ℕ → List ℕ → ℕ → List ℕ → OAuthAttempt
  unfolding sign_payload payload_of cookie_name_of encode
  attempt_of return_to client_secret issued_at_seconds nonce =
      let payload = payload_of issued_at_seconds nonce (utf8 return_to) in
      let state = encode (payload ++ sign_payload payload client_secret) in
      record {
        state = state;
        return_to = return_to;
        cookie_name = cookie_name_of (sha256 state);
        cookie_value = encode (sha256 state);
      }

  -- `createDiscordOAuthAttempt`
  unfoldable pub create_discord_oauth_attempt : List ℕ → List ℕ → ℕ → List ℕ → Option OAuthAttempt
  unfolding safe_return_path attempt_of
  create_discord_oauth_attempt return_path client_secret issued_at_milliseconds nonce =
      if is_empty client_secret
      then none
      else if ltb 0xffffffff (issued_at_milliseconds / 1000)
      then none
      else some (
          attempt_of (safe_return_path return_path) client_secret (issued_at_milliseconds / 1000)
            nonce)

  -- `getDiscordOAuthSlotCookieName`
  unfoldable pub get_discord_oauth_slot_cookie_name : Option (List ℕ) → Option (List ℕ)
  unfolding is_token cookie_name_of
  get_discord_oauth_slot_cookie_name none = none
  get_discord_oauth_slot_cookie_name (some state) =
      if is_token 80 800 state then some (cookie_name_of (sha256 state)) else none

  -- The checks of `verifyDiscordOAuthAttempt` on a payload whose signature is right.
  unfoldable pub verify_payload : List ℕ → List ℕ → List ℕ → ℕ → Option (List ℕ)
  unfolding safe_return_path encode
  verify_payload payload returned_state cookie_value now_seconds =
      let issued_at_seconds = read32 (drop 1 payload) in
      let return_length = read16 (drop 29 payload) in
      if not (read8 payload == 1)
      then none
      else if ltb (now_seconds + 30) issued_at_seconds || ltb (issued_at_seconds + 600) now_seconds
      then none
      else if ltb return_length 1
          || ltb return_path_max_bytes return_length
          || not (length payload == header_bytes + return_length)
      then none
      else if not (same_bytes (encode (sha256 returned_state)) cookie_value)
      then none
      else some (safe_return_path (from_utf8 (drop header_bytes payload)))

  -- The length and the signature of the decoded state.
  unfoldable pub verify_encoded : List ℕ → List ℕ → List ℕ → List ℕ → ℕ → Option (List ℕ)
  unfolding verify_payload sign_payload
  verify_encoded encoded returned_state cookie_value client_secret now_seconds =
      let payload = take (length encoded - signature_bytes) encoded in
      let signature = drop (length encoded - signature_bytes) encoded in
      if ltb (length encoded) (header_bytes + 1 + signature_bytes)
        || ltb (header_bytes + return_path_max_bytes + signature_bytes) (length encoded)
      then none
      else if not (same_bytes signature (sign_payload payload client_secret))
      then none
      else verify_payload payload returned_state cookie_value now_seconds

  -- `verifyDiscordOAuthAttempt`, with the return path of the result
  unfoldable pub verify_discord_oauth_attempt :
      Option (List ℕ) → Option (List ℕ) → List ℕ → ℕ → Option (List ℕ)
  unfolding verify_encoded is_token decode
  verify_discord_oauth_attempt (some returned_state) (some cookie_value) client_secret
        now_milliseconds =
      if is_empty client_secret
        || not (is_token 80 800 returned_state)
        || not (is_token 43 43 cookie_value)
      then none
      else verify_encoded (decode returned_state) returned_state cookie_value client_secret
          (now_milliseconds / 1000)
  verify_discord_oauth_attempt _ _ client_secret now_milliseconds = none
