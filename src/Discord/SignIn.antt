-- ===== src/Discord/SignIn.antt =====
-- A sign-in from app/api/auth/discord/start/route.ts to app/api/auth/discord/callback/route.ts, as far as
-- the state and the return path go.
use ivrm_dashboard.Prelude.{
  ℕ, ◌+◌, ◌/◌, ◌≤◌, true, false, List, Option, some, length, leb, ◌≡◌, refl, sym, ap, ◌∙◌, arith,
  inl, inr,
}
use ivrm_dashboard.Prelude.Tests.{Bool-cases}
use ivrm_dashboard.Prelude.Bytes.{AllBytes}
use ivrm_dashboard.Discord.ReturnPath.{ParsedUrl, root_path, sanitize_return_path}
use ivrm_dashboard.Discord.ReturnPath.Laws.{
  ReadsBack, root_url, IsLocal, sanitize_twice-IsLocal, sanitize-some, root-sanitize,
}
use ivrm_dashboard.Discord.Attempt.{
  OAuthAttempt, attempt_of, safe_return_path, create_discord_oauth_attempt,
  verify_discord_oauth_attempt,
}
use ivrm_dashboard.Discord.Attempt.RoundTrip.{IsDigest, IsEncoded, created, attempt-verified}

module _ (parse_url : List ℕ → Option ParsedUrl) (utf8 : List ℕ → List ℕ)
    (from_utf8 : List ℕ → List ℕ) (sha256 : List ℕ → List ℕ) (hmac : List ℕ → List ℕ → List ℕ) where
  safe-short :
      (value : List ℕ)
      → leb (length (utf8 (sanitize_return_path parse_url (some value)))) 512 ≡ true
      → safe_return_path parse_url utf8 from_utf8 sha256 hmac value
        ≡ sanitize_return_path parse_url (some value)
  unfolding safe_return_path
  safe-short value h = rw h refl

  safe-long :
      (value : List ℕ)
      → leb (length (utf8 (sanitize_return_path parse_url (some value)))) 512 ≡ false
      → safe_return_path parse_url utf8 from_utf8 sha256 hmac value ≡ root_path
  unfolding safe_return_path
  safe-long value h = rw h refl

  -- A return path that the start route made is safe again as it is.
  safe_again :
      ReadsBack parse_url
      → parse_url root_path ≡ some root_url
      → (raw : Option (List ℕ)) (return_to : List ℕ)
      → return_to
        ≡ safe_return_path parse_url utf8 from_utf8 sha256 hmac (sanitize_return_path parse_url raw)
      → length (utf8 return_to) ≤ 512
      → IsLocal return_to
        × (safe_return_path parse_url utf8 from_utf8 sha256 hmac return_to ≡ return_to)
  safe_again reads root raw return_to e h =
      let once = sanitize_return_path parse_url raw in
      let twice = sanitize_return_path parse_url (some once) in
      elim (Bool-cases (leb (length (utf8 twice)) 512)) [
        | inl short ↦
            let here = e ∙ safe-short once short in
            let (l, again) = sanitize_twice-IsLocal parse_url reads root raw return_to here in
            (l, safe-short return_to (rw again (ground (arith))) ∙ again)
        | inr long ↦
            let here = e ∙ safe-long once long in
            let again : sanitize_return_path parse_url (some root_path) ≡ root_path =
              sanitize-some parse_url root_path ∙ root-sanitize parse_url root in
            let k : length (utf8 root_path) ≤ 512 =
              let same = ap (λ t. length (utf8 t)) here in omega arith in
            rw here ((refl, refl), safe-short root_path (rw again (ground (arith))) ∙ again)
      ]

  -- A sign-in that comes back: where the start route made an attempt for the return path of the request,
  -- sanitised, the callback that gets the attempt's state and cookie, no more than 600 seconds later
  -- and no more than 30 seconds before, accepts them and goes on to the attempt's return path, which
  -- begins with one slash and no second one. The conditions on the runtime are that the HMAC and the
  -- hash are 32 bytes, the nonce 24, that UTF-8 reads the return path back and gives 1 to 512 bytes
  -- for it, and that the parser of URLs reads the root path as the root of the console and reads back
  -- the path and query of a URL of the console that it got from a text that begins with a slash.
  pub verify-create :
      ReadsBack parse_url
      → parse_url root_path ≡ some root_url
      → ((key text : List ℕ) → IsDigest (hmac key text))
      → ((text : List ℕ) → IsDigest (sha256 text))
      → (raw : Option (List ℕ)) (secret nonce : List ℕ) (issued now : ℕ) (attempt : OAuthAttempt)
      → create_discord_oauth_attempt parse_url utf8 from_utf8 sha256 hmac
          (sanitize_return_path parse_url raw)
          secret
          issued
          nonce
        ≡ some attempt
      → IsEncoded utf8 from_utf8 attempt.return_to
      → length nonce ≡ 24
      → AllBytes nonce
      → issued / 1000 ≤ now / 1000 + 30
      → now / 1000 ≤ issued / 1000 + 600
      → (verify_discord_oauth_attempt parse_url utf8 from_utf8 sha256 hmac
            (some attempt.state)
            (some attempt.cookie_value)
            secret
            now
          ≡ some attempt.return_to)
        × IsLocal attempt.return_to
  unfolding attempt_of
  verify-create reads root hd sd raw secret nonce issued now attempt c u nl nb t1 t2 =
      let path = sanitize_return_path parse_url raw in
      let return_to = safe_return_path parse_url utf8 from_utf8 sha256 hmac path in
      let (es, hs, same) =
        created parse_url utf8 from_utf8 sha256 hmac path secret nonce issued attempt c in
      let e : attempt.return_to ≡ return_to = sym (ap (λ a. a.return_to) same) in
      let (l, again) = safe_again reads root raw attempt.return_to e u.3 in
      let v =
        attempt-verified parse_url utf8 from_utf8 sha256 hmac return_to secret nonce (issued / 1000)
          now hd sd (rw (sym e) u) nl nb es hs t1 t2 in
      (
        ap
              (λ a.
                verify_discord_oauth_attempt parse_url utf8 from_utf8 sha256 hmac (some a.state)
                  (some a.cookie_value) secret now)
              (sym same)
            ∙ v
            ∙ ap (λ t. some (safe_return_path parse_url utf8 from_utf8 sha256 hmac t)) (sym e)
            ∙ ap some again,
        l,
      )
