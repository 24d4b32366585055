-- ===== src/Tests/Discord.antt =====
-- A sign-in and a role map, of apps/web/lib/discord-oauth-cookies.ts and discord-auth.ts.
use ivrm_dashboard.Prelude.{
  ℕ, ◌/◌, ◌≤◌, List, [], ◌∷◌, ◌++◌, Option, some, String, length, ◌≡◌, refl, sym, ap, arith,
}
use ivrm_dashboard.Prelude.Ascii.{codes, matches}
use ivrm_dashboard.Prelude.Bytes.{append_nil}
use ivrm_dashboard.Auth.Types.{operator, owner}
use ivrm_dashboard.Operation.Json.{
  Json, json_string, json_array, json_object, no_items, item, no_fields, field,
}
use ivrm_dashboard.Discord.Base64.{decode}
use ivrm_dashboard.Discord.ReturnPath.{
  ParsedUrl, console_origin, root_path, sanitize_return_path, sanitize, path_of_url, is_foreign,
}
use ivrm_dashboard.Discord.ReturnPath.Laws.{ReadsBack, IsLocal, sanitize_twice-IsLocal}
use ivrm_dashboard.Discord.Attempt.{
  OAuthAttempt, create_discord_oauth_attempt, verify_discord_oauth_attempt, attempt_of,
  safe_return_path, sign_payload,
}
use ivrm_dashboard.Discord.Attempt.RoundTrip.{IsDigest, IsEncoded}
use ivrm_dashboard.Discord.Attempt.Sound.{IsTimely, verify_sound}
use ivrm_dashboard.Discord.SignIn.{verify-create}
use ivrm_dashboard.Discord.RoleMap.{
  RoleMap, RoleResolution, ids_of, matched, parse_role_map, scan_role, scan_ids,
  resolve_discord_console_role, resolve_from,
}
use ivrm_dashboard.Discord.RoleMap.Laws.{all_ids, parse_role_map-bounds, parse_role_map_unique}
use ivrm_dashboard.Discord.RoleMap.Highest.{held, IsBelow, resolve-highest}

-- A parser that takes every text for a path of the console.
abbrev path_url : List ℕ → ParsedUrl
path_url value = record { origin = console_origin; pathname = value; search = [] }

abbrev parse_url : List ℕ → Option ParsedUrl
parse_url value = some (path_url value)

some-url : (a b : ParsedUrl) → some a ≡ some b → a ≡ b
some-url a b h = ground (arith)

parse_url-ReadsBack : ReadsBack parse_url
parse_url-ReadsBack value parsed s h o n =
    let e = some-url (path_url value) parsed h in rw (sym e) (ap parse_url (append_nil value))

abbrev same_text : List ℕ → List ℕ
same_text text = text

abbrev digest : List ℕ
digest =
    7 ∷ 35 ∷ 69 ∷ 103 ∷ 137 ∷ 171 ∷ 205 ∷ 239 ∷ 1 ∷ 35 ∷ 69 ∷ 103 ∷ 137 ∷ 171 ∷ 205 ∷ 239 ∷ 1 ∷ 35
    ∷ 69 ∷ 103 ∷ 137 ∷ 171 ∷ 205 ∷ 239 ∷ 1 ∷ 35 ∷ 69 ∷ 103 ∷ 137 ∷ 171 ∷ 205 ∷ 239 ∷ []

abbrev sha256 : List ℕ → List ℕ
sha256 text = digest

abbrev hmac : List ℕ → List ℕ → List ℕ
hmac key text = digest

digest-IsDigest : IsDigest digest
digest-IsDigest = ground (arith)

abbrev nonce : List ℕ
nonce =
    1 ∷ 2 ∷ 3 ∷ 4 ∷ 5 ∷ 6 ∷ 7 ∷ 8 ∷ 9 ∷ 10 ∷ 11 ∷ 12 ∷ 13 ∷ 14 ∷ 15 ∷ 16 ∷ 17 ∷ 18 ∷ 19 ∷ 20 ∷ 21
    ∷ 22 ∷ 23 ∷ 24 ∷ []

abbrev hosts_attempt : OAuthAttempt
hosts_attempt =
    attempt_of parse_url same_text same_text sha256 hmac (codes "/hosts") (codes "secret")
      1785542400 nonce

create_test :
    create_discord_oauth_attempt parse_url same_text same_text sha256 hmac
      (sanitize_return_path parse_url (some (codes "/hosts")))
      (codes "secret")
      1785542400123
      nonce
    ≡ some hosts_attempt
unfolding create_discord_oauth_attempt safe_return_path sanitize_return_path sanitize is_foreign
    path_of_url
create_test = refl

hosts-IsEncoded : IsEncoded same_text same_text hosts_attempt.return_to
unfolding attempt_of
hosts-IsEncoded = (refl, ground (arith), omega arith, omega arith)

verify-create_example :
    (verify_discord_oauth_attempt parse_url same_text same_text sha256 hmac
        (some hosts_attempt.state)
        (some hosts_attempt.cookie_value)
        (codes "secret")
        1785542500000
      ≡ some hosts_attempt.return_to)
    × IsLocal hosts_attempt.return_to
verify-create_example =
    verify-create parse_url same_text same_text sha256 hmac parse_url-ReadsBack refl
      (λ key text. digest-IsDigest) (λ text. digest-IsDigest) (some (codes "/hosts"))
      (codes "secret") nonce 1785542400123 1785542500000 hosts_attempt create_test hosts-IsEncoded
      refl (ground (arith)) (omega arith) (omega arith)

returned_test :
    (verify_discord_oauth_attempt parse_url same_text same_text sha256 hmac
        (some hosts_attempt.state)
        (some hosts_attempt.cookie_value)
        (codes "secret")
        1785542500000
      ≡ some hosts_attempt.return_to)
    × IsLocal hosts_attempt.return_to
returned_test =
    verify-create parse_url same_text same_text sha256 hmac parse_url-ReadsBack refl
      (λ key text. digest-IsDigest) (λ text. digest-IsDigest) (some (codes "/hosts"))
      (codes "secret") nonce 1785542400123 1785542500000 hosts_attempt create_test hosts-IsEncoded
      refl (ground (arith)) (omega arith) (omega arith)

verify_sound_example :
    (payload : List ℕ) × (decode hosts_attempt.state
      ≡ payload ++ sign_payload parse_url same_text same_text sha256 hmac payload (codes "secret"))
    × IsTimely parse_url same_text same_text sha256 hmac payload hosts_attempt.state
        hosts_attempt.cookie_value
        (1785542500000 / 1000)
        hosts_attempt.return_to
verify_sound_example =
    verify_sound parse_url same_text same_text sha256 hmac hosts_attempt.state
      hosts_attempt.cookie_value (codes "secret") 1785542500000 hosts_attempt.return_to
      returned_test.0

sanitize_twice-IsLocal_example :
    IsLocal root_path × (sanitize_return_path parse_url (some root_path) ≡ root_path)
unfolding sanitize_return_path sanitize is_foreign path_of_url
sanitize_twice-IsLocal_example =
    sanitize_twice-IsLocal parse_url parse_url-ReadsBack refl (some (codes "//evil.example"))
      root_path refl

abbrev role_json : Json
role_json = json_object (
    field "operator" (json_array (item (json_string "222222222222222222") no_items))
      (field "owner" (json_array (item (json_string "111111111111111111") no_items)) no_fields))

abbrev role_map : RoleMap
role_map = record {
  owners = "111111111111111111" ∷ [];
  administrators = [];
  operators = "222222222222222222" ∷ [];
  viewers = [];
}

role_map_test : parse_role_map (some role_json) ≡ some role_map
unfolding parse_role_map scan_role scan_ids matches
role_map_test = refl

parse_role_map-bounds_example :
    (1 ≤ length (all_ids role_map)) × (length (ids_of role_map operator) ≤ 16)
parse_role_map-bounds_example =
    parse_role_map-bounds (some role_json) role_map operator role_map_test

parse_role_map_unique_example : operator ≡ operator
parse_role_map_unique_example =
    parse_role_map_unique (some role_json) role_map "222222222222222222" operator operator
      role_map_test refl refl

abbrev member : List String
member = "999999999999999999" ∷ "222222222222222222" ∷ []

abbrev resolution : RoleResolution
resolution = record { console_role = operator; matched_role_ids = "222222222222222222" ∷ [] }

resolve_test : resolve_discord_console_role member role_map ≡ some resolution
unfolding resolve_discord_console_role resolve_from
resolve_test = refl

resolve-highest_example :
    (resolution.matched_role_ids ≡ matched member (ids_of role_map resolution.console_role))
    × (1 ≤ held member role_map resolution.console_role)
    × IsBelow member role_map owner resolution.console_role
resolve-highest_example = resolve-highest member role_map resolution owner resolve_test
