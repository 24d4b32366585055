-- ===== src/Discord/RoleMap.antt =====
-- The role map of apps/web/lib/discord-auth.ts: its parsing, and the role of a member. `JSON.parse` has
-- been applied. Role ids are texts; a Set of ids is the list of those added.
pub mod Laws
pub mod Highest
use ivrm_dashboard.Prelude.{
  ℕ, ◌+◌, Bool, true, false, not, ◌&&◌, ◌||◌, ◌==◌, List, [], ◌∷◌, ◌++◌, Option, none, some, String,
  str_eq, any, all, filter, length, if◌then◌else◌, ltb, leb, or_else,
}
use ivrm_dashboard.Prelude.Ascii.{matches, is_digit}
use ivrm_dashboard.Auth.Types.{ConsoleRole, viewer, operator, administrator, owner}
use ivrm_dashboard.Operation.Json.{
  Json, json_null, json_string, json_array, json_object, JsonItems, no_items, item, JsonFields,
  lookup, keys,
}

-- `Record<ConsoleRole, readonly string[]>`
pub record RoleMap : Type 0 where
  pub owners : List String
  pub administrators : List String
  pub operators : List String
  pub viewers : List String

abbrev pub ids_of : RoleMap → ConsoleRole → List String
ids_of map owner = map.owners
ids_of map administrator = map.administrators
ids_of map operator = map.operators
ids_of map viewer = map.viewers

-- `isConsoleRole` of a key
abbrev pub is_role_key : String → Bool
is_role_key key =
    str_eq key "owner" || str_eq key "administrator" || str_eq key "operator" || str_eq key "viewer"

-- The state of the loops: the ids seen, and those of the role so far.
pub record RoleScan : Type 0 where
  pub seen : List String
  pub role_ids : List String

-- The loop over the ids of one role, none where it throws.
unfoldable pub scan_ids : List String → List String → JsonItems → Option RoleScan
unfolding matches
scan_ids seen role_ids no_items = some (record { seen = seen; role_ids = role_ids })
scan_ids seen role_ids (item (json_string id) rest) =
    let others = scan_ids (seen ++ id ∷ []) (role_ids ++ id ∷ []) rest in
    if not (matches is_digit 17 20 id) then none else if any (str_eq id) seen then none else others
scan_ids seen role_ids (item _ rest) = none

abbrev count_items : JsonItems → ℕ
count_items no_items = 0
count_items (item _ rest) = 1 + count_items rest

-- The round of one role, whose value is `parsed[role] ?? []`.
unfoldable pub scan_role : List String → Option Json → Option RoleScan
unfolding scan_ids
scan_role seen none = some (record { seen = seen; role_ids = [] })
scan_role seen (some json_null) = some (record { seen = seen; role_ids = [] })
scan_role seen (some (json_array items)) =
    if ltb 16 (count_items items) then none else scan_ids seen [] items
scan_role seen (some _) = none

abbrev bind : {A B : Type 0} → Option A → (A → Option B) → Option B
bind none f = none
bind (some a) f = f a

-- The map of the four scans, if any id is configured.
abbrev pub configured_map : RoleScan → RoleScan → RoleScan → RoleScan → Option RoleMap
configured_map a b c d =
    if length d.seen == 0
    then none
    else some (record {
      owners = a.role_ids;
      administrators = b.role_ids;
      operators = c.role_ids;
      viewers = d.role_ids;
    })

-- The rounds that are left after those of the roles so far.
abbrev pub after_operators : JsonFields → RoleScan → RoleScan → RoleScan → Option RoleMap
unfolding scan_role
after_operators entries a b c =
    bind (scan_role c.seen (lookup "viewer" entries)) (configured_map a b c)

abbrev pub after_administrators : JsonFields → RoleScan → RoleScan → Option RoleMap
unfolding after_operators scan_role
after_administrators entries a b =
    bind (scan_role b.seen (lookup "operator" entries)) (after_operators entries a b)

abbrev pub after_owners : JsonFields → RoleScan → Option RoleMap
unfolding after_administrators scan_role
after_owners entries a =
    bind (scan_role a.seen (lookup "administrator" entries)) (after_administrators entries a)

-- `parseRoleMap`, in the order of `DISCORD_ROLE_ORDER`.
unfoldable pub parse_role_map : Option Json → Option RoleMap
unfolding after_owners scan_role
parse_role_map (some (json_object entries)) =
    if not (all is_role_key (keys entries))
    then none
    else bind (scan_role [] (lookup "owner" entries)) (after_owners entries)
parse_role_map _ = none

pub record RoleResolution : Type 0 where
  pub console_role : ConsoleRole
  pub matched_role_ids : List String

abbrev pub matched : List String → List String → List String
matched member_role_ids ids = filter (λ id. any (str_eq id) member_role_ids) ids

-- The loop of `resolveDiscordConsoleRole` over the roles that are left.
unfoldable pub resolve_from : List String → RoleMap → List ConsoleRole → Option RoleResolution
resolve_from member_role_ids map [] = none
resolve_from member_role_ids map (role ∷ rest) =
    let lower = resolve_from member_role_ids map rest in
    let ids = matched member_role_ids (ids_of map role) in
    if not (length ids == 0)
    then some (record { console_role = role; matched_role_ids = ids })
    else lower

-- `DISCORD_ROLE_ORDER`
abbrev pub role_order : List ConsoleRole
role_order = owner ∷ administrator ∷ operator ∷ viewer ∷ []

-- `resolveDiscordConsoleRole`
unfoldable pub resolve_discord_console_role : List String → RoleMap → Option RoleResolution
unfolding resolve_from
resolve_discord_console_role member_role_ids map = resolve_from member_role_ids map role_order
