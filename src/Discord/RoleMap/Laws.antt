-- ===== src/Discord/RoleMap/Laws.antt =====
-- What a role map that was parsed holds.
use ivrm_dashboard.Prelude.{
  ℕ, ◌≤◌, Bool, true, false, not, ◌&&◌, ◌||◌, List, [], ◌∷◌, ◌++◌, Option, none, some, String,
  str_eq, eq_iff, any, any-append, all, length, if◌then◌else◌, ◌≡◌, refl, sym, ap, ap₂, ◌∙◌, arith,
}
use ivrm_dashboard.Prelude.Bytes.{append_assoc, append_nil}
use ivrm_dashboard.Auth.Types.{ConsoleRole, viewer, operator, administrator, owner}
use ivrm_dashboard.Operation.Json.{
  Json, json_null, json_boolean, json_number, json_string, json_array, json_object, JsonItems,
  no_items, item, lookup, keys,
}
use ivrm_dashboard.Discord.RoleMap.{
  RoleMap, ids_of, RoleScan, scan_ids, scan_role, count_items, configured_map, parse_role_map, bind,
  after_owners, after_administrators, after_operators, is_role_key,
}

-- The ids that a scan adds, none of which was seen before; `id` is one to be looked for.
abbrev IsAdded : String → List String → List String → RoleScan → ℕ → Type 0
IsAdded id seen role_ids scan count =
    (added : List String) × (scan.seen ≡ seen ++ added)
    × (scan.role_ids ≡ role_ids ++ added)
    × (length added ≡ count)
    × ((any (str_eq id) seen && any (str_eq id) added) ≡ false)

scan_ids-IsAdded :
    (id : String) (seen role_ids : List String) (items : JsonItems) (scan : RoleScan)
    → scan_ids seen role_ids items ≡ some scan
    → IsAdded id seen role_ids scan (count_items items)
unfolding scan_ids
scan_ids-IsAdded id seen role_ids no_items scan h = (
  [],
  (let e = append_nil seen in ground (arith)),
  (let e = append_nil role_ids in ground (arith)),
  refl,
  ground (arith),
)
scan_ids-IsAdded id seen role_ids (item (json_string next) rest) scan h =
    let (added, s, r, n, d) =
      scan_ids-IsAdded id (seen ++ next ∷ []) (role_ids ++ next ∷ []) rest scan (ground (arith)) in
    let split = any-append (str_eq id) seen (next ∷ []) in
    let same = eq_iff id next in
    (
      next ∷ added,
      s ∙ append_assoc seen (next ∷ []) added,
      r ∙ append_assoc role_ids (next ∷ []) added,
      omega arith,
      ground (arith),
    )
scan_ids-IsAdded id seen role_ids (item _ rest) scan h = ground (arith)

-- A role adds at most sixteen ids, none of which was seen before.
abbrev IsRole : String → List String → RoleScan → Type 0
IsRole id seen scan =
    (scan.seen ≡ seen ++ scan.role_ids)
    × (length scan.role_ids ≤ 16)
    × ((any (str_eq id) seen && any (str_eq id) scan.role_ids) ≡ false)

scan_role-IsRole :
    (id : String) (seen : List String) (value : Option Json) (scan : RoleScan)
    → scan_role seen value ≡ some scan
    → IsRole id seen scan
unfolding scan_role
scan_role-IsRole id seen none scan h =
    let e = append_nil seen in (ground (arith), ground (arith), ground (arith))
scan_role-IsRole id seen (some json_null) scan h =
    let e = append_nil seen in (ground (arith), ground (arith), ground (arith))
scan_role-IsRole id seen (some (json_array items)) scan h =
    let (added, s, r, n, d) = scan_ids-IsAdded id seen [] items scan (ground (arith)) in
    (s ∙ ap (λ ids. seen ++ ids) (sym r), rw r (ground (arith)), rw r d)
scan_role-IsRole id seen (some (json_boolean _)) scan h = ground (arith)
scan_role-IsRole id seen (some (json_number _)) scan h = ground (arith)
scan_role-IsRole id seen (some (json_string _)) scan h = ground (arith)
scan_role-IsRole id seen (some (json_object _)) scan h = ground (arith)

guarded :
    (b : Bool) (found : Option RoleMap) (map : RoleMap)
    → (if b then none else found) ≡ some map
    → found ≡ some map
guarded true found map h = ground (arith)
guarded false found map h = h

bind-some :
    {A B : Type 0} (found : Option A) (f : A → Option B) (b : B)
    → bind found f ≡ some b
    → (a : A) × (found ≡ some a) × (f a ≡ some b)
bind-some none f b h = ground (arith)
bind-some (some a) f b h = (a, refl, h)

-- The ids of the four roles, one after the other.
abbrev pub all_ids : RoleMap → List String
all_ids map = ((map.owners ++ map.administrators) ++ map.operators) ++ map.viewers

-- The four scans behind a map that was parsed.
abbrev IsScanned : String → RoleMap → Type 0
IsScanned id map =
    (a : RoleScan) × (b : RoleScan) × (c : RoleScan) × (d : RoleScan) × IsRole id [] a
    × IsRole id a.seen b
    × IsRole id b.seen c
    × IsRole id c.seen d
    × (configured_map a b c d ≡ some map)

parse_role_map-IsScanned :
    (parsed : Option Json) (map : RoleMap) (id : String)
    → parse_role_map parsed ≡ some map
    → IsScanned id map
unfolding parse_role_map after_owners after_administrators after_operators
parse_role_map-IsScanned (some (json_object entries)) map id h =
    let ready =
      guarded (not (all is_role_key (keys entries)))
        (bind (scan_role [] (lookup "owner" entries)) (after_owners entries)) map h in
    let (a, fa, ha) =
      bind-some (scan_role [] (lookup "owner" entries)) (after_owners entries) map ready in
    let (b, fb, hb) =
      bind-some (scan_role a.seen (lookup "administrator" entries)) (after_administrators entries a)
        map ha in
    let (c, fc, hc) =
      bind-some (scan_role b.seen (lookup "operator" entries)) (after_operators entries a b) map
        hb in
    let (d, fd, hd) =
      bind-some (scan_role c.seen (lookup "viewer" entries)) (configured_map a b c) map hc in
    (
      a,
      b,
      c,
      d,
      scan_role-IsRole id [] (lookup "owner" entries) a fa,
      scan_role-IsRole id a.seen (lookup "administrator" entries) b fb,
      scan_role-IsRole id b.seen (lookup "operator" entries) c fc,
      scan_role-IsRole id c.seen (lookup "viewer" entries) d fd,
      hd,
    )
parse_role_map-IsScanned none map id h = ground (arith)
parse_role_map-IsScanned (some json_null) map id h = ground (arith)
parse_role_map-IsScanned (some (json_boolean _)) map id h = ground (arith)
parse_role_map-IsScanned (some (json_number _)) map id h = ground (arith)
parse_role_map-IsScanned (some (json_string _)) map id h = ground (arith)
parse_role_map-IsScanned (some (json_array _)) map id h = ground (arith)

configured-map :
    (a b c d : RoleScan) (map : RoleMap)
    → configured_map a b c d ≡ some map
    → (1 ≤ length d.seen)
      × (a.role_ids ≡ map.owners)
      × (b.role_ids ≡ map.administrators)
      × (c.role_ids ≡ map.operators)
      × (d.role_ids ≡ map.viewers)
configured-map a b c d map h =
    (ground (arith), ground (arith), ground (arith), ground (arith), ground (arith))

-- A role map that was parsed has at least one id, and at most sixteen for each role.
pub parse_role_map-bounds :
    (parsed : Option Json) (map : RoleMap) (role : ConsoleRole)
    → parse_role_map parsed ≡ some map
    → (1 ≤ length (all_ids map)) × (length (ids_of map role) ≤ 16)
parse_role_map-bounds parsed map role h =
    let (a, b, c, d, (sa, la, da), (sb, lb, db), (sc, lc, dc), (sd, ld, dd), m) =
      parse_role_map-IsScanned parsed map "" h in
    let (n, ea, eb, ec, ed) = configured-map a b c d map m in
    let whole : d.seen ≡ all_ids map =
      sd ∙ ap₂ ◌++◌ (sc ∙ ap₂ ◌++◌ (sb ∙ ap₂ ◌++◌ (sa ∙ ea) eb) ec) ed in
    (
      rw (sym whole) n,
      elim role as (λ r. length (ids_of map r) ≤ 16) [
        | owner ↦ rw (sym ea) la
        | administrator ↦ rw (sym eb) lb
        | operator ↦ rw (sym ec) lc
        | viewer ↦ rw (sym ed) ld
      ],
    )

abbrev test_of : Bool → Bool → Bool → Bool → ConsoleRole → Bool
test_of a b c d owner = a
test_of a b c d administrator = b
test_of a b c d operator = c
test_of a b c d viewer = d

-- The tests of the three lists, of which the second and third hold what is before them.
one-role :
    (a b c d : Bool) (role other : ConsoleRole)
    → (a && b) ≡ false
    → ((a || b) && c) ≡ false
    → (((a || b) || c) && d) ≡ false
    → test_of a b c d role ≡ true
    → test_of a b c d other ≡ true
    → role ≡ other
one-role a b c d owner owner h k l p q = refl
one-role a b c d owner administrator h k l p q = ground (arith)
one-role a b c d owner operator h k l p q = ground (arith)
one-role a b c d owner viewer h k l p q = ground (arith)
one-role a b c d administrator owner h k l p q = ground (arith)
one-role a b c d administrator administrator h k l p q = refl
one-role a b c d administrator operator h k l p q = ground (arith)
one-role a b c d administrator viewer h k l p q = ground (arith)
one-role a b c d operator owner h k l p q = ground (arith)
one-role a b c d operator administrator h k l p q = ground (arith)
one-role a b c d operator operator h k l p q = refl
one-role a b c d operator viewer h k l p q = ground (arith)
one-role a b c d viewer owner h k l p q = ground (arith)
one-role a b c d viewer administrator h k l p q = ground (arith)
one-role a b c d viewer operator h k l p q = ground (arith)
one-role a b c d viewer viewer h k l p q = refl

test_of-ids_of :
    (map : RoleMap) (id : String) (role : ConsoleRole)
    → test_of
        (any (str_eq id) map.owners)
        (any (str_eq id) map.administrators)
        (any (str_eq id) map.operators)
        (any (str_eq id) map.viewers)
        role
      ≡ any (str_eq id) (ids_of map role)
test_of-ids_of map id owner = refl
test_of-ids_of map id administrator = refl
test_of-ids_of map id operator = refl
test_of-ids_of map id viewer = refl

-- In a role map that was parsed, no id stands for two roles.
pub parse_role_map_unique :
    (parsed : Option Json) (map : RoleMap) (id : String) (role other : ConsoleRole)
    → parse_role_map parsed ≡ some map
    → any (str_eq id) (ids_of map role) ≡ true
    → any (str_eq id) (ids_of map other) ≡ true
    → role ≡ other
parse_role_map_unique parsed map id role other h p q =
    let (a, b, c, d, (sa, la, da), (sb, lb, db), (sc, lc, dc), (sd, ld, dd), m) =
      parse_role_map-IsScanned parsed map id h in
    let (n, ea, eb, ec, ed) = configured-map a b c d map m in
    let look = any (str_eq id) in
    let ab : a.seen ≡ map.owners = sa ∙ ea in
    let bb : look b.seen ≡ (look map.owners || look map.administrators) =
      ap look (sb ∙ ap₂ ◌++◌ ab eb) ∙ any-append (str_eq id) map.owners map.administrators in
    let cb : look c.seen ≡ ((look map.owners || look map.administrators) || look map.operators) =
      ap look (sc ∙ ap (λ ids. b.seen ++ ids) ec)
      ∙ any-append (str_eq id) b.seen map.operators
      ∙ ap (λ t. t || look map.operators) bb in
    one-role (look map.owners) (look map.administrators) (look map.operators) (look map.viewers)
      role other (sym (ap₂ ◌&&◌ (ap look ab) (ap look eb)) ∙ db)
      (sym (ap₂ ◌&&◌ bb (ap look ec)) ∙ dc) (sym (ap₂ ◌&&◌ cb (ap look ed)) ∙ dd)
      (test_of-ids_of map id role ∙ p) (test_of-ids_of map id other ∙ q)
