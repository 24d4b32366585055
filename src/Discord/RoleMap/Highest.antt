-- ===== src/Discord/RoleMap/Highest.antt =====
-- The role that a member gets.
use ivrm_dashboard.Prelude.{
  ℕ, ◌≤◌, true, ◌||◌, List, [], ◌∷◌, some, String, ◌⊎◌, inl, inr, length, leb, ◌==◌, ◌≡◌, refl,
  arith,
}
use ivrm_dashboard.Prelude.Tests.{Bool-cases}
use ivrm_dashboard.Auth.Types.{ConsoleRole, viewer, operator, administrator, owner, role_rank}
use ivrm_dashboard.Discord.RoleMap.{
  RoleMap, ids_of, RoleResolution, matched, resolve_from, resolve_discord_console_role,
}

-- The member's ids for a role.
abbrev pub held : List String → RoleMap → ConsoleRole → ℕ
held member_role_ids map role = length (matched member_role_ids (ids_of map role))

-- The role is no higher than the other, or the member has no id for it.
abbrev pub IsBelow : List String → RoleMap → ConsoleRole → ConsoleRole → Type 0
IsBelow m map role other = (leb (role_rank role) (role_rank other) || (held m map role == 0)) ≡ true

resolve_from-cases :
    (m : List String) (map : RoleMap) (role : ConsoleRole) (rest : List ConsoleRole)
    (result : RoleResolution)
    → resolve_from m map (role ∷ rest) ≡ some result
    → ((result ≡ record { console_role = role; matched_role_ids = matched m (ids_of map role) })
        × (1 ≤ held m map role))
      ⊎ ((held m map role ≡ 0) × (resolve_from m map rest ≡ some result))
unfolding resolve_from
resolve_from-cases m map role rest result h = elim (Bool-cases (held m map role == 0)) [
  | inl e ↦ inr (ground (arith), ground (arith))
  | inr e ↦ inl (ground (arith), ground (arith))
]

resolve_from-nil :
    (m : List String) (map : RoleMap) (result : RoleResolution)
    → ¬ (resolve_from m map [] ≡ some result)
unfolding resolve_from
resolve_from-nil m map result h = ground (arith)

owner-first : (m : List String) (map : RoleMap) (role : ConsoleRole) → IsBelow m map role owner
owner-first m map owner = ground (arith)
owner-first m map administrator = ground (arith)
owner-first m map operator = ground (arith)
owner-first m map viewer = ground (arith)

administrator-first :
    (m : List String) (map : RoleMap) (role : ConsoleRole)
    → held m map owner ≡ 0
    → IsBelow m map role administrator
administrator-first m map owner zowner = ground (arith)
administrator-first m map administrator zowner = ground (arith)
administrator-first m map operator zowner = ground (arith)
administrator-first m map viewer zowner = ground (arith)

operator-first :
    (m : List String) (map : RoleMap) (role : ConsoleRole)
    → held m map owner ≡ 0
    → held m map administrator ≡ 0
    → IsBelow m map role operator
operator-first m map owner zowner zadministrator = ground (arith)
operator-first m map administrator zowner zadministrator = ground (arith)
operator-first m map operator zowner zadministrator = ground (arith)
operator-first m map viewer zowner zadministrator = ground (arith)

viewer-first :
    (m : List String) (map : RoleMap) (role : ConsoleRole)
    → held m map owner ≡ 0
    → held m map administrator ≡ 0
    → held m map operator ≡ 0
    → IsBelow m map role viewer
viewer-first m map owner zowner zadministrator zoperator = ground (arith)
viewer-first m map administrator zowner zadministrator zoperator = ground (arith)
viewer-first m map operator zowner zadministrator zoperator = ground (arith)
viewer-first m map viewer zowner zadministrator zoperator = ground (arith)

-- The role that a member gets is the highest for which it has an id: it has one for that role, the
-- ids that are reported are those, and it has none for any role of a higher rank.
pub resolve-highest :
    (member_role_ids : List String) (map : RoleMap) (result : RoleResolution) (role : ConsoleRole)
    → resolve_discord_console_role member_role_ids map ≡ some result
    → (result.matched_role_ids ≡ matched member_role_ids (ids_of map result.console_role))
      × (1 ≤ held member_role_ids map result.console_role)
      × IsBelow member_role_ids map role result.console_role
unfolding resolve_discord_console_role
resolve-highest m map result role h =
    elim (resolve_from-cases m map owner (administrator ∷ operator ∷ viewer ∷ []) result h) [
      | inl (e, p) ↦ rw e (refl, p, owner-first m map role)
      | inr (zo, h1) ↦
          elim (resolve_from-cases m map administrator (operator ∷ viewer ∷ []) result h1) [
            | inl (e, p) ↦ rw e (refl, p, administrator-first m map role zo)
            | inr (za, h2) ↦ elim (resolve_from-cases m map operator (viewer ∷ []) result h2) [
              | inl (e, p) ↦ rw e (refl, p, operator-first m map role zo za)
              | inr (zp, h3) ↦ elim (resolve_from-cases m map viewer [] result h3) [
                | inl (e, p) ↦ rw e (refl, p, viewer-first m map role zo za zp)
                | inr (zv, h4) ↦ absurd (resolve_from-nil m map result h4)
              ]
            ]
          ]
    ]
