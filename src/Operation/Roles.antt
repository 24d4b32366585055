-- ===== src/Operation/Roles.antt =====
-- The catalogue of apps/web/lib/operation-catalog.ts against the route that uses it.
use ivrm_dashboard.Prelude.{◌≡◌, refl, some}
use ivrm_dashboard.Auth.Types.{
  ConsoleRole, ConsoleSession, authenticated, can_perform_console_action, has_console_role,
}
use ivrm_dashboard.Operation.Catalog.{
  OperationType, save_world, restart_backend, restart_proxy, start_backend, stop_backend,
  maintenance_start, maintenance_end, create_backup, verify_backup, show_type,
  get_operation_definition, operation_definitions, find_definition, parse_operation_type,
  capability_of,
}
use ivrm_dashboard.Operation.Request.{role_allows}

-- Every operation has its definition in the list, under its own type, so that the search never fails.
pub find-definition :
    (t : OperationType)
    → find_definition t operation_definitions ≡ some (get_operation_definition t)
unfolding find_definition operation_definitions get_operation_definition
find-definition save_world = refl
find-definition restart_backend = refl
find-definition restart_proxy = refl
find-definition start_backend = refl
find-definition stop_backend = refl
find-definition maintenance_start = refl
find-definition maintenance_end = refl
find-definition create_backup = refl
find-definition verify_backup = refl

-- The text of an operation is read back as that operation.
pub parse-show : (t : OperationType) → parse_operation_type (show_type t) ≡ some t
unfolding parse_operation_type
parse-show save_world = refl
parse-show restart_backend = refl
parse-show restart_proxy = refl
parse-show start_backend = refl
parse-show stop_backend = refl
parse-show maintenance_start = refl
parse-show maintenance_end = refl
parse-show create_backup = refl
parse-show verify_backup = refl

-- For an authenticated session with a role, the capability that the console shows for an operation
-- is what the route decides when the operation is asked for.
pub capability-role_allows :
    (session : ConsoleSession) (role : ConsoleRole) (t : OperationType)
    → session.status ≡ authenticated
    → session.role ≡ some role
    → (capability_of session (get_operation_definition t)).allowed ≡ role_allows role t
unfolding capability_of can_perform_console_action has_console_role role_allows
capability-role_allows session role t s r = rw s (rw r refl)
