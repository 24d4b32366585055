-- ===== src/Operation/Catalog.antt =====
-- apps/web/lib/operation-catalog.ts: the operations, who may ask for them, and the checks of the
-- parameters. A validation that throws returns false or none.
use ivrm_dashboard.Prelude.{
  ℕ, Bool, true, false, not, ◌||◌, ◌==◌, List, [], ◌∷◌, map, Option, none, some, String, str_eq,
  opt_str_eq, if◌then◌else◌,
}
use ivrm_dashboard.Prelude.Ascii.{matches, is_digit, between}
use ivrm_dashboard.Auth.Types.{
  ConsoleRole, operator, administrator, ConsoleSession, can_perform_console_action,
}
use ivrm_dashboard.Operation.Json.{Json, json_null, json_string, json_object, no_fields}

pub data OperationType : Type 0 where
  save_world restart_backend restart_proxy start_backend stop_backend : OperationType
  maintenance_start maintenance_end create_backup verify_backup : OperationType

pub data OperationRisk : Type 0 where
  low medium high critical : OperationRisk

pub data LockCategory : Type 0 where
  world exclusive maintenance : LockCategory

pub record OperationDefinition : Type 0 where
  pub type : OperationType
  pub label : String
  pub description : String
  pub required_role : ConsoleRole
  pub risk : OperationRisk
  pub requires_confirmation : Bool
  pub confirmation_phrase : Option String
  pub lock_category : LockCategory

-- The string of the type.
abbrev pub show_type : OperationType → String
show_type save_world = "save_world"
show_type restart_backend = "restart_backend"
show_type restart_proxy = "restart_proxy"
show_type start_backend = "start_backend"
show_type stop_backend = "stop_backend"
show_type maintenance_start = "maintenance_start"
show_type maintenance_end = "maintenance_end"
show_type create_backup = "create_backup"
show_type verify_backup = "verify_backup"

-- The entry of `OPERATION_DEFINITIONS` with this type.
unfoldable pub get_operation_definition : OperationType → OperationDefinition
get_operation_definition save_world = record {
  type = save_world;
  label = "ワールド保存";
  description = "ワールドデータをディスクへ安全に保存する要求です。";
  required_role = operator;
  risk = low;
  requires_confirmation = false;
  confirmation_phrase = none;
  lock_category = world;
}
get_operation_definition restart_backend = record {
  type = restart_backend;
  label = "ゲームサーバー再起動";
  description = "保存と状態確認を前提にMinecraftバックエンドを再起動します。";
  required_role = operator;
  risk = high;
  requires_confirmation = true;
  confirmation_phrase = some "RESTART";
  lock_category = exclusive;
}
get_operation_definition restart_proxy = record {
  type = restart_proxy;
  label = "Velocity再起動";
  description = "公開接続を受け付けるVelocityプロキシを再起動します。";
  required_role = administrator;
  risk = critical;
  requires_confirmation = true;
  confirmation_phrase = some "RESTART PROXY";
  lock_category = exclusive;
}
get_operation_definition start_backend = record {
  type = start_backend;
  label = "ゲームサーバー起動";
  description = "停止中のMinecraftバックエンドを起動します。";
  required_role = operator;
  risk = medium;
  requires_confirmation = false;
  confirmation_phrase = none;
  lock_category = exclusive;
}
get_operation_definition stop_backend = record {
  type = stop_backend;
  label = "ゲームサーバー停止";
  description = "Minecraftバックエンドを停止し、新規接続を受け付けない状態にします。";
  required_role = administrator;
  risk = critical;
  requires_confirmation = true;
  confirmation_phrase = some "STOP";
  lock_category = exclusive;
}
get_operation_definition maintenance_start = record {
  type = maintenance_start;
  label = "メンテナンス開始";
  description = "管理画面と公開ステータスでメンテナンス中として扱う要求です。";
  required_role = operator;
  risk = medium;
  requires_confirmation = false;
  confirmation_phrase = none;
  lock_category = maintenance;
}
get_operation_definition maintenance_end = record {
  type = maintenance_end;
  label = "メンテナンス終了";
  description = "HealthとMinecraft Pingの確認後にメンテナンス状態を解除します。";
  required_role = operator;
  risk = medium;
  requires_confirmation = false;
  confirmation_phrase = none;
  lock_category = maintenance;
}
get_operation_definition create_backup = record {
  type = create_backup;
  label = "バックアップ作成";
  description = "構成・ワールド・LuckPermsを対象とするバックアップ要求です。";
  required_role = operator;
  risk = medium;
  requires_confirmation = false;
  confirmation_phrase = none;
  lock_category = exclusive;
}
get_operation_definition verify_backup = record {
  type = verify_backup;
  label = "バックアップ検証";
  description = "SHA-256と圧縮ファイルの整合性を検証する要求です。";
  required_role = operator;
  risk = low;
  requires_confirmation = false;
  confirmation_phrase = none;
  lock_category = exclusive;
}

-- `OPERATION_TYPES`, in the order of the definitions.
abbrev pub operation_types : List OperationType
operation_types =
    save_world ∷ restart_backend ∷ restart_proxy ∷ start_backend ∷ stop_backend ∷ maintenance_start
    ∷ maintenance_end ∷ create_backup ∷ verify_backup ∷ []

-- `OPERATION_DEFINITIONS`
unfoldable pub operation_definitions : List OperationDefinition
unfolding get_operation_definition
operation_definitions = map get_operation_definition operation_types

-- `OPERATION_DEFINITIONS.find(…)`
unfoldable pub find_definition :
    OperationType → List OperationDefinition → Option OperationDefinition
find_definition t [] = none
find_definition t (candidate ∷ rest) =
    if str_eq (show_type candidate.type) (show_type t)
    then some candidate
    else find_definition t rest

abbrev type_named : String → List OperationType → Option OperationType
type_named text [] = none
type_named text (t ∷ rest) = if str_eq (show_type t) text then some t else type_named text rest

-- `isOperationType`, with the type that the text names.
unfoldable pub parse_operation_type : String → Option OperationType
parse_operation_type text = type_named text operation_types

pub record OperationCapability : Type 0 where
  pub definition : OperationDefinition
  pub allowed : Bool

-- `getOperationCapabilities`; the confirmation phrase is left out of what it returns.
unfoldable pub capability_of : ConsoleSession → OperationDefinition → OperationCapability
unfolding can_perform_console_action
capability_of session definition = record {
  definition = record definition { confirmation_phrase = none };
  allowed = can_perform_console_action session definition.required_role;
}

unfoldable pub get_operation_capabilities : ConsoleSession → List OperationCapability
unfolding capability_of operation_definitions
get_operation_capabilities session = map (capability_of session) operation_definitions

-- `validateOperationPayload`, false where it throws.
unfoldable pub validate_operation_payload : Json → Bool
validate_operation_payload (json_object no_fields) = true
validate_operation_payload _ = false

-- undefined, null or ""
abbrev is_blank : Option Json → Bool
is_blank none = true
is_blank (some json_null) = true
is_blank (some (json_string text)) = str_eq text ""
is_blank (some _) = false

abbrev is_phrase : Option Json → Option String → Bool
is_phrase (some (json_string text)) phrase = opt_str_eq (some text) phrase
is_phrase _ phrase = false

-- `validateOperationConfirmation`
unfoldable pub validate_operation_confirmation : OperationType → Option Json → Bool
unfolding get_operation_definition
validate_operation_confirmation t confirmation =
    let definition = get_operation_definition t in
    if not definition.requires_confirmation
    then is_blank confirmation
    else is_phrase confirmation definition.confirmation_phrase

-- `[A-Za-z0-9._:-]`
abbrev is_key_character : ℕ → Bool
is_key_character c =
    is_digit c
    || between b'a' b'z' c
    || between b'A' b'Z' c
    || c == b'.'
    || c == b'_'
    || c == b':'
    || c == b'-'

-- `validateIdempotencyKey` of a header's value, none where it throws.
unfoldable pub validate_idempotency_key : Option String → Option String
unfolding matches
validate_idempotency_key none = none
validate_idempotency_key (some value) =
    if matches is_key_character 16 128 value then some value else none
