-- ===== src/Operation/Json.antt =====
-- A JSON value, as `JSON.parse` returns it. A number is its literal; the keys of an object are
-- distinct.
use ivrm_dashboard.Prelude.{Bool, List, [], ◌∷◌, Option, none, some, String, str_eq, if◌then◌else◌}

mutual
  pub data Json : Type 0 where
    json_null : Json
    json_boolean : Bool → Json
    json_number : String → Json
    json_string : String → Json
    json_array : JsonItems → Json
    json_object : JsonFields → Json

  pub data JsonItems : Type 0 where
    no_items : JsonItems
    item : Json → JsonItems → JsonItems

  pub data JsonFields : Type 0 where
    no_fields : JsonFields
    field : String → Json → JsonFields → JsonFields

-- `value[key]`, with none for undefined
abbrev pub lookup : String → JsonFields → Option Json
lookup key no_fields = none
lookup key (field k v rest) = if str_eq k key then some v else lookup key rest

-- `Object.keys(value)`
abbrev pub keys : JsonFields → List String
keys no_fields = []
keys (field k v rest) = k ∷ keys rest
