-- ===== src/Mcp/Arguments.antt =====
-- mcp/protocol.py: the tools with their schemas, and the check of a call's arguments.
use devrepro_doctor.Prelude.{
  String, Bool, true, false, not, ◌||◌, Option, none, some, List, [], ◌∷◌, map, filter, str_eq,
  if◌then◌else◌, lookup, contains, distinct, sort_strings,
}
use devrepro_doctor.Prelude.Printing.{text, join}
use devrepro_doctor.Report.{
  Json, boolean, integer, float, string, array, object, Members, no_members, member, type_name,
}
use devrepro_doctor.Mcp.{McpError, keys_of, invalid_params, method_not_found}

-- The types of a JSON schema.
pub data JsonType : Type 0 where
  string_type : JsonType
  boolean_type : JsonType
  number_type : JsonType
  integer_type : JsonType
  object_type : JsonType
  array_type : JsonType

-- An input schema: what it says of additional properties, if it does, the properties with their types, where one
-- has a type that the table knows, and which are required.
pub record Schema : Type 0 where
  pub additional_properties : Option Bool
  pub properties : List (String × Option JsonType)
  pub required : List String

-- `schema.get("additionalProperties") is False`
abbrev pub is_closed : Option Bool → Bool
is_closed (some false) = true
is_closed _ = false

-- `_JSON_TYPES.get(properties.get(key, {}).get("type") or "")`
abbrev pub allowed_type : String → List (String × Option JsonType) → Option JsonType
allowed_type key [] = none
allowed_type key ((name, expected) ∷ properties) =
    if str_eq name key then expected else allowed_type key properties

abbrev pub is_bool : Json → Bool
is_bool (boolean b) = true
is_bool _ = false

-- `isinstance` of the Python types of a JSON type: a `bool` is an `int`.
abbrev pub is_instance_of : JsonType → Json → Bool
is_instance_of string_type (string s) = true
is_instance_of boolean_type (boolean b) = true
is_instance_of number_type (integer n) = true
is_instance_of number_type (float x) = true
is_instance_of number_type (boolean b) = true
is_instance_of integer_type (integer n) = true
is_instance_of integer_type (boolean b) = true
is_instance_of object_type (object fields) = true
is_instance_of array_type (array items) = true
is_instance_of _ _ = false

abbrev pub is_boolean_type : JsonType → Bool
is_boolean_type boolean_type = true
is_boolean_type _ = false

abbrev pub schema_name : JsonType → String
schema_name string_type = "string"
schema_name boolean_type = "boolean"
schema_name number_type = "number"
schema_name integer_type = "integer"
schema_name object_type = "object"
schema_name array_type = "array"

abbrev pub differs : Bool → Bool → Bool
differs true b = not b
differs false b = b

abbrev pub invalid : String → McpError
invalid message = record { code = invalid_params; message = message }

module _ (repr : String → String) where
  -- The test of one argument.
  unfoldable pub type_error : String → Json → Option JsonType → Option McpError
  type_error key value none = none
  type_error key value (some expected) =
      if differs (is_bool value) (is_boolean_type expected) || not (is_instance_of expected value)
      then some (
          invalid (
            text
              (repr key ∷ " must be a " ∷ schema_name expected ∷ ", got " ∷ type_name value ∷ [])))
      else none

  abbrev pub or_later : Option McpError → Option McpError → Option McpError
  or_later none later = later
  or_later (some e) later = some e

  unfoldable pub types_error : Schema → Members → Option McpError
  unfolding type_error
  types_error schema no_members = none
  types_error schema (member key value more) =
      or_later (type_error key value (allowed_type key schema.properties)) (types_error schema more)

  abbrev pub missing_error : Members → List String → Option McpError
  missing_error arguments [] = none
  missing_error arguments (key ∷ required) =
      let later = missing_error arguments required in
      if contains key (keys_of arguments)
      then later
      else some (invalid (text (repr key ∷ " is required" ∷ [])))

  abbrev pub unknown_error : List String → Option McpError
  unknown_error [] = none
  unknown_error (name ∷ names) =
      some (invalid (text ("unknown argument(s): " ∷ join ", " (name ∷ names) ∷ [])))

  abbrev pub property_names : Schema → List String
  property_names schema = map (λ (p : String × Option JsonType). p.0) schema.properties

  -- `validate_arguments`: the error that it raises, if any.
  unfoldable pub validate_arguments : Schema → Members → Option McpError
  unfolding types_error sort_strings distinct
  validate_arguments schema arguments =
      let unknown = sort_strings (
        distinct str_eq
          (filter (λ key. not (contains key (property_names schema))) (keys_of arguments))) in
      or_later (if is_closed schema.additional_properties then unknown_error unknown else none)
        (or_later (missing_error arguments schema.required) (types_error schema arguments))

-- `REFUSED_TOOLS`, without the reasons.
abbrev pub refused_tools : List String
refused_tools = "fix" ∷ "serve" ∷ "server-backup" ∷ "server-restore" ∷ "init" ∷ "generate" ∷ []

abbrev pub project_arg : Schema
project_arg = record {
  additional_properties = some false;
  properties = ("project", some string_type) ∷ ("refresh", some boolean_type) ∷ [];
  required = [];
}

-- The names of `tool_definitions` with their schemas.
abbrev pub tool_schemas : List (String × Schema)
tool_schemas =
    ("doctor", project_arg)
    ∷ ("check", project_arg)
    ∷ ("info", project_arg)
    ∷ (
      "which",
      record {
        additional_properties = some false;
        properties = ("tool", some string_type) ∷ ("refresh", some boolean_type) ∷ [];
        required = "tool" ∷ [];
      },
    )
    ∷ (
      "explain",
      record {
        additional_properties = some false;
        properties = ("rule_id", some string_type) ∷ [];
        required = "rule_id" ∷ [];
      },
    )
    ∷ ("agent_readiness", project_arg)
    ∷ []

-- The checks at the start of `_call_tool`.
unfoldable pub call_error : (String → String) → String → Members → Option McpError
unfolding validate_arguments
call_error repr name arguments =
    if contains name refused_tools
    then some (invalid (text (name ∷ " is deliberately not exposed" ∷ [])))
    else elim (lookup name tool_schemas) [
      | none ↦
          some
            (record { code = method_not_found; message = text ("unknown tool " ∷ repr name ∷ []) })
      | some schema ↦ validate_arguments repr schema arguments
    ]
