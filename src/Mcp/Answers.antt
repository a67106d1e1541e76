-- ===== src/Mcp/Answers.antt =====
-- Which requests are answered, and which arguments are accepted.
use devrepro_doctor.Prelude.{
  ◌≡◌, refl, ap, ◌∙◌, String, Bool, true, false, not, ◌&&◌, ◌||◌, Option, none, some, List, [], ◌∷◌,
  filter, all, any, str_eq, if◌then◌else◌, contains, distinct, sort_strings, insert_sorted, str_leb,
  if_ind, Bool-cases, inl, inr,
}
use devrepro_doctor.Report.{
  Json, Members, no_members, member, null, boolean, integer, float, string, array, object,
}
use devrepro_doctor.Mcp.{keys_of, McpError}
use devrepro_doctor.Mcp.Arguments.{
  JsonType, string_type, boolean_type, number_type, integer_type, object_type, array_type, Schema,
  is_bool, is_boolean_type, schema_name, is_closed, allowed_type, is_instance_of, differs,
  property_names, type_error, or_later, types_error, missing_error, unknown_error,
  validate_arguments,
}

-- The names of the JSON types of a value: a truth value is no number, and a whole number is a number.
abbrev pub json_types : Json → List String
json_types null = []
json_types (boolean b) = "boolean" ∷ []
json_types (integer n) = "integer" ∷ "number" ∷ []
json_types (float x) = "number" ∷ []
json_types (string s) = "string" ∷ []
json_types (array items) = "array" ∷ []
json_types (object fields) = "object" ∷ []

-- Any value where no type is asked for.
abbrev pub is_of : Option JsonType → Json → Bool
is_of none value = true
is_of (some expected) value = contains (schema_name expected) (json_types value)

abbrev pub are_typed : Schema → Members → Bool
are_typed schema no_members = true
are_typed schema (member key value more) =
    is_of (allowed_type key schema.properties) value && are_typed schema more

-- No error is raised.
abbrev pub accepts : Option McpError → Bool
accepts none = true
accepts (some e) = false

accepts-unless : (b : Bool) (e : McpError) → accepts (if b then some e else none) ≡ not b
accepts-unless true e = refl
accepts-unless false e = refl

typed :
    (expected : JsonType) (value : Json)
    → not
        (differs (is_bool value) (is_boolean_type expected) || not (is_instance_of expected value))
      ≡ is_of (some expected) value
typed string_type null = refl
typed string_type (boolean b) = refl
typed string_type (integer n) = refl
typed string_type (float x) = refl
typed string_type (string s) = refl
typed string_type (array items) = refl
typed string_type (object fields) = refl
typed boolean_type null = refl
typed boolean_type (boolean b) = refl
typed boolean_type (integer n) = refl
typed boolean_type (float x) = refl
typed boolean_type (string s) = refl
typed boolean_type (array items) = refl
typed boolean_type (object fields) = refl
typed number_type null = refl
typed number_type (boolean b) = refl
typed number_type (integer n) = refl
typed number_type (float x) = refl
typed number_type (string s) = refl
typed number_type (array items) = refl
typed number_type (object fields) = refl
typed integer_type null = refl
typed integer_type (boolean b) = refl
typed integer_type (integer n) = refl
typed integer_type (float x) = refl
typed integer_type (string s) = refl
typed integer_type (array items) = refl
typed integer_type (object fields) = refl
typed object_type null = refl
typed object_type (boolean b) = refl
typed object_type (integer n) = refl
typed object_type (float x) = refl
typed object_type (string s) = refl
typed object_type (array items) = refl
typed object_type (object fields) = refl
typed array_type null = refl
typed array_type (boolean b) = refl
typed array_type (integer n) = refl
typed array_type (float x) = refl
typed array_type (string s) = refl
typed array_type (array items) = refl
typed array_type (object fields) = refl

module _ (repr : String → String) where
  accepts-type_error :
      (key : String) (value : Json) (expected : Option JsonType)
      → accepts (type_error repr key value expected) ≡ is_of expected value
  unfolding type_error
  accepts-type_error key value none = refl
  accepts-type_error key value (some expected) =
      accepts-unless
        (differs (is_bool value) (is_boolean_type expected) || not (is_instance_of expected value))
        _
      ∙ typed expected value

  accepts-or_later :
      (first later : Option McpError)
      → accepts (or_later repr first later) ≡ (accepts first && accepts later)
  accepts-or_later none later = refl
  accepts-or_later (some e) later = refl

  accepts-types_error :
      (schema : Schema) (arguments : Members)
      → accepts (types_error repr schema arguments) ≡ are_typed schema arguments
  unfolding types_error
  accepts-types_error schema no_members = refl
  accepts-types_error schema (member key value more) =
      let expected = allowed_type key schema.properties in
      accepts-or_later (type_error repr key value expected) (types_error repr schema more)
      ∙ ap (λ b. b && accepts (types_error repr schema more))
          (accepts-type_error key value expected)
      ∙ ap (λ b. is_of expected value && b) (accepts-types_error schema more)

  accepts-missing_error :
      (arguments : Members) (required : List String)
      → accepts (missing_error repr arguments required)
        ≡ all (λ key. contains key (keys_of arguments)) required
  accepts-missing_error arguments [] = refl
  accepts-missing_error arguments (key ∷ required) =
      elim (Bool-cases (contains key (keys_of arguments))) [
        | inl e ↦ rw e (accepts-missing_error arguments required)
        | inr e ↦ rw e refl
      ]

unfoldable is_nil : List String → Bool
is_nil [] = true
is_nil (x ∷ xs) = false

accepts-unknown_error :
    (repr : String → String) (names : List String)
    → accepts (unknown_error repr names) ≡ is_nil names
unfolding is_nil
accepts-unknown_error repr [] = refl
accepts-unknown_error repr (x ∷ xs) = refl

not_nil : (x : String) (xs : List String) → is_nil (insert_sorted str_leb x xs) ≡ false
unfolding is_nil insert_sorted
not_nil x [] = refl
not_nil x (y ∷ ys) = if_ind (λ zs. is_nil zs ≡ false) (str_leb x y) refl refl

is_nil-sort_strings : (xs : List String) → is_nil (sort_strings xs) ≡ is_nil xs
unfolding is_nil sort_strings insert_sorted
is_nil-sort_strings [] = refl
is_nil-sort_strings (x ∷ xs) = not_nil x (sort_strings xs)

is_nil-distinct : (xs : List String) → is_nil (distinct str_eq xs) ≡ is_nil xs
unfolding is_nil distinct
is_nil-distinct [] = refl
is_nil-distinct (x ∷ []) = refl
is_nil-distinct (x ∷ y ∷ ys) =
    if_ind (λ zs. is_nil zs ≡ false) (any (λ z. str_eq z x) (y ∷ ys)) (is_nil-distinct (y ∷ ys))
      refl

is_nil-filter :
    (p : String → Bool) (xs : List String) → is_nil (filter (λ x. not (p x)) xs) ≡ all p xs
unfolding is_nil
is_nil-filter p [] = refl
is_nil-filter p (x ∷ xs) = elim (Bool-cases (p x)) [
  | inl e ↦ rw e (is_nil-filter p xs)
  | inr e ↦ rw e refl
]

accepts-closed :
    (closed : Bool) (e : Option McpError)
    → accepts (if closed then e else none) ≡ (not closed || accepts e)
accepts-closed true e = refl
accepts-closed false e = refl

-- `validate_arguments` raises nothing just when, if the schema forbids additional properties, it has a property
-- of the name of each argument, each required name has an argument, and each argument whose property gives a
-- known type is of that type, where a truth value is no number. An argument without such a type may be any value.
pub accepts-validate_arguments :
    (repr : String → String) (schema : Schema) (arguments : Members)
    → accepts (validate_arguments repr schema arguments) ≡ (
        (not (is_closed schema.additional_properties)
          || all (λ key. contains key (property_names repr schema)) (keys_of arguments))
        && (all (λ key. contains key (keys_of arguments)) schema.required
            && are_typed schema arguments))
unfolding validate_arguments
accepts-validate_arguments repr schema arguments =
    let known : String → Bool = λ key. contains key (property_names repr schema) in
    let keys = keys_of arguments in
    let closed = is_closed schema.additional_properties in
    let unknown = filter (λ key. not (known key)) keys in
    let missing = missing_error repr arguments schema.required in
    let types = types_error repr schema arguments in
    let names = sort_strings (distinct str_eq unknown) in
    let refused = unknown_error repr names in
    accepts-or_later repr (if closed then refused else none) (or_later repr missing types)
    ∙ ap (λ b. b && accepts (or_later repr missing types))
        (accepts-closed closed refused
          ∙ ap (λ b. not closed || b)
              (accepts-unknown_error repr names
                ∙ is_nil-sort_strings (distinct str_eq unknown)
                ∙ is_nil-distinct unknown
                ∙ is_nil-filter known keys))
    ∙ ap (λ b. (not closed || all known keys) && b)
        (accepts-or_later repr missing types
          ∙ ap (λ b. b && accepts types) (accepts-missing_error repr arguments schema.required)
          ∙ ap (λ b. all (λ key. contains key keys) schema.required && b)
              (accepts-types_error repr schema arguments))
