-- ===== src/Tools/Schema.antt =====
-- application/tools.py: `_validate_schema`. Python's `==` and `<` on values are parameters; a schema's bounds are numbers.
use mm_harness.Prelude.{
  ℕ, String, Bool, true, false, not, ◌&&◌, ◌||◌, Option, none, some, List, [], ◌∷◌, all, contains,
  text_length, ◌==◌, string_eq, if◌then◌else◌,
}
use mm_harness.Errors.{Result, ok, err, value_error, attribute_error, raise_if, ◌>>◌}
use mm_harness.Json.{
  Json, Items, Fields, null, boolean, integer, real, string, array, object, pos, nil, item, end,
  field, get,
}
use mm_harness.Tools.Audit.{keys}

abbrev pub is_object : Json → Bool
is_object (object fields) = true
is_object _ = false

abbrev pub is_array : Json → Bool
is_array (array items) = true
is_array _ = false

abbrev pub is_string : Json → Bool
is_string (string s) = true
is_string _ = false

abbrev pub is_integer : Json → Bool
is_integer (integer n) = true
is_integer _ = false

abbrev pub is_number : Json → Bool
is_number (integer n) = true
is_number (real x) = true
is_number _ = false

abbrev pub is_boolean : Json → Bool
is_boolean (boolean b) = true
is_boolean _ = false

abbrev pub is_null : Json → Bool
is_null null = true
is_null _ = false

-- valid.get(name)
unfoldable pub valid : String → Json → Option Bool
valid name value =
    if name == "object"
    then some (is_object value)
    else if name == "array"
    then some (is_array value)
    else if name == "string"
    then some (is_string value)
    else if name == "integer"
    then some (is_integer value)
    else if name == "number"
    then some (is_number value)
    else if name == "boolean"
    then some (is_boolean value)
    else if name == "null"
    then some (is_null value)
    else none

abbrev pub or_false : Option Bool → Bool
or_false none = false
or_false (some b) = b

abbrev pub or_true : Option Bool → Bool
or_true none = true
or_true (some b) = b

-- any(valid.get(item, False) for item in expected)
abbrev pub is_one_of : Items → Json → Bool
is_one_of nil value = false
is_one_of (item (string name) rest) value = or_false (valid name value) || is_one_of rest value
is_one_of (item other rest) value = is_one_of rest value

abbrev pub is_typed : Option Json → Json → Bool
is_typed (some (array expected)) value = is_one_of expected value
is_typed (some (string name)) value = or_true (valid name value)
is_typed _ value = true

-- the texts of a list, as `required` has
abbrev pub names_in : Items → List String
names_in nil = []
names_in (item (string name) rest) = name ∷ names_in rest
names_in (item other rest) = names_in rest

abbrev pub names_of : Option Json → List String
names_of (some (array items)) = names_in items
names_of _ = []

abbrev pub fields_of : Option Json → Fields
fields_of (some (object fields)) = fields
fields_of _ = end

abbrev pub is_closed : Option Json → Bool
is_closed (some (boolean false)) = true
is_closed _ = false

abbrev pub count_of : Items → ℕ
count_of nil = 0
count_of (item j rest) = ℕ.suc (count_of rest)

module _ (equal less : Json → Json → Bool) where
  abbrev pub is_listed : Items → Json → Bool
  is_listed nil value = false
  is_listed (item j rest) value = equal value j || is_listed rest value

  -- "enum" not in schema or value in schema["enum"]
  abbrev pub is_in_enum : Option Json → Json → Bool
  is_in_enum (some (array items)) value = is_listed items value
  is_in_enum _ value = true

  -- a bound that stands in the schema
  abbrev pub is_below : Json → Option Json → Bool
  is_below value none = false
  is_below value (some bound) = less value bound

  abbrev pub is_above : Json → Option Json → Bool
  is_above value none = false
  is_above value (some bound) = less bound value

  -- the type and the enumeration
  unfoldable pub validate_value : Fields → Json → Result (Unit {0})
  validate_value schema value = do
    raise_if (not (is_typed (get "type" schema) value)) value_error
    raise_if (not (is_in_enum (get "enum" schema) value)) value_error

  -- _validate_schema
  unfoldable mutual
    pub validate_schema : Fields → Json → Result (Unit {0})
    validate_schema schema (object fields) = do
      validate_value schema (object fields)
      raise_if (not (all (λ key. contains key (keys fields)) (names_of (get "required" schema))))
          value_error
      raise_if
          (is_closed (get "additionalProperties" schema)
            && not (
                all (λ key. contains key (keys (fields_of (get "properties" schema))))
                  (keys fields)))
          value_error
      validate_fields (fields_of (get "properties" schema)) fields
    validate_schema schema (array items) = do
      validate_value schema (array items)
      raise_if (is_below (integer (pos (count_of items))) (get "minItems" schema)) value_error
      raise_if (is_above (integer (pos (count_of items))) (get "maxItems" schema)) value_error
      validate_items (get "items" schema) items
    validate_schema schema (string s) = do
      validate_value schema (string s)
      raise_if (is_below (integer (pos (text_length s))) (get "minLength" schema)) value_error
      raise_if (is_above (integer (pos (text_length s))) (get "maxLength" schema)) value_error
    validate_schema schema (integer n) = do
      validate_value schema (integer n)
      raise_if (is_below (integer n) (get "minimum" schema)) value_error
      raise_if (is_above (integer n) (get "maximum" schema)) value_error
    validate_schema schema (real x) = do
      validate_value schema (real x)
      raise_if (is_below (real x) (get "minimum" schema)) value_error
      raise_if (is_above (real x) (get "maximum" schema)) value_error
    validate_schema schema (boolean b) = validate_value schema (boolean b)
    validate_schema schema null = validate_value schema null

    pub validate_fields : Fields → Fields → Result (Unit {0})
    validate_fields properties end = ok tt
    validate_fields properties (field key value rest) = do
      elim (get key properties) [
        | none ↦ ok tt
        | some p ↦ elim p [
          | object schema ↦ validate_schema schema value
          | other ↦ err attribute_error
        ]
      ]
      validate_fields properties rest

    pub validate_items : Option Json → Items → Result (Unit {0})
    validate_items schema nil = ok tt
    validate_items schema (item j rest) = do
      elim schema [
        | none ↦ ok tt
        | some p ↦ elim p [ object s ↦ validate_schema s j | other ↦ ok tt ]
      ]
      validate_items schema rest
