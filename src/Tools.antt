-- ===== src/Tools.antt =====
-- tools/__init__.py: the tool registry, the coercion of a call's arguments and the dispatch of a call.
pub mod Truncate
pub mod Fitting
pub mod Dispatch
use lucyd.Base.{
  ℕ, String, Text, Bool, true, false, not, ◌||◌, Option, none, some, List, [], ◌∷◌, ◌++◌, map, ◌⊎◌,
  inl, inr, lit, join, is_empty, mem_name, text_eq, str_eq, if◌then◌else◌,
}
use lucyd.Base.Dict.{Dict, insert, lookup}
use lucyd.Message.{Json, Items, Fields}

-- What a tool's function returns: `{"text": …, "attachments": …}`, a `str`, or another value, which
-- `str` prints.
pub data Result : Type 0 where
  structured : Text → List String → Result
  string : Text → Result
  other : Text → Result

-- How a call of a tool's function ends. A plugin's error says whether its message is safe to show.
pub data Outcome : Type 0 where
  returned : Result → Outcome
  plugin_error : Bool → Text → Outcome
  type_error : Text → Outcome
  raised : Text → Outcome

-- ToolSpec: `talkers` none is every talker
pub record ToolSpec : Type 0 where
  pub name : String
  pub description : Text
  pub input_schema : Json
  pub function : Fields → Outcome
  pub max_output : ℕ
  pub talkers : Option (List String)

-- ToolRegistry
pub record ToolRegistry : Type 0 where
  pub tools : Dict ToolSpec
  pub truncation_limit : ℕ
  pub max_result_tokens : ℕ

-- `register`
unfoldable pub register : ToolSpec → ToolRegistry → ToolRegistry
register spec r = record r { tools = insert spec.name spec r.tools }

-- A schema for the model: name, description and input schema.
pub record Schema : Type 0 where
  pub name : String
  pub description : Text
  pub input_schema : Json

unfoldable pub schema_of : ToolSpec → Schema
schema_of t = record { name = t.name; description = t.description; input_schema = t.input_schema }

unfoldable pub get_schemas : Dict ToolSpec → List Schema
unfolding schema_of
get_schemas [] = []
get_schemas ((k, t) ∷ rest) = schema_of t ∷ get_schemas rest

-- `t.talkers is None or talker in t.talkers`
unfoldable pub is_offered : String → ToolSpec → Bool
is_offered talker t = elim t.talkers [ none ↦ true | some names ↦ mem_name talker names ]

unfoldable pub get_schemas_for_talker : String → Dict ToolSpec → List Schema
unfolding schema_of is_offered
get_schemas_for_talker talker [] = []
get_schemas_for_talker talker ((k, t) ∷ rest) =
    let others = get_schemas_for_talker talker rest in
    if is_offered talker t then schema_of t ∷ others else others

-- `d.get(key)` of a JSON object
unfoldable pub get_field : String → Fields → Option Json
get_field k Fields.end = none
get_field k (Fields.field j v fs) = if str_eq j k then some v else get_field k fs

-- the `type` that a property's schema declares
unfoldable pub declared_type : Json → Option Text
unfolding get_field
declared_type (Json.object prop) = elim (get_field "type" prop) [
  | some (Json.string t) ↦ some t
  | _ ↦ none
]
declared_type _ = none

-- Python's `int`, `float` and `repr` on a `str`, and `s.strip().lower()`; a number is the text that
-- `json.dumps` prints for it.
module _ (int float : Text → Option Text) (repr lowered : Text → Text) where
  unfoldable pub refused : String → String → Text → Text
  refused key wanted value =
      lit key ++ (lit " must be " ++ (lit wanted ++ (lit ", got " ++ repr value)))

  unfoldable pub coerce_boolean : String → Text → Text ⊎ Json
  unfolding refused
  coerce_boolean key value =
      if text_eq (lowered value) (lit "true")
      then inr (Json.boolean true)
      else if text_eq (lowered value) (lit "false")
      then inr (Json.boolean false)
      else inl (refused key "a boolean" value)

  -- one string argument; an error is the text of the `ValueError`
  unfoldable pub coerce_string : String → Text → Text → Text ⊎ Json
  unfolding refused coerce_boolean
  coerce_string key value declared =
      if text_eq declared (lit "integer")
      then elim (int value) [
        | some n ↦ inr (Json.number n)
        | none ↦ inl (refused key "an integer" value)
      ]
      else if text_eq declared (lit "number")
      then elim (float value) [
        | some n ↦ inr (Json.number n)
        | none ↦ inl (refused key "a number" value)
      ]
      else if text_eq declared (lit "boolean")
      then coerce_boolean key value
      else inr (Json.string value)

  unfoldable pub coerce_value : Fields → String → Json → Text ⊎ Json
  unfolding coerce_string
  coerce_value properties key (Json.string value) = elim (get_field key properties) [
    | none ↦ inr (Json.string value)
    | some prop ↦ elim (declared_type prop) [
      | none ↦ inr (Json.string value)
      | some declared ↦ coerce_string key value declared
    ]
  ]
  coerce_value properties key value = inr value

  unfoldable pub coerce_fields : Fields → Fields → Text ⊎ Fields
  unfolding coerce_value
  coerce_fields properties Fields.end = inr Fields.end
  coerce_fields properties (Fields.field key value fs) =
      let rest = coerce_fields properties fs in
      elim (coerce_value properties key value) [
        | inl e ↦ inl e
        | inr v ↦ elim rest [ inl e ↦ inl e | inr coerced ↦ inr (Fields.field key v coerced) ]
      ]

  -- `_coerce_arguments`
  unfoldable pub coerce_arguments : Fields → Json → Text ⊎ Fields
  unfolding coerce_fields
  coerce_arguments arguments (Json.object schema) = elim (get_field "properties" schema) [
    | none ↦ coerce_fields Fields.end arguments
    | some (Json.object properties) ↦ coerce_fields properties arguments
    | some _ ↦ inr arguments
  ]
  coerce_arguments arguments _ = inr arguments
