-- ===== src/Mutations.antt =====
-- The mutations of the schema of a resource kind, one after the other: `MutateSchema` of
-- kube/charts/base/templates/resources/mutations/mutation.go, and the helpers on the `type` of a
-- schema of helpers.go beside it. A mutation rewrites the schema in place and hands it on, so it is
-- a function of the schema.
pub mod Types
pub mod EditedNodes
pub mod ListShorthands
pub mod Refs
pub mod Probes
pub mod ItemFields
pub mod StringifyFields
pub mod NormalizeIntOrString
pub mod ExtractContent
pub mod Metadata
pub mod Compose
pub mod Pipeline
pub mod Conversion
pub mod FlattenAllOf
pub mod AdditionalPropertiesFalse
pub mod TemplatedStrings
pub mod Required
pub mod ArraysToMaps
pub mod EnvMaps
pub mod PortMaps
use becloudless.Prelude.{
  String, Bool, true, false, Option, none, some, List, [], ◌∷◌, ◌==◌, Dict, copy, if◌then◌else◌,
  ◌||◌,
}
pub use becloudless.Prelude.{ok, err, ◌>>=◌}
use becloudless.Prelude.{Outcome}
use becloudless.Json.{
  Value, null, bool, num, str, arr, obj, Items, nil, cons, Fields, end, get, as_str, or_empty,
}

-- The errors of the mutations, one constructor for each message, with what the message quotes.
pub data Error : Type 0 where
  no_spec : String → Error
  refs_unknown_projection : String → String → Error
  refs_kinds_required : String → Error
  refs_not_in_schema : String → Error
  refs_not_a_string : String → Error
  item_fields_not_an_array : String → Error
  item_fields_no_property : String → String → Error
  list_shorthands_not_a_map : String → Error
  list_shorthands_required : String → Error
  list_shorthands_no_property : String → String → Error

abbrev pub Result {ℓ} : Type ℓ → Type ℓ
Result A = Outcome Error A

pub record MutationResult : Type 0 where
  pub schema : Fields
  pub template_args : Dict String

abbrev pub Mutation : Type 0
Mutation = Fields → Result MutationResult

-- the loop of `MutateSchema`
mutate_from : List Mutation → Fields → Dict String → Result MutationResult
mutate_from [] schema template_args = ok (record { schema = schema; template_args = template_args })
mutate_from (m ∷ mutations) schema template_args = do
  result ← m schema
  mutate_from mutations result.schema (copy template_args result.template_args)

unfoldable pub mutate_schema : List Mutation → Fields → Result MutationResult
unfolding mutate_from
mutate_schema mutations schema = mutate_from mutations schema []

-- A missing key reads as nil, which is what the JSON null decodes to.
abbrev pub or_null : Option Value → Value
or_null none = null
or_null (some v) = v

-- the type assertion `item.(string)`, whose failure leaves the empty text
abbrev pub text_of : Value → String
text_of v = or_empty (as_str (some v))

pub includes_item : Items → String → Bool
includes_item nil want = false
includes_item (cons item list) want = text_of item == want || includes_item list want

-- `SchemaTypeIncludes(t, want)`
unfoldable pub schema_type_includes : Value → String → Bool
unfolding includes_item
schema_type_includes (str s) want = s == want
schema_type_includes (arr list) want = includes_item list want
schema_type_includes _ want = false

pub replace_items : Items → String → String → Items
replace_items nil from to = nil
replace_items (cons item list) from to =
    cons (if text_of item == from then str to else item) (replace_items list from to)

-- `ReplaceSchemaType(t, from, to)`
unfoldable pub replace_schema_type : Value → String → String → Value
unfolding replace_items
replace_schema_type (str s) from to = if s == from then str to else str s
replace_schema_type (arr list) from to = arr (replace_items list from to)
replace_schema_type v from to = v
