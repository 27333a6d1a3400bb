-- ===== src/Mutations/TemplatedStrings.antt =====
-- A validated string also accepts a template:
-- kube/charts/base/templates/resources/mutations/templatedStrings/templatedStrings.go.
pub mod Template
use becloudless.Prelude.{
  String, ◌≡◌, ◌≢◌, refl, sym, ◌∙◌, ap, ◌⊎◌, ◌↔◌, inl, inr, Bool, true, false, not, ◌&&◌, ◌||◌,
  Option, none, some, List, [], ◌∷◌, ◌++◌, map, ◌==◌, ◌&◌, if◌then◌else◌, join, has_suffix,
  contains, sort_strings, quote, arith, Bool-cases, if_ind, Option-cases, eq_iff, eq_refl,
  ne_of_eq_false, eq_false_of_ne, ℕ, zero, suc, ◌+◌, ◌≤◌, Dict, insert, lookup, copy, lookup-copy,
  lookup-insert,
}
use becloudless.Json.{
  Value, null, bool, num, str, arr, obj, Items, nil, cons, Fields, end, field, get, set, delete,
  has, is_some, as_obj, as_arr, as_str, or_end, or_empty, fields_of, copy_fields, or_else, IsItem,
}
use becloudless.Json.Laws.{
  get-set, get-delete, get-copy_fields, get-end, as_obj-eq-some, as_arr-eq-some, json_laws,
}
use becloudless.Walk.{Visit, walk_schema_nodes_with_path, child_path}
use becloudless.Walk.Plain.{walk_schema_nodes, walk_schema_nodes-AllNodes, walk_schema_nodes-obj}
use becloudless.Walk.Rule.{walk_schema_nodes_with_path-AllNodes, walk_schema_nodes_with_path-obj}
use becloudless.Walk.Nodes.{
  Child, property, single, branch, IsSingle, IsBranch, AllNodes, node, leaf, AllUnder, Child-delete,
}
use becloudless.Mutations.{
  Result, ok, err, ◌>>=◌, MutationResult, Mutation, or_null, text_of, schema_type_includes,
  replace_schema_type, mutate_schema, mutate_from,
}

-- `TemplatePattern`
abbrev pub template_pattern : String
template_pattern = "\\{\\{[\\s\\S]*\\}\\}"

-- `validationKeywords`
abbrev pub validation_keywords : List String
validation_keywords = "enum" ∷ "const" ∷ "pattern" ∷ "format" ∷ "minLength" ∷ "maxLength" ∷ []

-- A string, described by no combination of schemas.
abbrev pub is_plain_string : Fields → Bool
is_plain_string m =
    schema_type_includes (or_null (get "type" m)) "string"
    && not (has "anyOf" m || has "oneOf" m || has "allOf" m || has "not" m)

move_one : String → Option Value → Fields × Fields → Fields × Fields
move_one key none (m, validation) = (m, validation)
move_one key (some v) (m, validation) = (delete key m, set key v validation)

-- `for _, key := range validationKeywords`
pub move_keywords : List String → Fields × Fields → Fields × Fields
unfolding move_one
move_keywords [] (m, validation) = (m, validation)
move_keywords (key ∷ keys) (m, validation) =
    move_keywords keys (move_one key (get key m) (m, validation))

pub with_template : Fields × Fields → Fields
with_template (m, end) = m
with_template (m, field k v validation) =
    set "anyOf"
      (arr (
        cons (obj (field k v validation))
          (cons (obj (field "pattern" (str template_pattern) end)) nil)))
      m

-- the visit of `TemplatedStrings.Mutate`
unfoldable pub template_node : Fields → Fields
template_node m =
    if is_plain_string m then with_template (move_keywords validation_keywords (m, end)) else m

-- `TemplatedStrings.Mutate(schema)`
unfoldable pub templated_strings : Mutation
unfolding template_node with_template
templated_strings schema = ok (record {
  schema = fields_of (walk_schema_nodes template_node (obj schema));
  template_args = [];
})
