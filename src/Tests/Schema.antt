-- ===== src/Tests/Schema.antt =====
-- The walk and the mutations of a schema on the samples.
use becloudless.Prelude.{
  String, ◌≡◌, refl, true, false, not, ◌&&◌, ◌||◌, some, none, [], ◌∷◌, arith, if◌then◌else◌,
  contains, ◌==◌, ne_of_eq_false,
}
use becloudless.Json.{
  Value, str, arr, obj, bool, Items, nil, cons, Fields, end, field, get, as_arr, depth,
}
use becloudless.Json
use becloudless.Walk.{walk_schema_nodes_with_path, walk_fuel}
use becloudless.Walk.Nodes.{AllNodes, AllUnder}
use becloudless.Walk.Plain.{with_path, walk_schema_nodes, walk_schema_nodes-eq}
use becloudless.Walk.Fuel.{walk_terminates}
use becloudless.Walk.Rule.{walk_schema_nodes_with_path-AllNodes}
use becloudless.Mutations.{
  ok, MutationResult, includes_item, schema_type_includes, replace_schema_type, mutate_schema,
}
use becloudless.Prelude.{copy}
use becloudless.Mutations.Types.{after_replace, schema_type_includes-replace_schema_type}
use becloudless.Mutations.ArraysToMaps.{ArraysToMaps, arrays_to_maps}
use becloudless.Mutations.ArraysToMaps.Converted.{IsConverted, arrays_to_maps-IsConverted}
use becloudless.Mutations.FlattenAllOf.{flatten_all_of, merge_all_of_branch, adopted}
use becloudless.Mutations.FlattenAllOf.Flat.{IsFlat, flatten_all_of-IsFlat}
use becloudless.Mutations.FlattenAllOf.Merge.{get-merge_all_of_branch}
use becloudless.Mutations.FlattenAllOf.Required.{
  IsDistinct, required_of, required-merge_all_of_branch,
}
use becloudless.Mutations.AdditionalPropertiesFalse.{
  close_node-AllNodes, IsClosed, additional_properties_false, close_node,
  additional_properties_false-IsClosed,
}
use becloudless.Mutations.TemplatedStrings.{validation_keywords, template_node}
use becloudless.Mutations.TemplatedStrings.Template.{alternatives, moved, get-template_node}
use becloudless.Mutations.Required.{collect}
use becloudless.Mutations.Required.RequiredTree.{merge, add_names}
use becloudless.Mutations.Required.Asks.{prop, entries, asks}
use becloudless.Mutations.Required.Collect.{asks-collect}
use becloudless.Mutations.Required.Demands.{demands}
use becloudless.Tests.Samples.{text_field, port, combined, spec}

asks-collect_example :
    asks (collect spec false).1 (prop "ports" ∷ entries ∷ []) "port"
    ≡ demands spec false (prop "ports" ∷ entries ∷ []) "port"
asks-collect_example = asks-collect spec false (prop "ports" ∷ entries ∷ []) "port"

asks_run : asks (collect spec false).1 (prop "ports" ∷ entries ∷ []) "port" ≡ true
unfolding collect asks depth get Json.set Json.delete merge add_names
asks_run = refl

flatten_all_of-IsFlat_example :
    (r : MutationResult) × (flatten_all_of spec ≡ ok r) × AllNodes IsFlat (obj r.schema) ""
flatten_all_of-IsFlat_example = flatten_all_of-IsFlat spec

arrays_to_maps-IsConverted_example :
    (r : MutationResult) × (arrays_to_maps
        (record { ignore = "template" ∷ []; disabled = false })
        spec
      ≡ ok r)
    × AllNodes (IsConverted ("template" ∷ [])) (obj r.schema) ""
arrays_to_maps-IsConverted_example =
    arrays_to_maps-IsConverted (record { ignore = "template" ∷ []; disabled = false }) spec refl

additional_properties_false-IsClosed_example :
    (r : MutationResult) × (additional_properties_false spec ≡ ok r)
    × AllNodes IsClosed (obj r.schema) ""
additional_properties_false-IsClosed_example = additional_properties_false-IsClosed spec

get-merge_all_of_branch_example : get "type" (merge_all_of_branch combined port) ≡ (
    if contains adopted "type"
    then Json.or_else (get "type" combined) (get "type" port)
    else get "type" combined)
get-merge_all_of_branch_example =
    get-merge_all_of_branch "type" combined port (ne_of_eq_false "type" "properties" refl)
      (ne_of_eq_false "type" "required" refl)

required-merge_all_of_branch_example :
    (out : Items) × (get "required" (merge_all_of_branch combined port) ≡ some (arr out))
    × IsDistinct out
    × ((s : String)
        → includes_item out s ≡ (
            not (s == "")
            && (includes_item (required_of combined) s
                || includes_item (cons (str "port") (cons (str "name") nil)) s)))
unfolding get
required-merge_all_of_branch_example =
    required-merge_all_of_branch combined port (cons (str "port") (cons (str "name") nil)) refl

get-template_node_example :
    (get "pattern" (template_node text_field) ≡ (
      if "anyOf" == "pattern"
      then some (alternatives (moved text_field).1)
      else if contains validation_keywords "pattern"
      then none
      else get "pattern" text_field))
    × (get "pattern" (moved text_field).1
        ≡ (if contains validation_keywords "pattern" then get "pattern" text_field else none))
unfolding get schema_type_includes
get-template_node_example = get-template_node text_field "pattern" refl

schema_type_includes-replace_schema_type_example :
    schema_type_includes (replace_schema_type (str "array") "array" "object") "object"
    ≡ after_replace
        (schema_type_includes (str "array") "array")
        (schema_type_includes (str "array") "object")
        "array"
        "object"
        "object"
schema_type_includes-replace_schema_type_example =
    schema_type_includes-replace_schema_type (str "array") "array" "object" "object"

walk_terminates_example :
    walk_fuel (with_path close_node) 20 "" (obj spec) tt
    ≡ walk_schema_nodes_with_path (with_path close_node) "" (obj spec) tt
unfolding depth
walk_terminates_example = walk_terminates (with_path close_node) 20 "" (obj spec) tt (omega arith)

walk_schema_nodes-eq_example :
    walk_schema_nodes close_node (obj spec)
    ≡ (walk_schema_nodes_with_path (with_path close_node) "spec" (obj spec) tt).0
walk_schema_nodes-eq_example = walk_schema_nodes-eq close_node "spec" (obj spec)

close_step :
    (m : Fields) (path : String) (s : Unit {0})
    → AllUnder IsClosed m path
    → AllNodes IsClosed (obj (with_path close_node m path s).0) path
close_step m path s = close_node-AllNodes m path

walk_schema_nodes_with_path-AllNodes_example :
    AllNodes IsClosed (walk_schema_nodes_with_path (with_path close_node) "" (obj spec) tt).0 ""
walk_schema_nodes_with_path-AllNodes_example =
    walk_schema_nodes_with_path-AllNodes (with_path close_node) IsClosed close_step "" (obj spec) tt

abbrev keep_all : ArraysToMaps
keep_all = record { ignore = []; disabled = true }

abbrev closed_text : MutationResult
closed_text = record { schema = text_field; template_args = [] }

abbrev mapped_text : MutationResult
mapped_text = record { schema = text_field; template_args = ("arrayPaths", "(list )") ∷ [] }

close_text : mutate_schema (additional_properties_false ∷ []) text_field ≡ ok closed_text
unfolding mutate_schema additional_properties_false copy depth get walk_schema_nodes
    schema_type_includes
close_text = refl

map_text : mutate_schema (arrays_to_maps keep_all ∷ []) text_field ≡ ok mapped_text
unfolding mutate_schema arrays_to_maps copy
map_text = refl
