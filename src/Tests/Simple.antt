-- ===== src/Tests/Simple.antt =====
-- Witnesses for the mutations of metadata, content, stringifyFields and normalizeIntOrString.
use becloudless.Prelude.{
  ◌≡◌, refl, true, not, ◌&&◌, none, some, [], ◌∷◌, if◌then◌else◌, contains, ne_of_eq_false,
}
use becloudless.Json.{
  bool, str, arr, obj, nil, cons, Fields, end, field, get, as_obj, as_arr, or_end, or_else,
}
use becloudless.Walk.Nodes.{AllNodes}
use becloudless.Mutations.{ok, MutationResult}
use becloudless.Mutations.Metadata.{
  metadata, metadata_schema_properties, properties_in, get-metadata,
}
use becloudless.Mutations.ExtractContent.{
  ExtractContent, extract_content, own_fields, asks_for, get-extract_content,
}
use becloudless.Mutations.StringifyFields.{stringify_fields, IsRelaxed, stringify_fields-IsRelaxed}
use becloudless.Mutations.NormalizeIntOrString.{
  normalize_int_or_string, IsNormal, normalize_int_or_string-IsNormal,
}
use becloudless.Mutations.ItemFields.{Item, item_fields, names}
use becloudless.Mutations.ItemFields.Found.{succeeds, all_of, is_given_at, item_fields-succeeds}
use becloudless.Walk.Visited.{nodes_of}
use becloudless.Prelude.{Dict}
use becloudless.Tests.Samples.{spec, port}

get-metadata_example :
    (r : MutationResult) × (metadata spec ≡ ok r)
    × (get "type" r.schema ≡ some (str "object"))
    × (get "ports" (properties_in r.schema)
        ≡ or_else (get "ports" metadata_schema_properties) (get "ports" (properties_in spec)))
    × (get "required" r.schema ≡ get "required" spec)
get-metadata_example =
    get-metadata spec "ports" "required" (ne_of_eq_false "required" "type" refl)
      (ne_of_eq_false "required" "properties" refl)

-- the schema of a kind without `spec`, as a ConfigMap is
abbrev config_map : Fields
config_map =
    field "properties" (obj (field "kind" (obj port) (field "data" (obj port) end)))
      (field "required" (arr (cons (str "kind") (cons (str "data") nil))) end)

abbrev out_of_spec : ExtractContent
out_of_spec = record { content_is_out_of_spec = true; kind_name = "configMaps" }

get-extract_content_example :
    (r : MutationResult) × (extract_content out_of_spec config_map ≡ ok r)
    × (get "kind" (or_end (as_obj (get "properties" r.schema))) ≡ (
        if contains own_fields "kind"
        then none
        else get "kind" (or_end (as_obj (get "properties" config_map)))))
    × (asks_for (as_arr (get "required" r.schema)) "kind" ≡ (
        not (contains own_fields "kind") && asks_for (as_arr (get "required" config_map)) "kind"))
get-extract_content_example = get-extract_content out_of_spec config_map "kind" refl

stringify_fields-IsRelaxed_example :
    (r : MutationResult) × (stringify_fields (record { fields = "data" ∷ [] }) config_map ≡ ok r)
    × AllNodes (IsRelaxed ("data" ∷ [])) (obj r.schema) ""
stringify_fields-IsRelaxed_example =
    stringify_fields-IsRelaxed (record { fields = "data" ∷ [] }) "data" [] config_map refl

-- a field that takes a number or a text
abbrev marked : Fields
marked =
    field "properties"
      (obj (field "port" (obj (field "x-kubernetes-int-or-string" (bool true) end)) end)) end

normalize_int_or_string-IsNormal_example :
    (r : MutationResult) × (normalize_int_or_string marked ≡ ok r)
    × AllNodes IsNormal (obj r.schema) ""
normalize_int_or_string-IsNormal_example = normalize_int_or_string-IsNormal marked

-- the ports of a policy as a map by number
abbrev by_number : Fields
by_number =
    field "properties" (obj (field "ports" (obj (field "additionalProperties" (obj port) end)) end))
      end

abbrev port_item : Item
port_item = record { key_field = "port"; defaults = ("name", "web") ∷ [] }

abbrev items : Dict Item
items = ("ports", port_item) ∷ []

item_fields-succeeds_example :
    succeeds (item_fields items by_number)
    ≡ all_of (is_given_at items (nodes_of by_number)) ("ports" ∷ [])
unfolding names
item_fields-succeeds_example = item_fields-succeeds ("ports", port_item) [] by_number
