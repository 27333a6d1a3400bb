-- ===== src/Mutations/Metadata.antt =====
-- The values that the chart itself reads beside those of the resource:
-- kube/charts/base/templates/resources/mutations/metadata/metadata.go and enabled/enabled.go.
use becloudless.Prelude.{
  String, ◌≡◌, ◌≢◌, refl, sym, ap, ◌∙◌, Option, none, some, [], eq_false_of_ne,
}
use becloudless.Json.{
  Value, str, obj, Fields, end, field, get, set, as_obj, or_end, copy_fields, or_else,
}
use becloudless.Json.Laws.{get-set, get-copy_fields, get-end}
use becloudless.Mutations.{ok, MutationResult, Mutation}

-- a schema of one type with a description
abbrev pub described : String → String → Fields → Fields
described t description m = field "type" (str t) (field "description" (str description) m)

abbrev pub texts_by_name : Fields
texts_by_name = field "additionalProperties" (obj (field "type" (str "string") end)) end

-- `metadataSchemaProperties()`
unfoldable pub metadata_schema_properties : Fields
metadata_schema_properties =
    field "nameOverride"
      (obj (
        described "string"
          "Replaces just the id part of the computed resource name (<Release.Name>-<id>)." end))
      (field "fullNameOverride"
        (obj (
          described "string"
            "Replaces the entire computed resource name, ignoring the release name and id." end))
        (field "namespace"
          (obj (
            described "string"
              "metadata.namespace for this resource. Defaults to the release namespace." end))
          (field "labels"
            (obj (described "object" "metadata.labels for this resource." texts_by_name))
            (field "annotations"
              (obj (described "object" "metadata.annotations for this resource." texts_by_name))
              end))))

-- `properties` with more of them, which win over those that are there
unfoldable pub with_properties : Fields → Fields → Fields
with_properties added schema =
    let merged = copy_fields (copy_fields end (or_end (as_obj (get "properties" schema)))) added in
    set "type" (str "object") (set "properties" (obj merged) schema)

-- `Metadata.Mutate(schema)`
unfoldable pub metadata : Mutation
unfolding with_properties metadata_schema_properties
metadata schema =
    ok (record { schema = with_properties metadata_schema_properties schema; template_args = [] })

unfoldable pub enabled_properties : Fields
enabled_properties =
    field "enabled"
      (obj (described "boolean" "Whether to render this resource. Defaults to true." end)) end

-- `Enabled.Mutate(schema)`
unfoldable pub enabled : Mutation
unfolding with_properties enabled_properties
enabled schema =
    ok (record { schema = with_properties enabled_properties schema; template_args = [] })

abbrev pub properties_in : Fields → Fields
properties_in schema = or_end (as_obj (get "properties" schema))

get-with_properties :
    (added schema : Fields) (name : String)
    → get name (properties_in (with_properties added schema))
      ≡ or_else (get name added) (get name (properties_in schema))
unfolding with_properties
get-with_properties added schema name =
    let props = properties_in schema in
    rw (get-set, get-set)
      (get-copy_fields name (copy_fields end props) added
        ∙ ap (or_else (get name added)) (get-copy_fields name end props ∙ or_else-none name props))
  where
    or_else-none : (k : String) (m : Fields) → or_else (get k m) (get k end) ≡ get k m
    or_else-none k m = rw get-end (none_last (get k m))
      where
        none_last : (o : Option Value) → or_else o none ≡ o
        none_last none = refl
        none_last (some v) = refl

with_properties-type :
    (added schema : Fields) → get "type" (with_properties added schema) ≡ some (str "object")
unfolding with_properties
with_properties-type added schema = rw get-set refl

get-at_other :
    (added schema : Fields) (key : String)
    → key ≢ "type"
    → key ≢ "properties"
    → get key (with_properties added schema) ≡ get key schema
unfolding with_properties
get-at_other added schema key t p =
    rw
      (
        get-set,
        eq_false_of_ne "type" key (λ e. t (sym e)),
        get-set,
        eq_false_of_ne "properties" key (λ e. p (sym e)),
      )
      refl

-- `Metadata` succeeds on every schema. Of the result, which is an object, the properties are those
-- of the metadata and, under other names, those of the schema; the other keywords stay.
pub get-metadata :
    (schema : Fields) (name key : String)
    → key ≢ "type"
    → key ≢ "properties"
    → (r : MutationResult) × (metadata schema ≡ ok r)
      × (get "type" r.schema ≡ some (str "object"))
      × (get name (properties_in r.schema)
          ≡ or_else (get name metadata_schema_properties) (get name (properties_in schema)))
      × (get key r.schema ≡ get key schema)
unfolding metadata
get-metadata schema name key t p =
    let s = with_properties metadata_schema_properties schema in
    (
      record { schema = s; template_args = [] },
      refl,
      with_properties-type metadata_schema_properties schema,
      get-with_properties metadata_schema_properties schema name,
      get-at_other metadata_schema_properties schema key t p,
    )

-- `Enabled` succeeds on every schema. Of the result, which is an object, the properties are
-- `enabled` and, under other names, those of the schema; the other keywords stay.
pub get-enabled :
    (schema : Fields) (name key : String)
    → key ≢ "type"
    → key ≢ "properties"
    → (r : MutationResult) × (enabled schema ≡ ok r)
      × (get "type" r.schema ≡ some (str "object"))
      × (get name (properties_in r.schema)
          ≡ or_else (get name enabled_properties) (get name (properties_in schema)))
      × (get key r.schema ≡ get key schema)
unfolding enabled
get-enabled schema name key t p =
    let s = with_properties enabled_properties schema in
    (
      record { schema = s; template_args = [] },
      refl,
      with_properties-type enabled_properties schema,
      get-with_properties enabled_properties schema name,
      get-at_other enabled_properties schema key t p,
    )
