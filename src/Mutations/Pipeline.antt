-- ===== src/Mutations/Pipeline.antt =====
-- The pipeline of a resource kind: kube/charts/base/build/pipeline.go.
use becloudless.Prelude.{
  String, false, ◌⊎◌, lookup, subst, copy, ◌≡◌, refl, ◌∙◌, Option, none, some, List, [], ◌∷◌, ◌++◌,
  Dict, Outcome-cases, inl, inr, sym,
}
use becloudless.Json.{obj, Fields, fields_of}
use becloudless.Walk.Plain.{walk_schema_nodes}
use becloudless.Walk.Nodes.{AllNodes}
use becloudless.Mutations.{Error, ok, err, MutationResult, Mutation, mutate_from, mutate_schema}
use becloudless.Mutations.ExtractContent.{ExtractContent, extract_content}
use becloudless.Mutations.FlattenAllOf.{flatten_all_of}
use becloudless.Mutations.NormalizeIntOrString.{normalize_int_or_string}
use becloudless.Mutations.Metadata.{metadata, enabled}
use becloudless.Mutations.EnvMaps.{env_maps}
use becloudless.Mutations.PortMaps.{port_maps}
use becloudless.Mutations.Probes.{probes}
use becloudless.Mutations.ArraysToMaps.{ArraysToMaps, arrays_to_maps}
use becloudless.Mutations.ItemFields.{Item, item_fields}
use becloudless.Mutations.ListShorthands.{Shorthand, list_shorthands}
use becloudless.Mutations.Required.{required}
use becloudless.Mutations.Refs.{Ref, refs}
use becloudless.Mutations.StringifyFields.{StringifyFields, stringify_fields}
use becloudless.Mutations.TemplatedStrings.{templated_strings}
use becloudless.Mutations.AdditionalPropertiesFalse.{
  additional_properties_false, additional_properties_false-IsClosed, IsClosed, close_node,
}
use becloudless.Mutations.Compose.{mutate_schema-append, mutate_schema-append_err}

-- the mutations of a resource kind, of which two have a default
pub record Options : Type 0 where
  pub content : ExtractContent
  pub arrays : Option ArraysToMaps
  pub stringify : Option StringifyFields
  pub items : Dict Item
  pub shorthands : Dict Shorthand
  pub references : Dict Ref

abbrev pub or_no_arrays : Option ArraysToMaps → ArraysToMaps
or_no_arrays none = record { ignore = []; disabled = false }
or_no_arrays (some arrays) = arrays

abbrev pub or_no_fields : Option StringifyFields → StringifyFields
or_no_fields none = record { fields = [] }
or_no_fields (some stringify) = stringify

-- the reshaping of the schema, before the last mutation closes it
unfoldable pub reshaping : Options → List Mutation
reshaping o =
    extract_content o.content
    ∷ flatten_all_of
    ∷ normalize_int_or_string
    ∷ metadata
    ∷ enabled
    ∷ env_maps
    ∷ port_maps
    ∷ probes
    ∷ arrays_to_maps (or_no_arrays o.arrays)
    ∷ item_fields o.items
    ∷ list_shorthands o.shorthands
    ∷ required
    ∷ refs o.references
    ∷ stringify_fields (or_no_fields o.stringify)
    ∷ templated_strings
    ∷ []

-- `Pipeline`
unfoldable pub pipeline : Options → List Mutation
unfolding reshaping
pipeline o = reshaping o ++ additional_properties_false ∷ []

-- What the charts rely on: the schema of a resource kind that is reshaped is closed, and what is
-- reported for the templates is what the reshaping reported.
pub record Contract (reshaped final : MutationResult) : Type 0 where
  pub is_closed : AllNodes IsClosed (obj final.schema) ""
  pub same_args :
      (name : String) → lookup name final.template_args ≡ lookup name reshaped.template_args

closing :
    (schema : Fields)
    → (r : MutationResult) × (mutate_schema (additional_properties_false ∷ []) schema ≡ ok r)
      × (r.template_args ≡ [])
      × AllNodes IsClosed (obj r.schema) ""
unfolding mutate_schema mutate_from additional_properties_false copy
closing schema =
    let s = fields_of (walk_schema_nodes close_node (obj schema)) in
    let (r, e, closed) = additional_properties_false-IsClosed schema in
    let same : r.schema ≡ s = cc in
    (
      record { schema = s; template_args = [] },
      refl,
      refl,
      subst (λ x. AllNodes IsClosed (obj x) "") same closed,
    )

-- The pipeline of a resource kind fails as its reshaping fails, with the same error, or it succeeds and
-- meets the contract of the charts: at every node of the schema, an object with properties says what
-- other properties it allows, and the template arguments are those of the reshaping.
pub pipeline-Contract :
    (o : Options) (schema : Fields)
    → ((e : Error) × (mutate_schema (reshaping o) schema ≡ err e)
        × (mutate_schema (pipeline o) schema ≡ err e))
      ⊎ ((reshaped : MutationResult) × (final : MutationResult) × (mutate_schema
              (reshaping o)
              schema
            ≡ ok reshaped)
          × (mutate_schema (pipeline o) schema ≡ ok final)
          × Contract reshaped final)
unfolding pipeline lookup
pipeline-Contract o schema = elim (Outcome-cases (mutate_schema (reshaping o) schema)) [
  | inl (e, failed) ↦ inl (
    e,
    failed,
    mutate_schema-append_err (reshaping o) (additional_properties_false ∷ []) schema e failed,
  )
  | inr (reshaped, done) ↦
      let (r, e, no_args, closed) = closing reshaped.schema in
      let (final, f, same, args) =
        mutate_schema-append (reshaping o) (additional_properties_false ∷ []) schema reshaped r done
          e in
      inr (
        reshaped,
        final,
        done,
        f,
        record {
          is_closed = subst (λ x. AllNodes IsClosed (obj x) "") (sym same) closed;
          same_args = λ name. args name ∙ rw no_args refl;
        },
      )
]
