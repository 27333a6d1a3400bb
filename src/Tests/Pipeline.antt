-- ===== src/Tests/Pipeline.antt =====
-- Runs and witnesses for listShorthands, refs, probes and the pipeline of kube/charts/base.
use becloudless.Prelude.{◌≡◌, refl, ◌⊎◌, false, none, [], ◌∷◌, contains, split_on}
use becloudless.Json.{str, arr, obj, nil, cons, Fields, end, field, get, delete}
use becloudless.Mutations.{Error, ok, err, MutationResult, mutate_schema}
use becloudless.Mutations.Refs.{relax, ref_node}
use becloudless.Mutations.Probes.{is_probe_node, optional_port, without_port}
use becloudless.Mutations.Pipeline.{Options, reshaping, pipeline, Contract, pipeline-Contract}
use becloudless.Tests.Samples.{spec}

abbrev gateway_options : Options
gateway_options = record {
  content = record { content_is_out_of_spec = false; kind_name = "gateways" };
  arrays = none;
  stringify = none;
  items = [];
  shorthands = [];
  references =
      ("parentRefs", record { kinds = "gateways" ∷ []; as_projection = "gatewayRef" }) ∷ [];
}

pipeline-Contract_example :
    ((e : Error) × (mutate_schema (reshaping gateway_options) spec ≡ err e)
      × (mutate_schema (pipeline gateway_options) spec ≡ err e))
    ⊎ ((reshaped : MutationResult) × (final : MutationResult) × (mutate_schema
            (reshaping gateway_options)
            spec
          ≡ ok reshaped)
        × (mutate_schema (pipeline gateway_options) spec ≡ ok final)
        × Contract reshaped final)
pipeline-Contract_example = pipeline-Contract gateway_options spec

abbrev text_schema : Fields
text_schema = field "type" (str "string") end

-- The string is kept as an alternative of the reference.
test_relax :
    relax text_schema ≡ field "anyOf" (arr (cons ref_node (cons (obj text_schema) nil))) end
unfolding relax get
test_relax = refl

test_required : optional_port (field "required" (arr (cons (str "port") nil)) end) ≡ end
unfolding optional_port without_port get delete
test_required = refl

test_probe_path : is_probe_node text_schema "containers.name" ≡ false
unfolding is_probe_node split_on contains
test_probe_path = refl
