-- ===== src/Mutations/AdditionalPropertiesFalse.antt =====
-- An object with `properties` allows no others, unless it says which:
-- kube/charts/base/templates/resources/mutations/additionalPropertiesFalse/additionalPropertiesFalse.go.
use becloudless.Prelude.{
  String, ◌≡◌, refl, ◌⊎◌, inl, inr, Bool, true, false, not, ◌&&◌, ◌||◌, [], if◌then◌else◌, arith,
  if_ind,
}
use becloudless.Json.{Value, bool, obj, Fields, get, set, has, fields_of}
use becloudless.Json.Laws.{get-set}
use becloudless.Walk.Plain.{walk_schema_nodes, walk_schema_nodes-AllNodes, walk_schema_nodes-obj}
use becloudless.Walk.Nodes.{Child, property, single, branch, AllNodes, node, leaf, AllUnder}
use becloudless.Mutations.{ok, MutationResult, Mutation, or_null, schema_type_includes}

abbrev pub is_object : Fields → Bool
is_object m = schema_type_includes (or_null (get "type" m)) "object"

-- the visit of `AdditionalPropertiesFalse.Mutate`
unfoldable pub close_node : Fields → Fields
close_node m =
    if not (is_object m)
    then m
    else if not (has "properties" m)
    then m
    else if has "additionalProperties" m
    then m
    else if has "patternProperties" m
    then m
    else set "additionalProperties" (bool false) m

-- `AdditionalPropertiesFalse.Mutate(schema)`
unfoldable pub additional_properties_false : Mutation
unfolding close_node
additional_properties_false schema =
    ok (record {
      schema = fields_of (walk_schema_nodes close_node (obj schema));
      template_args = [];
    })

-- An object with properties says what other properties it allows.
abbrev pub IsClosed : Fields → String → Type 0
IsClosed m path =
    (not (is_object m && has "properties" m)
      || has "additionalProperties" m
      || has "patternProperties" m)
    ≡ true

-- closing adds no node
Child-close_node :
    (m : Fields) (path : String) (v : Value) (q : String)
    → Child (set "additionalProperties" (bool false) m) path v q
    → Child m path v q ⊎ (v ≡ bool false)
Child-close_node m path v q (property props name h g e) =
    inl (property props name (rw get-set at h) g e)
Child-close_node m path v q (single key (inl k) h e) = inr (cc (rw get-set at (rw k at h)))
Child-close_node m path v q (single key (inr k) h e) =
    inl (single key (inr k) (rw k (rw get-set at (rw k at h))) e)
Child-close_node m path v q (branch key l (inl k) h i e) =
    inl (branch key l (inl k) (rw k (rw get-set at (rw k at h))) i e)
Child-close_node m path v q (branch key l (inr (inl k)) h i e) =
    inl (branch key l (inr (inl k)) (rw k (rw get-set at (rw k at h))) i e)
Child-close_node m path v q (branch key l (inr (inr k)) h i e) =
    inl (branch key l (inr (inr k)) (rw k (rw get-set at (rw k at h))) i e)

IsClosed-set :
    (m : Fields) (path : String)
    → AllUnder IsClosed m path
    → AllNodes IsClosed (obj (set "additionalProperties" (bool false) m)) path
IsClosed-set m path under =
    node (ground (arith, get-set "additionalProperties" "additionalProperties" (bool false) m))
      (λ v q c. elim (Child-close_node m path v q c) [
        | inl old ↦ under v q old
        | inr e ↦ leaf (rw e refl)
      ])

pub close_node-AllNodes :
    (m : Fields) (path : String)
    → AllUnder IsClosed m path
    → AllNodes IsClosed (obj (close_node m)) path
unfolding close_node
close_node-AllNodes m path under =
    let Q = λ (n : Fields). AllNodes IsClosed (obj n) path in
    if_ind Q (not (is_object m)) (λ e. node (ground arith) under)
      (λ e.
        if_ind Q (not (has "properties" m)) (λ e. node (ground arith) under)
          (λ e.
            if_ind Q (has "additionalProperties" m) (λ e. node (ground arith) under)
              (λ e.
                if_ind Q (has "patternProperties" m) (λ e. node (ground arith) under)
                  (λ e. IsClosed-set m path under))))

-- `AdditionalPropertiesFalse` succeeds on every schema, and every object of the result that has
-- `properties` has `additionalProperties` or `patternProperties`.
pub additional_properties_false-IsClosed :
    (schema : Fields)
    → (r : MutationResult) × (additional_properties_false schema ≡ ok r)
      × AllNodes IsClosed (obj r.schema) ""
unfolding additional_properties_false
additional_properties_false-IsClosed schema =
    let v = walk_schema_nodes close_node (obj schema) in
    let r : MutationResult = record { schema = fields_of v; template_args = [] } in
    (
      r,
      refl,
      rw (walk_schema_nodes-obj close_node schema)
          (walk_schema_nodes-AllNodes close_node IsClosed close_node-AllNodes "" (obj schema)),
    )
