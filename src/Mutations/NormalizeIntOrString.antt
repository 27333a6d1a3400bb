-- ===== src/Mutations/NormalizeIntOrString.antt =====
-- A value that is an integer or a text says so by an `anyOf`:
-- kube/charts/base/templates/resources/mutations/normalizeIntOrString/normalizeIntOrString.go.
use becloudless.Prelude.{
  String, ◌≡◌, refl, inl, inr, Bool, true, false, not, ◌||◌, Option, none, some, [], if◌then◌else◌,
  arith, Bool-cases, subst,
}
use becloudless.Json.{
  Value, null, bool, str, arr, obj, Items, nil, cons, Fields, end, field, get, set, fields_of,
  IsItem,
}
use becloudless.Json.Laws.{get-set}
use becloudless.Walk.Plain.{walk_schema_nodes, walk_schema_nodes-AllNodes, walk_schema_nodes-obj}
use becloudless.Walk.Nodes.{Child, property, single, branch, AllNodes, node, AllUnder}
use becloudless.Mutations.{ok, MutationResult, Mutation}

-- `v == true` on an `any`
abbrev pub is_true : Option Value → Bool
is_true (some (bool b)) = b
is_true _ = false

-- `v, ok := m[key]; ok && v != nil`
abbrev pub is_not_nil : Option Value → Bool
is_not_nil none = false
is_not_nil (some null) = false
is_not_nil (some v) = true

abbrev pub type_only : String → Value
type_only t = obj (field "type" (str t) end)

abbrev pub int_or_string : Items
int_or_string = cons (type_only "integer") (cons (type_only "string") nil)

unfoldable pub normalize_node : Fields → Fields
normalize_node m =
    if not (is_true (get "x-kubernetes-int-or-string" m))
    then m
    else if is_not_nil (get "anyOf" m)
    then m
    else set "anyOf" (arr int_or_string) m

-- `NormalizeIntOrString.Mutate(schema)`
unfoldable pub normalize_int_or_string : Mutation
unfolding normalize_node
normalize_int_or_string schema = ok (record {
  schema = fields_of (walk_schema_nodes normalize_node (obj schema));
  template_args = [];
})

-- A node that is marked has alternatives.
abbrev pub IsNormal : Fields → String → Type 0
IsNormal m path =
    (not (is_true (get "x-kubernetes-int-or-string" m)) || is_not_nil (get "anyOf" m)) ≡ true

type_only-AllNodes : (t path : String) → AllNodes IsNormal (type_only t) path
unfolding get
type_only-AllNodes t path = node refl none_under
  where
    none_under :
        (v : Value) (q : String) → Child (field "type" (str t) end) path v q → AllNodes IsNormal v q
    none_under v q (property props name h g e) = cc h
    none_under v q (single key (inl k) h e) = cc (rw k at h)
    none_under v q (single key (inr k) h e) = cc (rw k at h)
    none_under v q (branch key l (inl k) h i e) = cc (rw k at h)
    none_under v q (branch key l (inr (inl k)) h i e) = cc (rw k at h)
    none_under v q (branch key l (inr (inr k)) h i e) = cc (rw k at h)

item-AllNodes : (v : Value) (path : String) → IsItem v int_or_string → AllNodes IsNormal v path
item-AllNodes v path (inl e) = rw e (type_only-AllNodes "integer" path)
item-AllNodes v path (inr (inl e)) = rw e (type_only-AllNodes "string" path)
item-AllNodes v path (inr (inr i)) = absurd i

module _ (m : Fields) (path : String) (under : AllUnder IsNormal m path) where
  under_set :
      (v : Value) (q : String)
      → Child (set "anyOf" (arr int_or_string) m) path v q
      → AllNodes IsNormal v q
  under_set v q (property props name h g e) = under v q (property props name (rw get-set at h) g e)
  under_set v q (single key (inl k) h e) =
      under v q (single key (inl k) (rw k (rw get-set at (rw k at h))) e)
  under_set v q (single key (inr k) h e) =
      under v q (single key (inr k) (rw k (rw get-set at (rw k at h))) e)
  under_set v q (branch key l (inl k) h i e) =
      under v q (branch key l (inl k) (rw k (rw get-set at (rw k at h))) i e)
  under_set v q (branch key l (inr (inl k)) h i e) =
      let e' : l ≡ int_or_string = cc (rw get-set at (rw k at h)) in
      item-AllNodes v q (subst (IsItem v) e' i)
  under_set v q (branch key l (inr (inr k)) h i e) =
      under v q (branch key l (inr (inr k)) (rw k (rw get-set at (rw k at h))) i e)

  normalize_node-AllNodes : AllNodes IsNormal (obj (normalize_node m)) path
  unfolding normalize_node
  normalize_node-AllNodes = elim (Bool-cases (is_true (get "x-kubernetes-int-or-string" m))) [
    | inr e ↦ rw e (node (ground (arith, e)) under)
    | inl e ↦ elim (Bool-cases (is_not_nil (get "anyOf" m))) [
      | inl h ↦ rw (e, h) (node (ground (arith, h)) under)
      | inr h ↦ rw (e, h) (node (rw (get-set, get-set) (ground arith)) under_set)
    ]
  ]

-- `NormalizeIntOrString` succeeds on every schema, and every node of the result that is marked with
-- `x-kubernetes-int-or-string` has an `anyOf`.
pub normalize_int_or_string-IsNormal :
    (schema : Fields)
    → (r : MutationResult) × (normalize_int_or_string schema ≡ ok r)
      × AllNodes IsNormal (obj r.schema) ""
unfolding normalize_int_or_string
normalize_int_or_string-IsNormal schema =
    let v = walk_schema_nodes normalize_node (obj schema) in
    let r : MutationResult = record { schema = fields_of v; template_args = [] } in
    (
      r,
      refl,
      rw (walk_schema_nodes-obj normalize_node schema) (
          walk_schema_nodes-AllNodes normalize_node IsNormal normalize_node-AllNodes ""
            (obj schema)),
    )
