-- ===== src/Mutations/Required.antt =====
-- The `required` lists of a schema are moved into a tree for the template:
-- kube/charts/base/templates/resources/mutations/required/Required.go. The recursion of `collect` is
-- on fuel, for which it takes the depth of the schema.
pub mod RequiredTree
pub mod Asks
pub mod Demands
pub mod Stages
pub mod Collect
use becloudless.Prelude.{
  String, ◌≡◌, ◌≢◌, refl, sym, ◌∙◌, ap, ◌⊎◌, ◌↔◌, inl, inr, Bool, true, false, not, ◌&&◌, ◌||◌,
  Option, none, some, List, [], ◌∷◌, ◌++◌, map, ◌==◌, ◌&◌, if◌then◌else◌, join, has_suffix,
  contains, sort_strings, quote, arith, Bool-cases, if_ind, Option-cases, eq_iff, eq_refl,
  ne_of_eq_false, eq_false_of_ne, ℕ, zero, suc, ◌+◌, ◌≤◌, Dict, insert, lookup, copy, lookup-copy,
  lookup-insert,
}
use becloudless.Json.{
  Value, null, bool, num, str, arr, obj, Items, nil, cons, Fields, end, field, get, set, delete,
  has, is_some, as_obj, as_arr, as_str, or_end, or_empty, fields_of, copy_fields, or_else, IsItem,
}
use becloudless.Json.Laws.{
  get-set, get-delete, get-copy_fields, get-end, as_obj-eq-some, as_arr-eq-some, json_laws,
}
use becloudless.Walk.{Visit, walk_schema_nodes_with_path, child_path}
use becloudless.Walk.Plain.{walk_schema_nodes, walk_schema_nodes-AllNodes, walk_schema_nodes-obj}
use becloudless.Walk.Rule.{walk_schema_nodes_with_path-AllNodes, walk_schema_nodes_with_path-obj}
use becloudless.Walk.Nodes.{
  Child, property, single, branch, IsSingle, IsBranch, AllNodes, node, leaf, AllUnder, Child-delete,
}
use becloudless.Mutations.{
  Result, ok, err, ◌>>=◌, MutationResult, Mutation, or_null, text_of, schema_type_includes,
  replace_schema_type, mutate_schema, mutate_from,
}
use becloudless.Json.{depth}
use becloudless.Mutations.Required.RequiredTree.{
  Tree, tree, Children, no_child, child, Each, no_each, each, merge, is_empty, no_tree, expr,
  set_child,
}

-- the texts of a `required` list, each once
unfoldable pub distinct_texts : List String → Items → List String
distinct_texts out nil = out
distinct_texts out (cons r list) =
    distinct_texts
      (if not (text_of r == "") && not (contains out (text_of r))
        then out ++ text_of r ∷ []
        else out)
      list

take_list : Fields → Option Items → Fields × List String
unfolding distinct_texts
take_list m none = (m, [])
take_list m (some req) = (delete "required" m, distinct_texts [] req)

-- the node's own list, which leaves the schema unless the node is an alternative
pub take_required : Fields → Bool → Fields × List String
unfolding take_list
take_required m true = (m, [])
take_required m false = take_list m (as_arr (get "required" m))

-- `&node{}` where the pointer was nil
abbrev pub or_no_tree : Each → Tree
or_no_tree no_each = no_tree
or_no_tree (each t) = t

module _ (collect : Fields → Bool → Fields × Tree) where
  -- `for name, v := range props`; no name comes twice, so each is new to `properties`
  pub collect_props : Fields → Fields × Children
  collect_props end = (end, no_child)
  collect_props (field name (obj c) props) =
      let (c', t) = collect c false in
      let (props', children) = collect_props props in
      (field name (obj c') props', if is_empty t then children else child name t children)
  collect_props (field name v props) =
      let (props', children) = collect_props props in (field name v props', children)

  pub in_props : Fields → Option Fields → Fields × Children
  unfolding collect_props
  in_props m none = (m, no_child)
  in_props m (some props) =
      let (props', children) = collect_props props in (set "properties" (obj props') m, children)

  pub in_each : String → Fields → Option Fields → Each → Fields × Each
  in_each key m none e = (m, e)
  in_each key m (some c) e =
      let (c', t) = collect c false in
      (set key (obj c') m, if is_empty t then e else each (merge (or_no_tree e) t))

  -- `for _, b := range branches`
  pub collect_branches : Bool → Items → Tree → Items × Tree
  collect_branches alternative nil out = (nil, out)
  collect_branches alternative (cons (obj b) list) out =
      let (b', t) = collect b alternative in
      let (list', out') = collect_branches alternative list (merge out t) in
      (cons (obj b') list', out')
  collect_branches alternative (cons v list) out =
      let (list', out') = collect_branches alternative list out in (cons v list', out')

  pub in_branches : String → Bool → Fields → Option Items → Tree → Fields × Tree
  unfolding collect_branches
  in_branches key alternative m none out = (m, out)
  in_branches key alternative m (some list) out =
      let (list', out') = collect_branches alternative list out in (set key (arr list') m, out')

  pub collect_node : Fields → Bool → Fields × Tree
  unfolding in_props in_each in_branches
  collect_node m alternative =
      let (m₀, required) = take_required m alternative in
      let (m₁, children) = in_props m₀ (as_obj (get "properties" m₀)) in
      let (m₂, e₁) =
        in_each "additionalProperties" m₁ (as_obj (get "additionalProperties" m₁)) no_each in
      let (m₃, e₂) = in_each "items" m₂ (as_obj (get "items" m₂)) e₁ in
      let (m₄, out₁) =
        in_branches "oneOf" true m₃ (as_arr (get "oneOf" m₃)) (tree required children e₂) in
      let (m₅, out₂) = in_branches "anyOf" true m₄ (as_arr (get "anyOf" m₄)) out₁ in
      in_branches "allOf" false m₅ (as_arr (get "allOf" m₅)) out₂

pub collect_fuel : ℕ → Fields → Bool → Fields × Tree
collect_fuel zero m alternative = (m, no_tree)
collect_fuel (suc fuel) m alternative = collect_node (collect_fuel fuel) m alternative

-- `collect(schema, alternative)`
unfoldable pub collect : Fields → Bool → Fields × Tree
unfolding collect_fuel collect_node take_required
collect m alternative = collect_fuel (depth (obj m)) m alternative

-- `Required.Mutate(schema)`
unfoldable pub required : Mutation
unfolding collect
required schema =
    let (schema', t) = collect schema false in
    let e = expr t in
    ok (record { schema = schema'; template_args = if e == "" then [] else ("required", e) ∷ [] })
