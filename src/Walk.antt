-- ===== src/Walk.antt =====
-- The walk over the nodes of a JSON schema: `WalkSchemaNodes` and `WalkSchemaNodesWithPath` of
-- kube/charts/base/templates/resources/mutations/helpers.go. A visit rewrites the node that it is
-- given; what its closure keeps between visits is the state `S`. The recursion is on fuel, which
-- is the depth of the value.
pub mod Nodes
pub mod Stages
pub mod Fuel
pub mod Rule
pub mod Plain
pub mod Visited
use becloudless.Prelude.{
  ℕ, zero, suc, String, Bool, true, false, Option, none, some, ◌==◌, ◌&◌, if◌then◌else◌,
}
use becloudless.Json.{
  Value, null, bool, num, str, arr, obj, Items, nil, cons, Fields, end, field, get, set, as_obj,
  as_arr, depth,
}

-- `func(node map[string]any, path string)`, over what it captures
abbrev pub Visit : Type 0 → Type 0
Visit S = Fields → String → S → Fields × S

-- the path of the property `name` of the object at `path`
unfoldable pub child_path : String → String → String
child_path path name = if path == "" then name else path & "." & name

module _ {S : Type 0} (walk : String → Value → S → Value × S) where
  -- `for name, v := range props`
  pub walk_props : String → Fields → S → Fields × S
  walk_props path end s = (end, s)
  walk_props path (field name v props) s =
      let (v', s₁) = walk (child_path path name) v s in
      let (props', s₂) = walk_props path props s₁ in (field name v' props', s₂)

  -- `for _, v := range list`
  pub walk_list : String → Items → S → Items × S
  walk_list path nil s = (nil, s)
  walk_list path (cons v list) s =
      let (v', s₁) = walk path v s in
      let (list', s₂) = walk_list path list s₁ in (cons v' list', s₂)

  pub in_properties : String → Fields → Option Fields → S → Fields × S
  in_properties path m none s = (m, s)
  in_properties path m (some props) s =
      let (props', s') = walk_props path props s in (set "properties" (obj props') m, s')

  pub in_single : String → String → Fields → Option Fields → S → Fields × S
  in_single key path m none s = (m, s)
  in_single key path m (some node) s = let (v, s') = walk path (obj node) s in (set key v m, s')

  pub in_list : String → String → Fields → Option Items → S → Fields × S
  in_list key path m none s = (m, s)
  in_list key path m (some list) s =
      let (list', s') = walk_list path list s in (set key (arr list') m, s')

  pub at_properties : String → Fields → S → Fields × S
  unfolding in_properties
  at_properties path m s = in_properties path m (as_obj (get "properties" m)) s

  pub at_single : String → String → Fields → S → Fields × S
  unfolding in_single
  at_single key path m s = in_single key path m (as_obj (get key m)) s

  pub at_list : String → String → Fields → S → Fields × S
  unfolding in_list
  at_list key path m s = in_list key path m (as_arr (get key m)) s

  -- the children of a node, in the order of the code
  pub walk_children : String → Fields → S → Fields × S
  walk_children path m s =
      let (m₁, s₁) = at_properties path m s in
      let (m₂, s₂) = at_single "additionalProperties" path m₁ s₁ in
      let (m₃, s₃) = at_single "items" path m₂ s₂ in
      let (m₄, s₄) = at_list "oneOf" path m₃ s₃ in
      let (m₅, s₅) = at_list "anyOf" path m₄ s₄ in at_list "allOf" path m₅ s₅

-- A node after its children.
module _ {S : Type 0} (visit : Visit S) where
  pub walk_node : (String → Value → S → Value × S) → String → Value → S → Value × S
  walk_node walk path (obj m) s =
      let (m₁, s₁) = walk_children walk path m s in let (m₂, s₂) = visit m₁ path s₁ in (obj m₂, s₂)
  walk_node walk path v s = (v, s)

  pub walk_fuel : ℕ → String → Value → S → Value × S
  walk_fuel zero path v s = (v, s)
  walk_fuel (suc fuel) path v s = walk_node (walk_fuel fuel) path v s

  -- `WalkSchemaNodesWithPath(node, path, visit)`
  unfoldable pub walk_schema_nodes_with_path : String → Value → S → Value × S
  walk_schema_nodes_with_path path v s = walk_fuel (depth v) path v s
