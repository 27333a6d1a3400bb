-- ===== src/Walk/Plain.antt =====
-- `WalkSchemaNodes` of kube/charts/base/templates/resources/mutations/helpers.go, the walk whose
-- visits need neither path nor state.
use becloudless.Prelude.{ℕ, zero, suc, String, ◌≡◌, refl, Option, none, some}
use becloudless.Json.{
  Value, obj, arr, Items, nil, cons, Fields, end, field, get, set, depth, as_obj, as_arr, fields_of,
}
use becloudless.Walk.{
  Visit, child_path, walk_props, walk_list, in_properties, in_single, in_list, at_properties,
  at_single, at_list, walk_children, walk_node, walk_fuel, walk_schema_nodes_with_path,
}
use becloudless.Walk.Nodes.{AllNodes, AllUnder}
use becloudless.Walk.Rule.{walk_schema_nodes_with_path-AllNodes}

module _ (walk : Value → Value) where
  plain_props : Fields → Fields
  plain_props end = end
  plain_props (field name v props) = field name (walk v) (plain_props props)

  plain_list : Items → Items
  plain_list nil = nil
  plain_list (cons v list) = cons (walk v) (plain_list list)

  plain_in_properties : Fields → Option Fields → Fields
  unfolding plain_props
  plain_in_properties m none = m
  plain_in_properties m (some props) = set "properties" (obj (plain_props props)) m

  plain_in_single : String → Fields → Option Fields → Fields
  plain_in_single key m none = m
  plain_in_single key m (some node) = set key (walk (obj node)) m

  plain_in_list : String → Fields → Option Items → Fields
  unfolding plain_list
  plain_in_list key m none = m
  plain_in_list key m (some list) = set key (arr (plain_list list)) m

  plain_single : String → Fields → Fields
  unfolding plain_in_single
  plain_single key m = plain_in_single key m (as_obj (get key m))

  plain_branches : String → Fields → Fields
  unfolding plain_in_list
  plain_branches key m = plain_in_list key m (as_arr (get key m))

  plain_children : Fields → Fields
  unfolding plain_in_properties plain_single plain_branches
  plain_children m =
      let m₁ = plain_in_properties m (as_obj (get "properties" m)) in
      let m₂ = plain_single "additionalProperties" m₁ in
      let m₃ = plain_single "items" m₂ in
      let m₄ = plain_branches "oneOf" m₃ in
      let m₅ = plain_branches "anyOf" m₄ in plain_branches "allOf" m₅

module _ (visit : Fields → Fields) where
  plain_node : (Value → Value) → Value → Value
  unfolding plain_children
  plain_node walk (obj m) = obj (visit (plain_children walk m))
  plain_node walk v = v

  plain_fuel : ℕ → Value → Value
  unfolding plain_node
  plain_fuel zero v = v
  plain_fuel (suc fuel) v = plain_node (plain_fuel fuel) v

  -- `WalkSchemaNodes(node, visit)`
  unfoldable pub walk_schema_nodes : Value → Value
  unfolding plain_fuel
  walk_schema_nodes v = plain_fuel (depth v) v

-- The same visit, for the walk with paths; it keeps no state.
abbrev pub with_path : (Fields → Fields) → Visit Unit
with_path visit m path s = (visit m, s)

module _ (w : String → Value → Unit {0} → Value × Unit {0}) (u : Value → Value)
    (agree : (p : String) (v : Value) (s : Unit {0}) → w p v s ≡ (u v, s)) where
  plain_props-eq :
      (path : String) (props : Fields) (s : Unit {0})
      → walk_props w path props s ≡ (plain_props u props, s)
  unfolding walk_props plain_props
  plain_props-eq path end s = refl
  plain_props-eq path (field j v props) s =
      rw (agree (child_path path j) v s, plain_props-eq path props s)

  plain_list-eq :
      (path : String) (list : Items) (s : Unit {0})
      → walk_list w path list s ≡ (plain_list u list, s)
  unfolding walk_list plain_list
  plain_list-eq path nil s = refl
  plain_list-eq path (cons v list) s = rw (agree path v s, plain_list-eq path list s)

  in_properties-eq :
      (path : String) (m : Fields) (o : Option Fields) (s : Unit {0})
      → in_properties w path m o s ≡ (plain_in_properties u m o, s)
  unfolding in_properties plain_in_properties
  in_properties-eq path m none s = refl
  in_properties-eq path m (some props) s = rw (plain_props-eq path props s)

  in_single-eq :
      (key path : String) (m : Fields) (o : Option Fields) (s : Unit {0})
      → in_single w key path m o s ≡ (plain_in_single u key m o, s)
  unfolding in_single plain_in_single
  in_single-eq key path m none s = refl
  in_single-eq key path m (some node) s = rw (agree path (obj node) s)

  in_list-eq :
      (key path : String) (m : Fields) (o : Option Items) (s : Unit {0})
      → in_list w key path m o s ≡ (plain_in_list u key m o, s)
  unfolding in_list plain_in_list
  in_list-eq key path m none s = refl
  in_list-eq key path m (some list) s = rw (plain_list-eq path list s)

  at_properties-eq :
      (path : String) (m : Fields) (s : Unit {0})
      → at_properties w path m s ≡ (plain_in_properties u m (as_obj (get "properties" m)), s)
  unfolding at_properties
  at_properties-eq path m s = in_properties-eq path m (as_obj (get "properties" m)) s

  at_single-eq :
      (key path : String) (m : Fields) (s : Unit {0})
      → at_single w key path m s ≡ (plain_single u key m, s)
  unfolding at_single plain_single
  at_single-eq key path m s = in_single-eq key path m (as_obj (get key m)) s

  at_list-eq :
      (key path : String) (m : Fields) (s : Unit {0})
      → at_list w key path m s ≡ (plain_branches u key m, s)
  unfolding at_list plain_branches
  at_list-eq key path m s = in_list-eq key path m (as_arr (get key m)) s

  plain_children-eq :
      (path : String) (m : Fields) (s : Unit {0})
      → walk_children w path m s ≡ (plain_children u m, s)
  unfolding walk_children plain_children
  plain_children-eq path m s = simp (at_properties-eq, at_single-eq, at_list-eq)

module _ (visit : Fields → Fields) where
  plain_fuel-eq :
      (fuel : ℕ) (path : String) (v : Value) (s : Unit {0})
      → walk_fuel (with_path visit) fuel path v s ≡ (plain_fuel visit fuel v, s)
  unfolding walk_fuel walk_node plain_fuel
  plain_fuel-eq zero path v s = refl
  plain_fuel-eq (suc fuel) path (obj m) s = rw (
      plain_children-eq (walk_fuel (with_path visit) fuel) (plain_fuel visit fuel)
        (plain_fuel-eq fuel) path m s)
  plain_fuel-eq (suc fuel) path _ s = refl

  -- `WalkSchemaNodesWithPath` behaves like `WalkSchemaNodes`: from any path, with the visit that
  -- ignores the path and keeps no state, it gives the same schema.
  pub walk_schema_nodes-eq :
      (path : String) (v : Value)
      → walk_schema_nodes visit v ≡ (walk_schema_nodes_with_path (with_path visit) path v tt).0
  unfolding walk_schema_nodes walk_schema_nodes_with_path
  walk_schema_nodes-eq path v = rw (plain_fuel-eq (depth v) path v tt)

  pub walk_schema_nodes-AllNodes :
      (P : Fields → String → Type 0)
      → ((m : Fields) (path : String) → AllUnder P m path → AllNodes P (obj (visit m)) path)
      → (path : String) (v : Value) → AllNodes P (walk_schema_nodes visit v) path
  walk_schema_nodes-AllNodes P step path v =
      rw (walk_schema_nodes-eq path v)
        (walk_schema_nodes_with_path-AllNodes (with_path visit) P (λ m p s h. step m p h) path v tt)

  -- The walk keeps an object an object.
  pub walk_schema_nodes-obj :
      (m : Fields)
      → obj (fields_of (walk_schema_nodes visit (obj m))) ≡ walk_schema_nodes visit (obj m)
  unfolding walk_schema_nodes depth
  walk_schema_nodes-obj m = refl
