-- ===== src/Walk/Visited.antt =====
-- The walk of kube/charts/base/templates/resources/mutations/helpers.go over states that correspond,
-- and the nodes that it visits.
use becloudless.Prelude.{ℕ, zero, suc, String, ◌≡◌, refl, Option, none, some, List, [], ◌∷◌}
use becloudless.Json.{Value, obj, Items, nil, cons, Fields, end, field, get, depth, as_obj, as_arr}
use becloudless.Walk.{
  Visit, child_path, walk_props, walk_list, in_properties, in_single, in_list, at_properties,
  at_single, at_list, walk_children, walk_node, walk_fuel, walk_schema_nodes_with_path,
}

-- A result with its state translated.
abbrev pub translated : {A S T : Type 0} → (S → T) → A × S → A × T
translated f r = (r.0, f r.1)

module _ {S T : Type 0} (f : S → T) (w : String → Value → S → Value × S)
    (u : String → Value → T → Value × T)
    (agree : (p : String) (v : Value) (s : S) → u p v (f s) ≡ translated f (w p v s)) where
  walk_props-translated :
      (path : String) (props : Fields) (s : S)
      → walk_props u path props (f s) ≡ translated f (walk_props w path props s)
  unfolding walk_props
  walk_props-translated path end s = refl
  walk_props-translated path (field j v props) s =
      rw
        (
          agree (child_path path j) v s,
          walk_props-translated path props (w (child_path path j) v s).1,
        )
        refl

  walk_list-translated :
      (path : String) (list : Items) (s : S)
      → walk_list u path list (f s) ≡ translated f (walk_list w path list s)
  unfolding walk_list
  walk_list-translated path nil s = refl
  walk_list-translated path (cons v list) s =
      rw (agree path v s, walk_list-translated path list (w path v s).1) refl

  in_properties-translated :
      (path : String) (m : Fields) (o : Option Fields) (s : S)
      → in_properties u path m o (f s) ≡ translated f (in_properties w path m o s)
  unfolding in_properties
  in_properties-translated path m none s = refl
  in_properties-translated path m (some props) s = rw (walk_props-translated path props s) refl

  in_single-translated :
      (key path : String) (m : Fields) (o : Option Fields) (s : S)
      → in_single u key path m o (f s) ≡ translated f (in_single w key path m o s)
  unfolding in_single
  in_single-translated key path m none s = refl
  in_single-translated key path m (some node) s = rw (agree path (obj node) s) refl

  in_list-translated :
      (key path : String) (m : Fields) (o : Option Items) (s : S)
      → in_list u key path m o (f s) ≡ translated f (in_list w key path m o s)
  unfolding in_list
  in_list-translated key path m none s = refl
  in_list-translated key path m (some list) s = rw (walk_list-translated path list s) refl

  at_properties-translated :
      (path : String) (m : Fields) (s : S)
      → at_properties u path m (f s) ≡ translated f (at_properties w path m s)
  unfolding at_properties
  at_properties-translated path m s =
      in_properties-translated path m (as_obj (get "properties" m)) s

  at_single-translated :
      (key path : String) (m : Fields) (s : S)
      → at_single u key path m (f s) ≡ translated f (at_single w key path m s)
  unfolding at_single
  at_single-translated key path m s = in_single-translated key path m (as_obj (get key m)) s

  at_list-translated :
      (key path : String) (m : Fields) (s : S)
      → at_list u key path m (f s) ≡ translated f (at_list w key path m s)
  unfolding at_list
  at_list-translated key path m s = in_list-translated key path m (as_arr (get key m)) s

  walk_children-translated :
      (path : String) (m : Fields) (s : S)
      → walk_children u path m (f s) ≡ translated f (walk_children w path m s)
  unfolding walk_children
  walk_children-translated path m s =
      simp (at_properties-translated, at_single-translated, at_list-translated)

module _ {S T : Type 0} (f : S → T) (visit : Visit S) (other : Visit T)
    (agree : (m : Fields) (p : String) (s : S) → other m p (f s) ≡ translated f (visit m p s)) where
  walk_fuel-translated :
      (fuel : ℕ) (path : String) (v : Value) (s : S)
      → walk_fuel other fuel path v (f s) ≡ translated f (walk_fuel visit fuel path v s)
  unfolding walk_fuel walk_node
  walk_fuel-translated zero path v s = refl
  walk_fuel-translated (suc fuel) path (obj m) s =
      let (m', s') = walk_children (walk_fuel visit fuel) path m s in
      rw
        (
          walk_children-translated f (walk_fuel visit fuel) (walk_fuel other fuel)
              (walk_fuel-translated fuel) path m s,
          agree m' path s',
        )
        refl
  walk_fuel-translated (suc fuel) path _ s = refl

  -- Visits that do the same to the nodes, and whose states correspond, walk in step.
  pub walk_schema_nodes_with_path-translated :
      (path : String) (v : Value) (s : S)
      → walk_schema_nodes_with_path other path v (f s)
        ≡ translated f (walk_schema_nodes_with_path visit path v s)
  unfolding walk_schema_nodes_with_path
  walk_schema_nodes_with_path-translated path v s = walk_fuel-translated (depth v) path v s

-- A visit that notes each node with its path.
abbrev pub note : Visit (List (String × Fields))
note node path nodes = (node, (path, node) ∷ nodes)

-- The nodes of a schema with their paths, the one that the walk visits last first.
unfoldable pub nodes_of : Fields → List (String × Fields)
nodes_of schema = (walk_schema_nodes_with_path note "" (obj schema) []).1
