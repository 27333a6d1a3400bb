-- ===== src/Mutations/ArraysToMaps/Converted.antt =====
-- About the nodes of the schema that arraysToMaps.go leaves.
use becloudless.Prelude.{
  String, ◌≡◌, refl, ◌⊎◌, inl, inr, none, some, Bool, true, false, not, ◌&&◌, List, [], ◌∷◌, arith,
  Option, contains, Bool-cases,
}
use becloudless.Json.{obj, Fields, get, as_obj, fields_of}
use becloudless.Json.Laws.{as_obj-eq-some}
use becloudless.Walk.{walk_schema_nodes_with_path}
use becloudless.Walk.Nodes.{single, AllNodes, node, AllUnder}
use becloudless.Walk.Rule.{walk_schema_nodes_with_path-AllNodes, walk_schema_nodes_with_path-obj}
use becloudless.Mutations.{ok, MutationResult}
use becloudless.Mutations.Conversion.{is_array, convert_visit, path_list}
use becloudless.Mutations.Conversion.Children.{is_array-as_map, AllUnder-as_map}
use becloudless.Mutations.ArraysToMaps.{
  ArraysToMaps, convert_array_node_to_map, convert_items, arrays_to_maps,
}

-- a node that the conversion is for: an array whose items an object describes
abbrev pub has_items : Option Fields → Bool
has_items none = false
has_items (some items) = true

abbrev pub is_array_of_objects : Fields → Bool
is_array_of_objects m = is_array m && has_items (as_obj (get "items" m))

-- The path is ignored, or the node is no array of objects.
abbrev pub IsConverted : List String → Fields → String → Type 0
IsConverted ignore m path = (contains ignore path ≡ true) ⊎ (is_array_of_objects m ≡ false)

module _ (ignore : List String) where
  -- a node with nothing to convert stays as it is
  keep_node :
      {m : Fields} {path : String}
      → is_array_of_objects m ≡ false
      → AllUnder (IsConverted ignore) m path
      → AllNodes (IsConverted ignore) (obj m) path
  keep_node h under = node (inr h) under

  convert_items-AllNodes :
      (m : Fields) (path : String) (o : Option Fields)
      → as_obj (get "items" m) ≡ o
      → AllUnder (IsConverted ignore) m path
      → AllNodes (IsConverted ignore) (obj (convert_items m o).0) path
  unfolding convert_items
  convert_items-AllNodes m path none e under = node (inr (rw e (ground arith))) under
  convert_items-AllNodes m path (some items) e under = node (inr (rw is_array-as_map refl)) (
      AllUnder-as_map (obj items) m (IsConverted ignore) path under
        (under (obj items) path (single "items" (inr refl) (as_obj-eq-some _ e) refl)))

  convert-AllNodes :
      (m : Fields) (path : String)
      → AllUnder (IsConverted ignore) m path
      → AllNodes (IsConverted ignore) (obj (convert_array_node_to_map m).0) path
  unfolding convert_array_node_to_map
  convert-AllNodes m path under = elim (Bool-cases (is_array m)) [
    | inl yes_array ↦ rw yes_array (convert_items-AllNodes m path _ refl under)
    | inr no_array ↦ rw no_array (node (inr (rw no_array)) under)
  ]

  visit-AllNodes :
      (m : Fields) (path : String) (s : List String)
      → AllUnder (IsConverted ignore) m path
      → AllNodes
          (IsConverted ignore)
          (obj (convert_visit (λ p. not (contains ignore p)) convert_array_node_to_map m path s).0)
          path
  unfolding convert_visit
  visit-AllNodes m path s under = elim (Bool-cases (contains ignore path)) [
    | inl ignored ↦ rw ignored (node (inl ignored) under)
    | inr other ↦ rw other (convert-AllNodes m path under)
  ]

-- Unless it is disabled, `ArraysToMaps` succeeds on every schema, and at every path that is not
-- ignored no node of the result is an array whose items an object describes.
pub arrays_to_maps-IsConverted :
    (m : ArraysToMaps) (schema : Fields)
    → m.disabled ≡ false
    → (r : MutationResult) × (arrays_to_maps m schema ≡ ok r)
      × AllNodes (IsConverted m.ignore) (obj r.schema) ""
unfolding arrays_to_maps
arrays_to_maps-IsConverted m schema h =
    let visit = convert_visit (λ p. not (contains m.ignore p)) convert_array_node_to_map in
    let (v, paths) = walk_schema_nodes_with_path visit "" (obj schema) [] in
    let r : MutationResult = record {
      schema = fields_of v;
      template_args = ("arrayPaths", path_list paths) ∷ [];
    } in
    (
      r,
      rw h,
      rw (walk_schema_nodes_with_path-obj visit "" schema []) (
          walk_schema_nodes_with_path-AllNodes visit (IsConverted m.ignore)
            (visit-AllNodes m.ignore) "" (obj schema) []),
    )
