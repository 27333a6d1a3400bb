-- ===== src/Mutations/EditedNodes.antt =====
-- Nodes that a walk finds and that are changed after it, as listShorthands.go and refs.go of
-- kube/charts/base/templates/resources/mutations do. Go keeps pointers to the nodes; here a node is its
-- place in the order of the visits, and a second walk, which visits in the same order, changes them.
use becloudless.Prelude.{
  ℕ, suc, String, Bool, false, ◌||◌, Option, none, some, List, [], ◌∷◌, ◌++◌, if◌then◌else◌, eqb,
  Dict, lookup, insert,
}
use becloudless.Json.{obj, Fields, fields_of}
use becloudless.Walk.{Visit, walk_schema_nodes_with_path}

-- a node and its place
abbrev pub Found : Type 0
Found = ℕ × Fields

abbrev pub found_at : String → Dict (List Found) → List Found
found_at path found = elim (lookup path found) [ none ↦ [] | some nodes ↦ nodes ]

-- The visit that keeps the nodes of the paths that are asked for, the first one first, and counts.
unfoldable pub collect_visit : (Fields → String → Bool) → Visit (ℕ × Dict (List Found))
collect_visit wanted node path (place, found) = (
  node,
  (
    suc place,
    if wanted node path
        then insert path (found_at path found ++ (place, node) ∷ []) found
        else found,
  ),
)

unfoldable pub found_nodes : (Fields → String → Bool) → Fields → Dict (List Found)
unfolding collect_visit
found_nodes wanted schema =
    (walk_schema_nodes_with_path (collect_visit wanted) "" (obj schema) (0, [])).1.1

-- The visit that changes the nodes at some places.
unfoldable pub edit_visit : (ℕ → Fields → Fields) → Visit ℕ
edit_visit edit node path place = (edit place node, suc place)

unfoldable pub edit_nodes : (ℕ → Fields → Fields) → Fields → Fields
unfolding edit_visit
edit_nodes edit schema =
    fields_of ((walk_schema_nodes_with_path (edit_visit edit) "" (obj schema) 0).0)

abbrev pub is_place_of : ℕ → List ℕ → Bool
is_place_of place [] = false
is_place_of place (p ∷ places) = eqb place p || is_place_of place places

-- the last node that was found
abbrev pub last_found : List Found → Option Found
last_found [] = none
last_found (f ∷ []) = some f
last_found (f ∷ g ∷ nodes) = last_found (g ∷ nodes)
