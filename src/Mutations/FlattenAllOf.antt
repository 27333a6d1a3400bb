-- ===== src/Mutations/FlattenAllOf.antt =====
-- The branches of an `allOf` are merged into their node:
-- kube/charts/base/templates/resources/mutations/flattenAllOf/flattenAllOf.go.
pub mod Merge
pub mod Required
pub mod Flat
use becloudless.Prelude.{
  String, Bool, true, false, not, ◌&&◌, ◌||◌, Option, none, some, List, [], ◌∷◌, ◌==◌,
  if◌then◌else◌, contains,
}
use becloudless.Json.{
  Value, null, bool, num, str, arr, obj, Items, nil, cons, Fields, end, field, get, set, delete,
  has, is_some, as_obj, as_arr, or_end, copy_fields, fields_of,
}
use becloudless.Walk.Plain.{walk_schema_nodes}
use becloudless.Mutations.{Result, ok, err, MutationResult, Mutation, text_of}

-- `append(out, r)`
pub append_item : Items → Value → Items
append_item nil r = cons r nil
append_item (cons v out) r = cons v (append_item out r)

-- `seen` and `out` of the union of two `required` lists
pub record Union : Type 0 where
  pub seen : List String
  pub out : Items

unfoldable pub add_one : Union → Value → Union
unfolding append_item
add_one u r =
    let s = text_of r in
    if not (s == "") && not (contains u.seen s)
    then record { seen = s ∷ u.seen; out = append_item u.out r }
    else u

-- `for _, r := range list`
unfoldable pub add_required : Union → Items → Union
unfolding add_one
add_required u nil = u
add_required u (cons r list) = add_required (add_one u r) list

-- the `required` of a node, which may be missing
abbrev pub or_nil : Option Items → Items
or_nil none = nil
or_nil (some l) = l

pub merge_properties : Fields → Option Fields → Fields
merge_properties node none = node
merge_properties node (some props) =
    set "properties"
      (obj (copy_fields (copy_fields end props) (or_end (as_obj (get "properties" node))))) node

pub merge_required : Fields → Option Items → Fields
unfolding add_required
merge_required node none = node
merge_required node (some req) =
    let existing =
      add_required (record { seen = []; out = nil }) (or_nil (as_arr (get "required" node))) in
    set "required" (arr (add_required existing req).out) node

-- The keywords that a node takes over from a branch.
abbrev pub adopted : List String
adopted =
    "type" ∷ "additionalProperties" ∷ "items" ∷ "format" ∷ "enum" ∷ "pattern" ∷ "minLength"
    ∷ "maxLength" ∷ "minimum" ∷ "maximum" ∷ "x-kubernetes-int-or-string" ∷ []

adopt_value : String → Option Value → Fields → Fields
adopt_value key none node = node
adopt_value key (some v) node = set key v node

unfoldable pub adopt : List String → Fields → Fields → Fields
unfolding adopt_value
adopt [] branch node = node
adopt (key ∷ keys) branch node =
    adopt keys branch (if has key node then node else adopt_value key (get key branch) node)

-- `mergeAllOfBranch(node, branch)`
unfoldable pub merge_all_of_branch : Fields → Fields → Fields
merge_all_of_branch node branch =
    let node₁ = merge_properties node (as_obj (get "properties" branch)) in
    let node₂ = merge_required node₁ (as_arr (get "required" branch)) in adopt adopted branch node₂

pub merge_branches : Fields → Items → Fields
unfolding merge_all_of_branch
merge_branches node nil = node
merge_branches node (cons (obj branch) all_of) =
    merge_branches (merge_all_of_branch node branch) all_of
merge_branches node (cons item all_of) = merge_branches node all_of

flatten_with : Fields → Option Items → Fields
unfolding merge_branches
flatten_with node none = node
flatten_with node (some nil) = node
flatten_with node (some (cons item all_of)) =
    merge_branches (delete "allOf" node) (cons item all_of)

-- `flattenAllOfNode(node)`
unfoldable pub flatten_all_of_node : Fields → Fields
unfolding flatten_with
flatten_all_of_node node = flatten_with node (as_arr (get "allOf" node))

-- `FlattenAllOf.Mutate(schema)`
unfoldable pub flatten_all_of : Mutation
unfolding flatten_all_of_node
flatten_all_of schema = ok (record {
  schema = fields_of (walk_schema_nodes flatten_all_of_node (obj schema));
  template_args = [];
})
