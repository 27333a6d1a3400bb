-- ===== src/Mutations/FlattenAllOf/Merge.antt =====
-- What merging a branch of an `allOf` into its node makes of each keyword.
use becloudless.Prelude.{
  String, ◌≡◌, ◌≢◌, refl, sym, ◌∙◌, ap, none, some, false, List, [], ◌∷◌, ◌==◌, arith,
  if◌then◌else◌, Option, contains, eq_iff, eq_false_of_ne,
}
use becloudless.Json.{
  Value, Items, Fields, get, as_obj, as_arr, has, or_else, or_end, copy_fields, end,
}
use becloudless.Json.Laws.{get-set, get-copy_fields, get-end}
use becloudless.Mutations.FlattenAllOf.{
  merge_properties, merge_required, adopted, adopt, adopt_value, merge_all_of_branch,
}

get-adopt_value :
    (j key : String) (o : Option Value) (node : Fields)
    → get j (adopt_value key o node) ≡ (if key == j then or_else o (get j node) else get j node)
unfolding adopt_value
get-adopt_value j key none node = ground arith
get-adopt_value j key (some v) node = get-set j key v node

get-adopt_one :
    (j key : String) (branch node : Fields)
    → get j (if has key node then node else adopt_value key (get key branch) node)
      ≡ (if key == j then or_else (get j node) (get j branch) else get j node)
get-adopt_one j key branch node =
    ground (arith, eq_iff key j, get-adopt_value j key (get key branch) node)

pub get-adopt :
    (j : String) (keys : List String) (branch node : Fields)
    → get j (adopt keys branch node)
      ≡ (if contains keys j then or_else (get j node) (get j branch) else get j node)
unfolding adopt contains
get-adopt j [] branch node = refl
get-adopt j (key ∷ keys) branch node = ground (
  arith,
  get-adopt_one j key branch node,
  get-adopt j keys branch (if has key node then node else adopt_value key (get key branch) node),
)

pub get-merge_properties :
    (j : String) (node : Fields) (o : Option Fields)
    → ("properties" == j) ≡ false
    → get j (merge_properties node o) ≡ get j node
unfolding merge_properties
get-merge_properties j node none h = refl
get-merge_properties j node (some props) h = rw (get-set, h)

get-merge_required :
    (j : String) (node : Fields) (o : Option Items)
    → ("required" == j) ≡ false
    → get j (merge_required node o) ≡ get j node
unfolding merge_required
get-merge_required j node none h = refl
get-merge_required j node (some l) h = rw (get-set, h)

-- A keyword other than `properties` and `required` is the node's own if it has one. If it has none
-- it is the branch's, for the listed keywords; every other keyword of the branch is dropped.
pub get-merge_all_of_branch :
    (j : String) (node branch : Fields)
    → j ≢ "properties"
    → j ≢ "required"
    → get j (merge_all_of_branch node branch)
      ≡ (if contains adopted j then or_else (get j node) (get j branch) else get j node)
unfolding merge_all_of_branch
get-merge_all_of_branch j node branch p r = rw (
  get-adopt,
  get-merge_required j (merge_properties node (as_obj (get "properties" branch)))
      (as_arr (get "required" branch)) (eq_false_of_ne "required" j (λ e. r (sym e))),
  get-merge_properties j node (as_obj (get "properties" branch))
      (eq_false_of_ne "properties" j (λ e. p (sym e))),
)

-- The properties of a node before and after: those of a value that may be no object are none.
abbrev pub properties_of : Fields → Fields
properties_of m = or_end (as_obj (get "properties" m))

or_else-none : (o : Option Value) → or_else o none ≡ o
or_else-none none = refl
or_else-none (some v) = refl

merged_properties : Fields → Option Fields → Fields
merged_properties node none = properties_of node
merged_properties node (some props) = copy_fields (copy_fields end props) (properties_of node)

get-merged_properties :
    (name : String) (node : Fields) (o : Option Fields)
    → get name (merged_properties node o)
      ≡ or_else (get name (properties_of node)) (get name (or_end o))
unfolding merged_properties
get-merged_properties name node none = simp (get-end, or_else-none)
get-merged_properties name node (some props) = simp (get-copy_fields, get-end, or_else-none)

properties_of-merge_properties :
    (node : Fields) (o : Option Fields)
    → properties_of (merge_properties node o) ≡ merged_properties node o
unfolding merge_properties merged_properties
properties_of-merge_properties node none = refl
properties_of-merge_properties node (some props) = rw get-set

properties-merge_all_of_branch :
    (node branch : Fields)
    → get "properties" (merge_all_of_branch node branch)
      ≡ get "properties" (merge_properties node (as_obj (get "properties" branch)))
unfolding merge_all_of_branch contains
properties-merge_all_of_branch node branch =
    let node₁ = merge_properties node (as_obj (get "properties" branch)) in
    let req = as_arr (get "required" branch) in
    get-adopt "properties" adopted branch (merge_required node₁ req)
    ∙ get-merge_required "properties" node₁ req refl

-- A property of the merged node is the node's own if it has one of that name, else the branch's.
pub get-properties_of :
    (name : String) (node branch : Fields)
    → get name (properties_of (merge_all_of_branch node branch))
      ≡ or_else (get name (properties_of node)) (get name (properties_of branch))
get-properties_of name node branch =
    let o = as_obj (get "properties" branch) in
    ap (λ p. get name (or_end (as_obj p))) (properties-merge_all_of_branch node branch)
    ∙ ap (get name) (properties_of-merge_properties node o)
    ∙ get-merged_properties name node o
