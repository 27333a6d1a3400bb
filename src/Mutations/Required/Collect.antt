-- ===== src/Mutations/Required/Collect.antt =====
-- About the tree that `collect` of Required.go builds.
use becloudless.Prelude.{
  String, ◌≡◌, refl, ◌∙◌, ap, Bool, true, false, not, ◌&&◌, ◌||◌, Option, none, some, List, [], ◌∷◌,
  ◌++◌, ◌==◌, if◌then◌else◌, contains, arith, eq_iff, ℕ, zero, suc,
}
use becloudless.Json.{Value, obj, Items, nil, cons, Fields, end, field, get, as_obj, as_arr, or_end}
use becloudless.Mutations.{text_of}
use mathlib.Core.Path.{ap₂}
use becloudless.Json.{depth}
use becloudless.Mutations.{includes_item}
use becloudless.Mutations.Required.{
  distinct_texts, take_list, take_required, or_no_tree, collect_props, in_props, in_each,
  collect_branches, in_branches, collect_node, collect_fuel, collect,
}
use becloudless.Mutations.Required.RequiredTree.{Tree, Each, no_each, each, merge}
use becloudless.Mutations.Required.Asks.{
  Step, prop, entries, asks, child_asks, each_asks, asks-merge, asks-no_tree, asks_of_is_empty,
}
use becloudless.Mutations.Required.Demands.{
  Demand, lists, props_demand, single_demands, branch_demands, branches_demand, own_demands,
  node_demands, demands_fuel, demands,
}
use becloudless.Mutations.Required.Stages.{
  m₀, c₁, c₂, c₃, own_tree, c₄, c₅, at₀, at₁, at₂, at₃, any_of₄, all_of₅,
}

contains-append_one :
    (out : List String) (r s : String) → contains (out ++ r ∷ []) s ≡ (contains out s || r == s)
unfolding contains
contains-append_one [] r s = ground arith
contains-append_one (x ∷ out) r s = ground (arith, contains-append_one out r s)

contains-distinct_texts :
    (out : List String) (l : Items) (f : String)
    → contains (distinct_texts out l) f ≡ (contains out f || not (f == "") && includes_item l f)
unfolding distinct_texts includes_item
contains-distinct_texts out nil f = ground arith
contains-distinct_texts out (cons r l) f = ground (
  arith,
  contains-distinct_texts
      (if not (text_of r == "") && not (contains out (text_of r))
        then out ++ text_of r ∷ []
        else out)
      l f,
  contains-append_one out (text_of r) f,
  eq_iff (text_of r) f,
  eq_iff (text_of r) "",
  eq_iff f "",
)

module _ (rec : Fields → Bool → Fields × Tree) (demand : Demand)
    (same : (c : Fields) (a : Bool) (path : List Step) (f : String)
      → asks (rec c a).1 path f ≡ demand c a path f) where
  child_asks-collect_props :
      (props : Fields) (name : String) (path : List Step) (f : String)
      → child_asks (collect_props rec props).1 name path f ≡ props_demand demand props name path f
  unfolding collect_props asks
  child_asks-collect_props end name path f = refl
  child_asks-collect_props (field n (obj c) props) name path f = ground (
    arith,
    child_asks-collect_props props name path f,
    same c false path f,
    asks_of_is_empty (rec c false).1 path f,
  )
  child_asks-collect_props (field n _ props) name path f =
      child_asks-collect_props props name path f

  asks-or_no_tree :
      (e : Each) (path : List Step) (f : String) → asks (or_no_tree e) path f ≡ each_asks e path f
  unfolding asks
  asks-or_no_tree no_each path f = asks-no_tree path f
  asks-or_no_tree (each t) path f = refl

  each_asks-in_each :
      (key : String) (m : Fields) (o : Option Fields) (e : Each) (path : List Step) (f : String)
      → each_asks (in_each rec key m o e).1 path f
        ≡ (each_asks e path f || single_demands demand o path f)
  unfolding in_each asks
  each_asks-in_each key m none e path f = ground arith
  each_asks-in_each key m (some c) e path f = ground (
    arith,
    same c false path f,
    asks_of_is_empty (rec c false).1 path f,
    asks-merge (or_no_tree e) (rec c false).1 path f,
    asks-or_no_tree e path f,
  )

  asks-collect_branches :
      (a : Bool) (list : Items) (out : Tree) (path : List Step) (f : String)
      → asks (collect_branches rec a list out).1 path f
        ≡ (asks out path f || branch_demands demand a list path f)
  unfolding collect_branches
  asks-collect_branches a nil out path f = ground arith
  asks-collect_branches a (cons (obj b) list) out path f = ground (
    arith,
    asks-collect_branches a list (merge out (rec b a).1) path f,
    same b a path f,
    asks-merge out (rec b a).1 path f,
  )
  asks-collect_branches a (cons _ list) out path f = asks-collect_branches a list out path f

  asks-in_branches :
      (key : String) (a : Bool) (m : Fields) (o : Option Items) (out : Tree) (path : List Step)
      (f : String)
      → asks (in_branches rec key a m o out).1 path f
        ≡ (asks out path f || branches_demand demand a o path f)
  unfolding in_branches
  asks-in_branches key a m none out path f = ground arith
  asks-in_branches key a m (some list) out path f = asks-collect_branches a list out path f

  child_asks-in_props :
      (m : Fields) (o : Option Fields) (name : String) (path : List Step) (f : String)
      → child_asks (in_props rec m o).1 name path f ≡ props_demand demand (or_end o) name path f
  unfolding in_props asks
  child_asks-in_props m none name path f = refl
  child_asks-in_props m (some props) name path f = child_asks-collect_props props name path f

contains-take_required :
    (m : Fields) (a : Bool) (f : String)
    → contains (take_required m a).1 f ≡ (not a && lists (as_arr (get "required" m)) f)
unfolding take_required contains
contains-take_required m true f = refl
contains-take_required m false f = go (as_arr (get "required" m))
  where
    go : (o : Option Items) → contains (take_list m o).1 f ≡ lists o f
    go none = refl
    go (some l) = contains-distinct_texts [] l f

module _ (rec : Fields → Bool → Fields × Tree) (demand : Demand)
    (same : (c : Fields) (a : Bool) (path : List Step) (f : String)
      → asks (rec c a).1 path f ≡ demand c a path f)
    (m : Fields) (a : Bool) where
  asks-own_tree :
      (path : List Step) (f : String)
      → asks (own_tree rec m a) path f ≡ own_demands demand m a path f
  unfolding asks
  asks-own_tree [] f = contains-take_required m a f
  asks-own_tree (prop name ∷ path) f =
      child_asks-in_props rec demand same (m₀ rec m a) (as_obj (get "properties" (m₀ rec m a))) name
        path f
      ∙ ap (λ o. props_demand demand (or_end (as_obj o)) name path f)
          (at₀ rec m a "properties" refl)
  asks-own_tree (entries ∷ path) f =
      let single_at = λ (o : Option Value). single_demands demand (as_obj o) path f in
      let m₁ = (c₁ rec m a).0 in
      let m₂ = c₂ rec m a in
      ground (
        arith,
        each_asks-in_each rec demand same "items" m₂.0 (as_obj (get "items" m₂.0)) m₂.1 path f,
        each_asks-in_each rec demand same "additionalProperties" m₁
            (as_obj (get "additionalProperties" m₁)) no_each path f,
        ap single_at (at₁ rec m a "additionalProperties" refl refl),
        ap single_at (at₂ rec m a "items" refl refl refl),
      )

  asks-collect_node :
      (path : List Step) (f : String)
      → asks (collect_node rec m a).1 path f ≡ node_demands demand m a path f
  unfolding collect_node node_demands
  asks-collect_node path f =
      let branches_at =
        λ (b : Bool) (o : Option Value). branches_demand demand b (as_arr o) path f in
      let step = asks-in_branches rec demand same in
      let n₃ = (c₃ rec m a).0 in
      let r₄ = c₄ rec m a in
      let r₅ = c₅ rec m a in
      step "allOf" false r₅.0 (as_arr (get "allOf" r₅.0)) r₅.1 path f
      ∙ ap₂ ◌||◌
          (step "anyOf" true r₄.0 (as_arr (get "anyOf" r₄.0)) r₄.1 path f
            ∙ ap₂ ◌||◌
                (step "oneOf" true n₃ (as_arr (get "oneOf" n₃)) (own_tree rec m a) path f
                  ∙ ap₂ ◌||◌ (asks-own_tree path f)
                      (ap (branches_at true) (at₃ rec m a "oneOf" refl refl refl refl)))
                (ap (branches_at true) (any_of₄ rec m a)))
          (ap (branches_at false) (all_of₅ rec m a))

asks-collect_fuel :
    (fuel : ℕ) (m : Fields) (a : Bool) (path : List Step) (f : String)
    → asks (collect_fuel fuel m a).1 path f ≡ demands_fuel fuel m a path f
unfolding collect_fuel demands_fuel
asks-collect_fuel zero m a path f = asks-no_tree path f
asks-collect_fuel (suc fuel) m a path f =
    asks-collect_node (collect_fuel fuel) (demands_fuel fuel) (asks-collect_fuel fuel) m a path f

-- The tree that `collect` builds asks, at every path, exactly for the fields that the schema demands
-- there: through properties, entries of maps and lists, and branches, of which an alternative's own
-- `required` does not count.
pub asks-collect :
    (m : Fields) (a : Bool) (path : List Step) (f : String)
    → asks (collect m a).1 path f ≡ demands m a path f
unfolding collect demands
asks-collect m a path f = asks-collect_fuel (depth (obj m)) m a path f
