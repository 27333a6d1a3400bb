-- ===== src/Mutations/Required/Demands.antt =====
-- What a schema demands of its instances, for the tree that Required.go builds.
use becloudless.Prelude.{
  String, Bool, true, false, not, ◌&&◌, ◌||◌, Option, none, some, List, [], ◌∷◌, ◌==◌, ℕ, zero, suc,
}
use becloudless.Json.{obj, Items, nil, cons, Fields, end, field, get, as_obj, as_arr, or_end}
use becloudless.Json.{depth}
use becloudless.Mutations.{includes_item}
use becloudless.Mutations.Required.Asks.{Step, prop, entries}

-- What a schema demands, read from its keywords without any tree. `demand c a` is what an object
-- schema demands, an alternative if `a`.
abbrev pub Demand : Type 0
Demand = Fields → Bool → List Step → String → Bool

abbrev pub lists : Option Items → String → Bool
lists none f = false
lists (some req) f = not (f == "") && includes_item req f

module _ (demand : Demand) where
  abbrev pub props_demand : Fields → String → List Step → String → Bool
  props_demand end name path f = false
  props_demand (field n (obj c) props) name path f =
      n == name && demand c false path f || props_demand props name path f
  props_demand (field n v props) name path f = props_demand props name path f

  abbrev pub single_demands : Option Fields → List Step → String → Bool
  single_demands none path f = false
  single_demands (some c) path f = demand c false path f

  abbrev pub branch_demands : Bool → Items → List Step → String → Bool
  branch_demands a nil path f = false
  branch_demands a (cons (obj b) list) path f = demand b a path f || branch_demands a list path f
  branch_demands a (cons v list) path f = branch_demands a list path f

  abbrev pub branches_demand : Bool → Option Items → List Step → String → Bool
  branches_demand a none path f = false
  branches_demand a (some list) path f = branch_demands a list path f

  abbrev pub own_demands : Fields → Bool → List Step → String → Bool
  own_demands m a [] f = not a && lists (as_arr (get "required" m)) f
  own_demands m a (prop name ∷ path) f =
      props_demand (or_end (as_obj (get "properties" m))) name path f
  own_demands m a (entries ∷ path) f =
      single_demands (as_obj (get "additionalProperties" m)) path f
      || single_demands (as_obj (get "items" m)) path f

  unfoldable pub node_demands : Demand
  node_demands m a path f =
      ((own_demands m a path f || branches_demand true (as_arr (get "oneOf" m)) path f)
        || branches_demand true (as_arr (get "anyOf" m)) path f)
      || branches_demand false (as_arr (get "allOf" m)) path f

unfoldable pub demands_fuel : ℕ → Demand
demands_fuel zero m a path f = false
demands_fuel (suc fuel) m a path f = node_demands (demands_fuel fuel) m a path f

-- the fields that a schema demands of the objects at a path
unfoldable pub demands : Fields → Bool → List Step → String → Bool
unfolding demands_fuel node_demands
demands m a path f = demands_fuel (depth (obj m)) m a path f
