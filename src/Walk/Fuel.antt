-- ===== src/Walk/Fuel.antt =====
-- About the fuel of the walk of helpers.go.
use becloudless.Prelude.{
  ℕ, zero, suc, String, ◌≡◌, refl, ◌∙◌, ◌≤◌, Option, none, some, arith, sym, ap,
}
use becloudless.Json.{
  Value, obj, arr, Items, nil, cons, Fields, end, field, get, depth, depth_fields, depth_items,
  as_obj, as_arr,
}
use becloudless.Json.Laws.{as_obj-eq-some, as_arr-eq-some}
use becloudless.Json.Depth.{get-depth-le}
use becloudless.Walk.{
  Visit, child_path, walk_props, walk_list, in_properties, in_single, in_list, at_properties,
  at_single, at_list, walk_children, walk_node, walk_fuel, walk_schema_nodes_with_path,
}
use becloudless.Walk.Rule.{r₁, r₂, r₃, r₄, r₅, r₆, from₁, from₂, from₃, from₄, from₅}

module _ {S : Type 0} (w u : String → Value → S → Value × S) (b : ℕ)
    (agree : (p : String) (v : Value) (s : S) → depth v ≤ b → w p v s ≡ u p v s) where
  abbrev Fits : String → Fields → Type 0
  Fits key m = (v : Value) → get key m ≡ some v → depth v ≤ b

  walk_props-congr :
      (path : String) (props : Fields) (s : S)
      → depth_fields props ≤ b
      → walk_props w path props s ≡ walk_props u path props s
  unfolding walk_props depth
  walk_props-congr path end s d = refl
  walk_props-congr path (field j v props) s d = rw (
    agree (child_path path j) v s (omega arith),
    walk_props-congr path props (u (child_path path j) v s).1 (omega arith),
  )

  walk_list-congr :
      (path : String) (list : Items) (s : S)
      → depth_items list ≤ b
      → walk_list w path list s ≡ walk_list u path list s
  unfolding walk_list depth
  walk_list-congr path nil s d = refl
  walk_list-congr path (cons v list) s d =
      rw (agree path v s (omega arith), walk_list-congr path list (u path v s).1 (omega arith))

  at_properties-congr :
      (path : String) (m : Fields) (s : S)
      → Fits "properties" m
      → at_properties w path m s ≡ at_properties u path m s
  unfolding at_properties
  at_properties-congr path m s d = go (as_obj (get "properties" m)) refl
    where
      go :
          (o : Option Fields)
          → as_obj (get "properties" m) ≡ o
          → in_properties w path m o s ≡ in_properties u path m o s
      go none e = refl
      go (some props) e =
          let d' = d (obj props) (as_obj-eq-some _ e) in
          rw (walk_props-congr path props s (unfold depth in omega arith))

  at_single-congr :
      (path key : String) (m : Fields) (s : S)
      → Fits key m
      → at_single w key path m s ≡ at_single u key path m s
  unfolding at_single
  at_single-congr path key m s d = go (as_obj (get key m)) refl
    where
      go :
          (o : Option Fields)
          → as_obj (get key m) ≡ o
          → in_single w key path m o s ≡ in_single u key path m o s
      go none e = refl
      go (some n) e = rw (agree path (obj n) s (d (obj n) (as_obj-eq-some _ e)))

  at_list-congr :
      (path key : String) (m : Fields) (s : S)
      → Fits key m
      → at_list w key path m s ≡ at_list u key path m s
  unfolding at_list
  at_list-congr path key m s d = go (as_arr (get key m)) refl
    where
      go :
          (o : Option Items)
          → as_arr (get key m) ≡ o
          → in_list w key path m o s ≡ in_list u key path m o s
      go none e = refl
      go (some l) e =
          let d' = d (arr l) (as_arr-eq-some _ e) in
          rw (walk_list-congr path l s (unfold depth in omega arith))

  module _ (path : String) (m : Fields) (s : S) (d : depth_fields m ≤ b) where
    fits : (k : String) (n : Fields) → get k n ≡ get k m → Fits k n
    fits k n e v h = omega (arith, get-depth-le k m v (sym e ∙ h))

    same₁ : r₁ w path m s ≡ r₁ u path m s
    same₁ = at_properties-congr path m s (fits "properties" m refl)

    same₂ : r₂ w path m s ≡ r₂ u path m s
    same₂ =
        at_single-congr path "additionalProperties" (r₁ w path m s).0 (r₁ w path m s).1 (
          fits "additionalProperties" (r₁ w path m s).0
            (from₁ w path m s "additionalProperties" refl))
        ∙ ap (λ (r : Fields × S). at_single u "additionalProperties" path r.0 r.1) same₁

    same₃ : r₃ w path m s ≡ r₃ u path m s
    same₃ =
        at_single-congr path "items" (r₂ w path m s).0 (r₂ w path m s).1 (
          fits "items" (r₂ w path m s).0
            (from₂ w path m s "items" refl ∙ from₁ w path m s "items" refl))
        ∙ ap (λ (r : Fields × S). at_single u "items" path r.0 r.1) same₂

    same₄ : r₄ w path m s ≡ r₄ u path m s
    same₄ =
        at_list-congr path "oneOf" (r₃ w path m s).0 (r₃ w path m s).1 (
          fits "oneOf" (r₃ w path m s).0 (
            from₃ w path m s "oneOf" refl
            ∙ from₂ w path m s "oneOf" refl
            ∙ from₁ w path m s "oneOf" refl))
        ∙ ap (λ (r : Fields × S). at_list u "oneOf" path r.0 r.1) same₃

    same₅ : r₅ w path m s ≡ r₅ u path m s
    same₅ =
        at_list-congr path "anyOf" (r₄ w path m s).0 (r₄ w path m s).1 (
          fits "anyOf" (r₄ w path m s).0 (
            from₄ w path m s "anyOf" refl
            ∙ from₃ w path m s "anyOf" refl
            ∙ from₂ w path m s "anyOf" refl
            ∙ from₁ w path m s "anyOf" refl))
        ∙ ap (λ (r : Fields × S). at_list u "anyOf" path r.0 r.1) same₄

    same₆ : r₆ w path m s ≡ r₆ u path m s
    same₆ =
        at_list-congr path "allOf" (r₅ w path m s).0 (r₅ w path m s).1 (
          fits "allOf" (r₅ w path m s).0 (
            from₅ w path m s "allOf" refl
            ∙ from₄ w path m s "allOf" refl
            ∙ from₃ w path m s "allOf" refl
            ∙ from₂ w path m s "allOf" refl
            ∙ from₁ w path m s "allOf" refl))
        ∙ ap (λ (r : Fields × S). at_list u "allOf" path r.0 r.1) same₅

    walk_children-congr : walk_children w path m s ≡ walk_children u path m s
    unfolding walk_children
    walk_children-congr = same₆

module _ {S : Type 0} (visit : Visit S) where
  walk_fuel_enough :
      (f g : ℕ) (path : String) (v : Value) (s : S)
      → depth v ≤ f
      → depth v ≤ g
      → walk_fuel visit f path v s ≡ walk_fuel visit g path v s
  unfolding walk_fuel walk_node depth
  walk_fuel_enough zero g path (obj m) s d e = absurd (omega arith)
  walk_fuel_enough zero g path _ s d e = absurd (omega arith)
  walk_fuel_enough (suc f) zero path (obj m) s d e = absurd (omega arith)
  walk_fuel_enough (suc f) zero path _ s d e = absurd (omega arith)
  walk_fuel_enough (suc f) (suc g) path (obj m) s d e = rw (
      walk_children-congr (walk_fuel visit f) (walk_fuel visit g) (depth_fields m)
        (λ p v t h. walk_fuel_enough f g p v t (omega arith) (omega arith)) path m s (omega arith))
  walk_fuel_enough (suc f) (suc g) path _ s d e = refl

  -- The recursion of the walk ends by itself: with any fuel from the depth of the value on, the
  -- walk gives what `walk_schema_nodes_with_path` gives.
  pub walk_terminates :
      (fuel : ℕ) (path : String) (v : Value) (s : S)
      → depth v ≤ fuel
      → walk_fuel visit fuel path v s ≡ walk_schema_nodes_with_path visit path v s
  unfolding walk_schema_nodes_with_path
  walk_terminates fuel path v s d = walk_fuel_enough fuel (depth v) path v s d (omega arith)
