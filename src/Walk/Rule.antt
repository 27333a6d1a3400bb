-- ===== src/Walk/Rule.antt =====
-- The proof rule of the walk of helpers.go: from a visit of one node to all nodes of the result.
use becloudless.Prelude.{
  ℕ, zero, suc, String, ◌==◌, false, ◌≡◌, refl, ◌∙◌, ◌≤◌, inl, inr, some, arith, sym, subst,
}
use becloudless.Json.{Value, obj, arr, Items, IsItem, fields_of, Fields, get, depth, depth_fields}
use becloudless.Json.Depth.{get-depth-le}
use becloudless.Walk.{
  Visit, at_properties, at_single, at_list, walk_children, walk_node, walk_fuel,
  walk_schema_nodes_with_path,
}
use becloudless.Walk.Nodes.{
  IsSingle, IsBranch, Child, property, single, branch, is_obj, AllNodes, leaf, AllUnder,
}
use becloudless.Walk.Stages.{
  get-at_properties, get-at_single, get-at_list, at_properties-good, at_single-good, at_list-good,
  GoodProps, GoodSingle, GoodList,
}

module _ {S : Type 0} (walk : String → Value → S → Value × S) (path : String) (m : Fields)
    (s : S) where
  abbrev pub r₁ : Fields × S
  r₁ = at_properties walk path m s

  abbrev pub r₂ : Fields × S
  r₂ = at_single walk "additionalProperties" path r₁.0 r₁.1

  abbrev pub r₃ : Fields × S
  r₃ = at_single walk "items" path r₂.0 r₂.1

  abbrev pub r₄ : Fields × S
  r₄ = at_list walk "oneOf" path r₃.0 r₃.1

  abbrev pub r₅ : Fields × S
  r₅ = at_list walk "anyOf" path r₄.0 r₄.1

  abbrev pub r₆ : Fields × S
  r₆ = at_list walk "allOf" path r₅.0 r₅.1

  walk_children-eq : walk_children walk path m s ≡ r₆
  unfolding walk_children
  walk_children-eq = refl

  -- a key is as before until its stage, and as its stage leaves it after that
  pub from₁ : (j : String) → ("properties" == j) ≡ false → get j r₁.0 ≡ get j m
  from₁ j h = get-at_properties walk path m j s h

  pub from₂ : (j : String) → ("additionalProperties" == j) ≡ false → get j r₂.0 ≡ get j r₁.0
  from₂ j h = get-at_single walk path r₁.0 j "additionalProperties" r₁.1 h

  pub from₃ : (j : String) → ("items" == j) ≡ false → get j r₃.0 ≡ get j r₂.0
  from₃ j h = get-at_single walk path r₂.0 j "items" r₂.1 h

  pub from₄ : (j : String) → ("oneOf" == j) ≡ false → get j r₄.0 ≡ get j r₃.0
  from₄ j h = get-at_list walk path r₃.0 j "oneOf" r₃.1 h

  pub from₅ : (j : String) → ("anyOf" == j) ≡ false → get j r₅.0 ≡ get j r₄.0
  from₅ j h = get-at_list walk path r₄.0 j "anyOf" r₄.1 h

  pub from₆ : (j : String) → ("allOf" == j) ≡ false → get j r₆.0 ≡ get j r₅.0
  from₆ j h = get-at_list walk path r₅.0 j "allOf" r₅.1 h

module _ {S : Type 0} (walk : String → Value → S → Value × S) (G : Value → String → Type 0) (b : ℕ)
    (atom : (v : Value) (p : String) → is_obj v ≡ false → G v p)
    (keep : (p : String) (v : Value) (s : S) → depth v ≤ b → G (walk p v s).0 p) where
  module _ (path : String) (m : Fields) (s : S) (d : depth_fields m ≤ b) where
    fits :
        (k : String) (n : Fields) → get k n ≡ get k m → (v : Value) → get k n ≡ some v → depth v ≤ b
    fits k n e v h = omega (arith, get-depth-le k m v (sym e ∙ h))

    good₁ : GoodProps G path (get "properties" (r₆ walk path m s).0)
    good₁ =
        subst (GoodProps G path)
          (sym (
            from₆ walk path m s "properties" refl
            ∙ from₅ walk path m s "properties" refl
            ∙ from₄ walk path m s "properties" refl
            ∙ from₃ walk path m s "properties" refl
            ∙ from₂ walk path m s "properties" refl))
          (at_properties-good walk G b atom keep path m s (fits "properties" m (refl)))

    good₂ : GoodSingle G path (get "additionalProperties" (r₆ walk path m s).0)
    good₂ =
        subst (GoodSingle G path)
          (sym (
            from₆ walk path m s "additionalProperties" refl
            ∙ from₅ walk path m s "additionalProperties" refl
            ∙ from₄ walk path m s "additionalProperties" refl
            ∙ from₃ walk path m s "additionalProperties" refl))
          (at_single-good walk G b atom keep path "additionalProperties" (r₁ walk path m s).0
            (r₁ walk path m s).1
            (fits "additionalProperties" (r₁ walk path m s).0
              (from₁ walk path m s "additionalProperties" refl)))

    good₃ : GoodSingle G path (get "items" (r₆ walk path m s).0)
    good₃ =
        subst (GoodSingle G path)
          (sym (
            from₆ walk path m s "items" refl
            ∙ from₅ walk path m s "items" refl
            ∙ from₄ walk path m s "items" refl))
          (at_single-good walk G b atom keep path "items" (r₂ walk path m s).0 (r₂ walk path m s).1
            (fits "items" (r₂ walk path m s).0
              (from₂ walk path m s "items" refl ∙ from₁ walk path m s "items" refl)))

    good₄ : GoodList G path (get "oneOf" (r₆ walk path m s).0)
    good₄ =
        subst (GoodList G path)
          (sym (from₆ walk path m s "oneOf" refl ∙ from₅ walk path m s "oneOf" refl))
          (at_list-good walk G b atom keep path "oneOf" (r₃ walk path m s).0 (r₃ walk path m s).1 (
            fits "oneOf" (r₃ walk path m s).0 (
              from₃ walk path m s "oneOf" refl
              ∙ from₂ walk path m s "oneOf" refl
              ∙ from₁ walk path m s "oneOf" refl)))

    good₅ : GoodList G path (get "anyOf" (r₆ walk path m s).0)
    good₅ = subst (GoodList G path) (sym (from₆ walk path m s "anyOf" refl)) (
        at_list-good walk G b atom keep path "anyOf" (r₄ walk path m s).0 (r₄ walk path m s).1 (
          fits "anyOf" (r₄ walk path m s).0 (
            from₄ walk path m s "anyOf" refl
            ∙ from₃ walk path m s "anyOf" refl
            ∙ from₂ walk path m s "anyOf" refl
            ∙ from₁ walk path m s "anyOf" refl)))

    good₆ : GoodList G path (get "allOf" (r₆ walk path m s).0)
    good₆ = subst (GoodList G path) (sym (refl)) (
        at_list-good walk G b atom keep path "allOf" (r₅ walk path m s).0 (r₅ walk path m s).1 (
          fits "allOf" (r₅ walk path m s).0 (
            from₅ walk path m s "allOf" refl
            ∙ from₄ walk path m s "allOf" refl
            ∙ from₃ walk path m s "allOf" refl
            ∙ from₂ walk path m s "allOf" refl
            ∙ from₁ walk path m s "allOf" refl)))

    walk_children-single :
        (key : String) (v : Value) → IsSingle key → get key (r₆ walk path m s).0 ≡ some v → G v path
    walk_children-single key v (inl e) h = good₂ v (rw e at h)
    walk_children-single key v (inr e) h = good₃ v (rw e at h)

    walk_children-branch :
        (key : String) (l : Items) (v : Value)
        → IsBranch key
        → get key (r₆ walk path m s).0 ≡ some (arr l)
        → IsItem v l
        → G v path
    walk_children-branch key l v (inl e) h i = good₄ l v (rw e at h) i
    walk_children-branch key l v (inr (inl e)) h i = good₅ l v (rw e at h) i
    walk_children-branch key l v (inr (inr e)) h i = good₆ l v (rw e at h) i

    walk_children-good :
        (v : Value) (q : String) → Child (walk_children walk path m s).0 path v q → G v q
    unfolding walk_children
    walk_children-good v q (property props name h g e) = rw e (good₁ props name v h g)
    walk_children-good v q (single key k h e) = rw e (walk_children-single key v k h)
    walk_children-good v q (branch key l k h i e) = rw e (walk_children-branch key l v k h i)

module _ {S : Type 0} (visit : Visit S) (P : Fields → String → Type 0)
    (step : (m : Fields) (path : String) (s : S)
      → AllUnder P m path
      → AllNodes P (obj (visit m path s).0) path) where
  walk_fuel-AllNodes :
      (fuel : ℕ) (path : String) (v : Value) (s : S)
      → depth v ≤ fuel
      → AllNodes P (walk_fuel visit fuel path v s).0 path
  unfolding walk_fuel walk_node depth
  walk_fuel-AllNodes zero path (obj m) s d = absurd (omega arith)
  walk_fuel-AllNodes zero path _ s d = leaf refl
  walk_fuel-AllNodes (suc fuel) path (obj m) s d =
      let (m', s') = walk_children (walk_fuel visit fuel) path m s in
      step m' path s' (
        walk_children-good (walk_fuel visit fuel) (AllNodes P) fuel (λ v p. leaf)
          (walk_fuel-AllNodes fuel) path m s (omega arith))
  walk_fuel-AllNodes (suc fuel) path _ s d = leaf refl

  -- If the visit of a node makes a statement true of it and of all nodes under it, given that it is
  -- true of those under it before, then it is true of every node, with its path, that the walk leaves.
  pub walk_schema_nodes_with_path-AllNodes :
      (path : String) (v : Value) (s : S)
      → AllNodes P (walk_schema_nodes_with_path visit path v s).0 path
  unfolding walk_schema_nodes_with_path
  walk_schema_nodes_with_path-AllNodes path v s =
      walk_fuel-AllNodes (depth v) path v s (unfold depth in omega arith)

-- The walk keeps an object an object.
pub walk_schema_nodes_with_path-obj :
    {S : Type 0} (visit : Visit S) (path : String) (m : Fields) (s : S)
    → obj (fields_of (walk_schema_nodes_with_path visit path (obj m) s).0)
      ≡ (walk_schema_nodes_with_path visit path (obj m) s).0
unfolding walk_schema_nodes_with_path walk_fuel walk_node depth
walk_schema_nodes_with_path-obj visit path m s = refl
