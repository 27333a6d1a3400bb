-- ===== src/Walk/Stages.antt =====
-- Each stage of `walk_children` rewrites the values under one key, and no other key.
use becloudless.Prelude.{
  String, ◌≡◌, refl, inl, inr, Option, none, some, false, ◌≤◌, ℕ, subst, arith, ◌==◌, eq_iff,
  Bool-cases, eq_refl,
}
use mathlib.Core.Option.{some-injective}
use becloudless.Json.{
  Value, obj, arr, Items, nil, cons, Fields, end, field, get, IsItem, depth, depth_fields,
  depth_items, as_obj, as_arr,
}
use becloudless.Json.Laws.{get-set, as_obj-eq-some, as_arr-eq-some}
use becloudless.Walk.{
  child_path, walk_props, walk_list, in_properties, in_single, in_list, at_properties, at_single,
  at_list,
}
use becloudless.Walk.Nodes.{is_obj}

module _ {S : Type 0} (walk : String → Value → S → Value × S) (path : String) (m : Fields) where
  get-in_properties :
      (j : String) (o : Option Fields) (s : S)
      → ("properties" == j) ≡ false
      → get j (in_properties walk path m o s).0 ≡ get j m
  unfolding in_properties
  get-in_properties j none s h = refl
  get-in_properties j (some props) s h = rw (get-set, h)

  get-in_single :
      (j key : String) (o : Option Fields) (s : S)
      → (key == j) ≡ false
      → get j (in_single walk key path m o s).0 ≡ get j m
  unfolding in_single
  get-in_single j key none s h = refl
  get-in_single j key (some node) s h = rw (get-set, h)

  get-in_list :
      (j key : String) (o : Option Items) (s : S)
      → (key == j) ≡ false
      → get j (in_list walk key path m o s).0 ≡ get j m
  unfolding in_list
  get-in_list j key none s h = refl
  get-in_list j key (some list) s h = rw (get-set, h)

module _ {S : Type 0} (walk : String → Value → S → Value × S) (path : String) (m : Fields) where
  pub get-at_properties :
      (j : String) (s : S)
      → ("properties" == j) ≡ false
      → get j (at_properties walk path m s).0 ≡ get j m
  unfolding at_properties
  get-at_properties j s h = get-in_properties walk path m j (as_obj (get "properties" m)) s h

  pub get-at_single :
      (j key : String) (s : S)
      → (key == j) ≡ false
      → get j (at_single walk key path m s).0 ≡ get j m
  unfolding at_single
  get-at_single j key s h = get-in_single walk path m j key (as_obj (get key m)) s h

  pub get-at_list :
      (j key : String) (s : S) → (key == j) ≡ false → get j (at_list walk key path m s).0 ≡ get j m
  unfolding at_list
  get-at_list j key s h = get-in_list walk path m j key (as_arr (get key m)) s h

is_obj-eq-false : (v : Value) → as_obj (some v) ≡ none → is_obj v ≡ false
is_obj-eq-false (obj m) h = cc
is_obj-eq-false _ h = refl

-- What holds of the values under a key.
module _ (G : Value → String → Type 0) (path : String) where
  abbrev pub GoodProps : Option Value → Type 0
  GoodProps o =
      (props : Fields) (name : String) (v : Value)
      → o ≡ some (obj props)
      → get name props ≡ some v
      → G v (child_path path name)

  abbrev pub GoodSingle : Option Value → Type 0
  GoodSingle o = (v : Value) → o ≡ some v → G v path

  abbrev pub GoodList : Option Value → Type 0
  GoodList o = (l : Items) (v : Value) → o ≡ some (arr l) → IsItem v l → G v path

module _ {S : Type 0} (walk : String → Value → S → Value × S) (G : Value → String → Type 0) (b : ℕ)
    (leaf : (v : Value) (p : String) → is_obj v ≡ false → G v p)
    (keep : (p : String) (v : Value) (s : S) → depth v ≤ b → G (walk p v s).0 p) where
  abbrev Fits : String → Fields → Type 0
  Fits key m = (v : Value) → get key m ≡ some v → depth v ≤ b

  walk_props-good :
      (path : String) (props : Fields) (s : S) (name : String) (v : Value)
      → depth_fields props ≤ b
      → get name (walk_props walk path props s).0 ≡ some v
      → G v (child_path path name)
  unfolding walk_props get depth
  walk_props-good path end s name v d h = ground arith
  walk_props-good path (field j w props) s name v d h =
      let next = walk (child_path path j) w s in
      elim (Bool-cases (j == name)) [
        | inl e ↦
            subst (λ u. G u (child_path path name)) (some-injective _ _ (rw e at h))
              (subst (λ n. G next.0 (child_path path n)) ((eq_iff j name).0 e)
                (keep (child_path path j) w s (omega arith)))
        | inr e ↦ walk_props-good path props next.1 name v (omega arith) (rw e at h)
      ]

  walk_list-good :
      (path : String) (list : Items) (s : S) (v : Value)
      → depth_items list ≤ b
      → IsItem v (walk_list walk path list s).0
      → G v path
  unfolding walk_list depth
  walk_list-good path nil s v d h = absurd h
  walk_list-good path (cons w list) s v d (inl e) = rw e (keep path w s (omega arith))
  walk_list-good path (cons w list) s v d (inr h) =
      walk_list-good path list (walk path w s).1 v (omega arith) h

  in_properties-good :
      (path : String) (m : Fields) (o : Option Fields) (s : S)
      → as_obj (get "properties" m) ≡ o
      → Fits "properties" m
      → GoodProps G path (get "properties" (in_properties walk path m o s).0)
  unfolding in_properties
  in_properties-good path m none s e d props name v h g = absurd (ground arith)
  in_properties-good path m (some props') s e d props name v h g =
      let d' = d (obj props') (as_obj-eq-some _ e) in
      let e' : (walk_props walk path props' s).0 ≡ props = cc (rw get-set at h) in
      walk_props-good path props' s name v (unfold depth in omega arith) (rw (← e') at g)

  in_single-good :
      (path : String) (key : String) (m : Fields) (o : Option Fields) (s : S)
      → as_obj (get key m) ≡ o
      → Fits key m
      → GoodSingle G path (get key (in_single walk key path m o s).0)
  unfolding in_single
  in_single-good path key m none s e d v h = leaf v path (is_obj-eq-false v (rw h at e))
  in_single-good path key m (some node) s e d v h =
      let d' = d (obj node) (as_obj-eq-some _ e) in
      let e' : (walk path (obj node) s).0 ≡ v = cc (rw (get-set, eq_refl) at h) in
      rw (← e') (keep path (obj node) s (omega arith))

  in_list-good :
      (path : String) (key : String) (m : Fields) (o : Option Items) (s : S)
      → as_arr (get key m) ≡ o
      → Fits key m
      → GoodList G path (get key (in_list walk key path m o s).0)
  unfolding in_list
  in_list-good path key m none s e d l v h i = absurd (ground arith)
  in_list-good path key m (some list) s e d l v h i =
      let d' = d (arr list) (as_arr-eq-some _ e) in
      let e' : (walk_list walk path list s).0 ≡ l = cc (rw (get-set, eq_refl) at h) in
      walk_list-good path list s v (unfold depth in omega arith) (rw (← e') at i)

  pub at_properties-good :
      (path : String) (m : Fields) (s : S)
      → Fits "properties" m
      → GoodProps G path (get "properties" (at_properties walk path m s).0)
  unfolding at_properties
  at_properties-good path m s d = in_properties-good path m (as_obj (get "properties" m)) s refl d

  pub at_single-good :
      (path key : String) (m : Fields) (s : S)
      → Fits key m
      → GoodSingle G path (get key (at_single walk key path m s).0)
  unfolding at_single
  at_single-good path key m s d = in_single-good path key m (as_obj (get key m)) s refl d

  pub at_list-good :
      (path key : String) (m : Fields) (s : S)
      → Fits key m
      → GoodList G path (get key (at_list walk key path m s).0)
  unfolding at_list
  at_list-good path key m s d = in_list-good path key m (as_arr (get key m)) s refl d
