-- ===== src/Mutations/FlattenAllOf/Flat.antt =====
-- About the nodes of the schema that flattenAllOf.go leaves.
use becloudless.Prelude.{
  String, ◌≡◌, refl, sym, ◌∙◌, ◌⊎◌, inl, inr, none, some, Bool, true, false, ◌==◌, if◌then◌else◌,
  Option, contains, ne_of_eq_false, [],
}
use becloudless.Json.{
  Value, obj, Items, nil, cons, Fields, get, delete, as_obj, as_arr, or_else, or_end, IsItem,
  fields_of,
}
use becloudless.Json.Laws.{get-end, get-delete, as_obj-eq-some, as_arr-eq-some}
use becloudless.Walk.Nodes.{
  Child, property, single, branch, IsSingle, IsBranch, AllNodes, node, AllNodes-under, AllUnder,
  Child-delete,
}
use becloudless.Walk.{child_path}
use becloudless.Walk.Plain.{walk_schema_nodes, walk_schema_nodes-AllNodes, walk_schema_nodes-obj}
use becloudless.Mutations.{ok, MutationResult}
use becloudless.Mutations.FlattenAllOf.{
  adopted, merge_all_of_branch, merge_branches, flatten_with, flatten_all_of_node, flatten_all_of,
}
use becloudless.Mutations.FlattenAllOf.Merge.{
  get-merge_all_of_branch, properties_of, get-properties_of,
}

-- No branch is left to merge.
abbrev pub has_branches : Option Items → Bool
has_branches (some (cons v l)) = true
has_branches _ = false

abbrev pub IsFlat : Fields → String → Type 0
IsFlat m path = has_branches (as_arr (get "allOf" m)) ≡ false

-- a child of the merged node is one of the node or one of the branch
or_else-cases :
    (o d : Option Value) (v : Value) → or_else o d ≡ some v → (o ≡ some v) ⊎ (d ≡ some v)
or_else-cases none d v h = inr h
or_else-cases (some w) d v h = inl h

property-Child :
    (m : Fields) (path name : String) (v : Value)
    → get name (properties_of m) ≡ some v
    → Child m path v (child_path path name)
property-Child m path name v h = go (as_obj (get "properties" m)) refl h
  where
    go :
        (o : Option Fields)
        → as_obj (get "properties" m) ≡ o
        → get name (or_end o) ≡ some v
        → Child m path v (child_path path name)
    go none e g = cc (get-end name)
    go (some props) e g = property props name (as_obj-eq-some _ e) g refl

module _ (n b : Fields) (path : String) where
  get-merge :
      (key : String)
      → (key == "properties") ≡ false
      → (key == "required") ≡ false
      → get key (merge_all_of_branch n b)
        ≡ (if contains adopted key then or_else (get key n) (get key b) else get key n)
  get-merge key p r =
      get-merge_all_of_branch key n b (ne_of_eq_false key "properties" p)
        (ne_of_eq_false key "required" r)

  get_single-merge :
      (key : String)
      → IsSingle key
      → get key (merge_all_of_branch n b) ≡ or_else (get key n) (get key b)
  unfolding contains
  get_single-merge key (inl e) = rw e (get-merge "additionalProperties" refl refl)
  get_single-merge key (inr e) = rw e (get-merge "items" refl refl)

  get_branch-merge : (key : String) → IsBranch key → get key (merge_all_of_branch n b) ≡ get key n
  unfolding contains
  get_branch-merge key (inl e) = rw e (get-merge "oneOf" refl refl)
  get_branch-merge key (inr (inl e)) = rw e (get-merge "anyOf" refl refl)
  get_branch-merge key (inr (inr e)) = rw e (get-merge "allOf" refl refl)

  Child-merge :
      (v : Value) (q : String)
      → Child (merge_all_of_branch n b) path v q
      → Child n path v q ⊎ Child b path v q
  Child-merge v q (property props name h g e) =
      rw e (elim (or_else-cases _ _ v (sym (get-properties_of name n b) ∙ rw h g)) [
        | inl own ↦ inl (property-Child n path name v own)
        | inr new ↦ inr (property-Child b path name v new)
      ])
  Child-merge v q (single key k h e) =
      elim (or_else-cases _ _ v (sym (get_single-merge key k) ∙ h)) [
        | inl own ↦ inl (single key k own e)
        | inr new ↦ inr (single key k new e)
      ]
  Child-merge v q (branch key l k h i e) =
      inl (branch key l k (sym (get_branch-merge key k) ∙ h) i e)

  AllUnder-merge :
      (P : Fields → String → Type 0)
      → AllUnder P n path
      → AllUnder P b path
      → AllUnder P (merge_all_of_branch n b) path
  AllUnder-merge P hn hb v q c = elim (Child-merge v q c) [
    | inl own ↦ hn v q own
    | inr new ↦ hb v q new
  ]

  -- merging leaves no `allOf` where there was none
  all_of-merge : get "allOf" n ≡ none → get "allOf" (merge_all_of_branch n b) ≡ none
  all_of-merge h = get_branch-merge "allOf" (inr (inr refl)) ∙ h

IsFlat-none : (m : Fields) (path : String) → get "allOf" m ≡ none → IsFlat m path
IsFlat-none m path h = rw h

merge_branches-AllNodes :
    (n : Fields) (l : Items) (path : String)
    → get "allOf" n ≡ none
    → AllUnder IsFlat n path
    → ((v : Value) → IsItem v l → AllNodes IsFlat v path)
    → AllNodes IsFlat (obj (merge_branches n l)) path
unfolding merge_branches
merge_branches-AllNodes n nil path none_left under items = node (IsFlat-none n path none_left) under
merge_branches-AllNodes n (cons (obj b) l) path none_left under items =
    merge_branches-AllNodes (merge_all_of_branch n b) l path (all_of-merge n b path none_left)
      (AllUnder-merge n b path IsFlat under (AllNodes-under (items (obj b) (inl refl))))
      (λ v i. items v (inr i))
merge_branches-AllNodes n (cons _ l) path none_left under items =
    merge_branches-AllNodes n l path none_left under (λ v i. items v (inr i))

flatten_with-AllNodes :
    (n : Fields) (path : String) (o : Option Items)
    → as_arr (get "allOf" n) ≡ o
    → AllUnder IsFlat n path
    → AllNodes IsFlat (obj (flatten_with n o)) path
unfolding flatten_with
flatten_with-AllNodes n path none e under = node (rw e) under
flatten_with-AllNodes n path (some nil) e under = node (rw e) under
flatten_with-AllNodes n path (some (cons item l)) e under =
    merge_branches-AllNodes (delete "allOf" n) (cons item l) path (rw get-delete)
      (λ v q c. under v q (Child-delete "allOf" c))
      (λ v i.
        under v path (branch "allOf" (cons item l) (inr (inr refl)) (as_arr-eq-some _ e) i refl))

-- `FlattenAllOf` succeeds on every schema, and no node of the result has an `allOf` with branches:
-- what a node takes over from its branches has none either.
pub flatten_all_of-IsFlat :
    (schema : Fields)
    → (r : MutationResult) × (flatten_all_of schema ≡ ok r) × AllNodes IsFlat (obj r.schema) ""
unfolding flatten_all_of flatten_all_of_node
flatten_all_of-IsFlat schema =
    let v = walk_schema_nodes flatten_all_of_node (obj schema) in
    let r : MutationResult = record { schema = fields_of v; template_args = [] } in
    (
      r,
      refl,
      rw (walk_schema_nodes-obj flatten_all_of_node schema) (
          walk_schema_nodes-AllNodes flatten_all_of_node IsFlat
            (λ m path under. flatten_with-AllNodes m path (as_arr (get "allOf" m)) refl under) ""
            (obj schema)),
    )
