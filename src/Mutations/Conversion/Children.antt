-- ===== src/Mutations/Conversion/Children.antt =====
-- What a node is after its conversion into a map, key by key, and what its children are.
use becloudless.Prelude.{String, ◌≡◌, sym, ◌∙◌, ◌⊎◌, inl, inr, none, some, false, arith}
use becloudless.Json.{Value, Fields, get}
use becloudless.Json.Laws.{get-set, get-delete}
use becloudless.Walk.Nodes.{Child, property, single, branch, IsBranch, AllNodes, AllUnder}
use becloudless.Mutations.{or_null, replace_schema_type}
use becloudless.Mutations.Types.{schema_type_includes-replace_schema_type}
use becloudless.Mutations.Conversion.{as_map, is_array}

module _ (entry : Value) (node : Fields) where
  pub get_type-as_map :
      get "type" (as_map entry node)
      ≡ some (replace_schema_type (or_null (get "type" node)) "array" "object")
  unfolding as_map
  get_type-as_map = simp (get-delete, get-set)

  get_additional-as_map : get "additionalProperties" (as_map entry node) ≡ some entry
  unfolding as_map
  get_additional-as_map = simp (get-delete, get-set)

  pub get_items-as_map : get "items" (as_map entry node) ≡ none
  unfolding as_map
  get_items-as_map = simp get-delete

  get_properties-as_map : get "properties" (as_map entry node) ≡ get "properties" node
  unfolding as_map
  get_properties-as_map = simp (get-delete, get-set)

  get_branch-as_map : (key : String) → IsBranch key → get key (as_map entry node) ≡ get key node
  unfolding as_map
  get_branch-as_map key (inl e) = rw e (simp (get-delete, get-set))
  get_branch-as_map key (inr (inl e)) = rw e (simp (get-delete, get-set))
  get_branch-as_map key (inr (inr e)) = rw e (simp (get-delete, get-set))

  -- a map is not an array any more
  pub is_array-as_map : is_array (as_map entry node) ≡ false
  is_array-as_map = rw (get_type-as_map, schema_type_includes-replace_schema_type) (ground arith)

  -- the entries come from `entry`, and nothing else is new
  pub Child-as_map :
      (path : String) (v : Value) (q : String)
      → Child (as_map entry node) path v q
      → Child node path v q ⊎ ((v ≡ entry) × (q ≡ path))
  Child-as_map path v q (property props name h g e) =
      inl (property props name (sym get_properties-as_map ∙ h) g e)
  Child-as_map path v q (single key (inl k) h e) = inr (cc (rw k at h, get_additional-as_map), e)
  Child-as_map path v q (single key (inr k) h e) = cc (rw k at h, get_items-as_map)
  Child-as_map path v q (branch key l k h i e) =
      inl (branch key l k (sym (get_branch-as_map key k) ∙ h) i e)

  -- a statement about the nodes under a node passes to the map, if it holds of the entries
  pub AllUnder-as_map :
      (P : Fields → String → Type 0) (path : String)
      → AllUnder P node path
      → AllNodes P entry path
      → AllUnder P (as_map entry node) path
  AllUnder-as_map P path under h v q c = elim (Child-as_map path v q c) [
    | inl old ↦ under v q old
    | inr (e, f) ↦ rw (e, f) h
  ]
