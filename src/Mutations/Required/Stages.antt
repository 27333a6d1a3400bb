-- ===== src/Mutations/Required/Stages.antt =====
-- The stages of `collect` in Required.go, and the keywords that each leaves as they are.
use becloudless.Prelude.{String, ◌≡◌, refl, ◌∙◌, Bool, true, false, Option, none, some, ◌==◌}
use becloudless.Json.{Items, Fields, get, as_obj, as_arr}
use becloudless.Json.Laws.{get-set, get-delete}
use becloudless.Mutations.Required.{take_list, take_required, in_props, in_each, in_branches}
use becloudless.Mutations.Required.RequiredTree.{Tree, tree, Children, Each, no_each}

-- Each stage of `collect_node` leaves the other keywords as they are.
module _ (rec : Fields → Bool → Fields × Tree) (j : String) (m : Fields) where
  get-take_required : (a : Bool) → ("required" == j) ≡ false → get j (take_required m a).0 ≡ get j m
  unfolding take_required
  get-take_required true h = refl
  get-take_required false h = go (as_arr (get "required" m))
    where
      go : (o : Option Items) → get j (take_list m o).0 ≡ get j m
      go none = refl
      go (some l) = rw (get-delete, h)

  get-in_props :
      (o : Option Fields) → ("properties" == j) ≡ false → get j (in_props rec m o).0 ≡ get j m
  unfolding in_props
  get-in_props none h = refl
  get-in_props (some props) h = rw (get-set, h)

  get-in_each :
      (key : String) (o : Option Fields) (e : Each)
      → (key == j) ≡ false
      → get j (in_each rec key m o e).0 ≡ get j m
  unfolding in_each
  get-in_each key none e h = refl
  get-in_each key (some c) e h = rw (get-set, h)

  get-in_branches :
      (key : String) (a : Bool) (o : Option Items) (out : Tree)
      → (key == j) ≡ false
      → get j (in_branches rec key a m o out).0 ≡ get j m
  unfolding in_branches
  get-in_branches key a none out h = refl
  get-in_branches key a (some list) out h = rw (get-set, h)

module _ (rec : Fields → Bool → Fields × Tree) (m : Fields) (a : Bool) where
  abbrev pub m₀ : Fields
  m₀ = (take_required m a).0

  abbrev pub c₁ : Fields × Children
  c₁ = in_props rec m₀ (as_obj (get "properties" m₀))

  abbrev pub c₂ : Fields × Each
  c₂ = in_each rec "additionalProperties" c₁.0 (as_obj (get "additionalProperties" c₁.0)) no_each

  abbrev pub c₃ : Fields × Each
  c₃ = in_each rec "items" c₂.0 (as_obj (get "items" c₂.0)) c₂.1

  abbrev pub own_tree : Tree
  own_tree = tree (take_required m a).1 c₁.1 c₃.1

  abbrev pub c₄ : Fields × Tree
  c₄ = in_branches rec "oneOf" true c₃.0 (as_arr (get "oneOf" c₃.0)) own_tree

  abbrev pub c₅ : Fields × Tree
  c₅ = in_branches rec "anyOf" true c₄.0 (as_arr (get "anyOf" c₄.0)) c₄.1

  abbrev pub c₆ : Fields × Tree
  c₆ = in_branches rec "allOf" false c₅.0 (as_arr (get "allOf" c₅.0)) c₅.1

  pub at₀ : (j : String) → ("required" == j) ≡ false → get j m₀ ≡ get j m
  at₀ j h = get-take_required rec j m a h

  pub at₁ :
      (j : String) → ("required" == j) ≡ false → ("properties" == j) ≡ false → get j c₁.0 ≡ get j m
  at₁ j h p = get-in_props rec j m₀ (as_obj (get "properties" m₀)) p ∙ at₀ j h

  pub at₂ :
      (j : String)
      → ("required" == j) ≡ false
      → ("properties" == j) ≡ false
      → ("additionalProperties" == j) ≡ false
      → get j c₂.0 ≡ get j m
  at₂ j h p q =
      get-in_each rec j c₁.0 "additionalProperties" (as_obj (get "additionalProperties" c₁.0))
        no_each q
      ∙ at₁ j h p

  pub at₃ :
      (j : String)
      → ("required" == j) ≡ false
      → ("properties" == j) ≡ false
      → ("additionalProperties" == j) ≡ false
      → ("items" == j) ≡ false
      → get j c₃.0 ≡ get j m
  at₃ j h p q i = get-in_each rec j c₂.0 "items" (as_obj (get "items" c₂.0)) c₂.1 i ∙ at₂ j h p q

  pub any_of₄ : get "anyOf" c₄.0 ≡ get "anyOf" m
  any_of₄ =
      get-in_branches rec "anyOf" c₃.0 "oneOf" true (as_arr (get "oneOf" c₃.0)) own_tree refl
      ∙ at₃ "anyOf" refl refl refl refl

  pub all_of₅ : get "allOf" c₅.0 ≡ get "allOf" m
  all_of₅ =
      get-in_branches rec "allOf" c₄.0 "anyOf" true (as_arr (get "anyOf" c₄.0)) c₄.1 refl
      ∙ get-in_branches rec "allOf" c₃.0 "oneOf" true (as_arr (get "oneOf" c₃.0)) own_tree refl
      ∙ at₃ "allOf" refl refl refl refl
