-- ===== src/Mutations/ExtractContent.antt =====
-- The part of the schema of a kind that an instance gives:
-- kube/charts/base/templates/resources/mutations/content/extractContent.go.
use becloudless.Prelude.{
  String, ◌≡◌, refl, ap, ◌∙◌, Bool, true, false, not, ◌&&◌, Option, none, some, List, [], ◌∷◌, ◌==◌,
  if◌then◌else◌, contains, arith, eq_iff, Bool-cases, inl, inr,
}
use becloudless.Json.{
  str, arr, obj, Items, nil, cons, Fields, end, field, get, set, as_obj, as_arr, or_end,
}
use becloudless.Json.Laws.{get-set}
use becloudless.Mutations.{
  Result, ok, err, no_spec, MutationResult, Mutation, text_of, includes_item,
}

pub record ExtractContent : Type 0 where
  pub content_is_out_of_spec : Bool
  pub kind_name : String

-- the fields of a kind that the chart writes itself
abbrev pub own_fields : List String
own_fields = "apiVersion" ∷ "kind" ∷ "metadata" ∷ "status" ∷ []

-- `for k, v := range props`
unfoldable pub content_props : Fields → Fields
content_props end = end
content_props (field k v props) =
    let rest = content_props props in if contains own_fields k then rest else field k v rest

-- `for _, r := range req`
unfoldable pub filter_required : Items → Items
filter_required nil = nil
filter_required (cons r req) =
    let rest = filter_required req in if contains own_fields (text_of r) then rest else cons r rest

set_required : Items → Fields → Fields
set_required nil instance' = instance'
set_required (cons r filtered) instance' = set "required" (arr (cons r filtered)) instance'

with_required : Option Items → Fields → Fields
unfolding set_required filter_required
with_required none instance' = instance'
with_required (some req) instance' = set_required (filter_required req) instance'

abbrev pub content_object : Fields → Fields
content_object props = field "type" (str "object") (field "properties" (obj props) end)

abbrev pub with_spec : String → Option Fields → Result MutationResult
with_spec kind_name none = err (no_spec kind_name)
with_spec kind_name (some spec) = ok (record { schema = spec; template_args = [] })

-- `ExtractContent.Mutate(kindSchema)`
unfoldable pub extract_content : ExtractContent → Mutation
unfolding content_props with_required
extract_content m kind_schema =
    let props = or_end (as_obj (get "properties" kind_schema)) in
    if not m.content_is_out_of_spec
    then with_spec m.kind_name (as_obj (get "spec" props))
    else ok (record {
      schema =
          with_required (as_arr (get "required" kind_schema))
            (content_object (content_props props));
      template_args = ("contentIsSpec", "false") ∷ [];
    })

get-content_props :
    (k : String) (props : Fields)
    → get k (content_props props) ≡ (if contains own_fields k then none else get k props)
unfolding get content_props
get-content_props k end = ground arith
get-content_props k (field j v props) = elim (Bool-cases (j == k)) [
  | inl e ↦
      ground (arith, e, get-content_props k props, ap (contains own_fields) ((eq_iff j k).0 e))
  | inr e ↦ ground (arith, e, get-content_props k props)
]

includes-filter_required :
    (req : Items) (s : String)
    → includes_item (filter_required req) s ≡ (not (contains own_fields s) && includes_item req s)
unfolding filter_required includes_item
includes-filter_required nil s = ground arith
includes-filter_required (cons r req) s = elim (Bool-cases (text_of r == s)) [
  | inl e ↦ ground (
    arith,
    e,
    includes-filter_required req s,
    ap (contains own_fields) ((eq_iff (text_of r) s).0 e),
  )
  | inr e ↦ ground (arith, e, includes-filter_required req s)
]

-- the texts of a `required` list which may be missing
abbrev pub asks_for : Option Items → String → Bool
asks_for none s = false
asks_for (some req) s = includes_item req s

set_required_lem :
    (filtered : Items) (m : Fields) (s : String)
    → get "required" m ≡ none
    → asks_for (as_arr (get "required" (set_required filtered m))) s ≡ includes_item filtered s
unfolding set_required includes_item
set_required_lem nil m s h = rw h refl
set_required_lem (cons r filtered) m s h = rw get-set refl

with_required_lem :
    (o : Option Items) (m : Fields) (s : String)
    → get "required" m ≡ none
    → asks_for (as_arr (get "required" (with_required o m))) s
      ≡ (not (contains own_fields s) && asks_for o s)
unfolding with_required
with_required_lem none m s h = rw h (ground arith)
with_required_lem (some req) m s h =
    set_required_lem (filter_required req) m s h ∙ includes-filter_required req s

get-set_required :
    (filtered : Items) (m : Fields)
    → get "properties" (set_required filtered m) ≡ get "properties" m
unfolding set_required
get-set_required nil m = refl
get-set_required (cons r filtered) m = rw get-set refl

get-with_required :
    (o : Option Items) (m : Fields) → get "properties" (with_required o m) ≡ get "properties" m
unfolding with_required
get-with_required none m = refl
get-with_required (some req) m = get-set_required (filter_required req) m

-- For a kind whose content is out of its `spec`, the instance schema is found. It has the
-- properties of the kind but for those that the chart writes itself, and asks for the fields that
-- the kind requires but for the same.
pub get-extract_content :
    (m : ExtractContent) (kind_schema : Fields) (k : String)
    → m.content_is_out_of_spec ≡ true
    → (r : MutationResult) × (extract_content m kind_schema ≡ ok r)
      × (get k (or_end (as_obj (get "properties" r.schema))) ≡ (
          if contains own_fields k
          then none
          else get k (or_end (as_obj (get "properties" kind_schema)))))
      × (asks_for (as_arr (get "required" r.schema)) k
          ≡ (not (contains own_fields k) && asks_for (as_arr (get "required" kind_schema)) k))
unfolding extract_content get
get-extract_content m kind_schema k h =
    let props = or_end (as_obj (get "properties" kind_schema)) in
    let base = content_object (content_props props) in
    let req = as_arr (get "required" kind_schema) in
    let r : MutationResult = record {
      schema = with_required req base;
      template_args = ("contentIsSpec", "false") ∷ [];
    } in
    (
      r,
      rw h refl,
      rw (get-with_required req base) (get-content_props k props),
      with_required_lem req base k refl,
    )
