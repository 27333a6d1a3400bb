-- ===== src/Deduplication/Stripped.antt =====
-- What `stripExtensions` of kube/charts/base/build/optimize.go leaves of a schema.
use mathlib.Core.Option.{some-injective}
use becloudless.Prelude.{
  String, ◌&&◌, ◌||◌, true, false, ◌==◌, Option, some, none, ◌≡◌, refl, ap, sym, ◌∙◌, subst, arith,
  inl, inr, if◌then◌else◌, has_prefix, eq_iff, Bool-cases,
}
use becloudless.Json.{
  Value, null, bool, num, str, obj, arr, Fields, end, field, Items, nil, cons, get, is_some, IsItem,
  fields_of, or_end, as_obj,
}
use becloudless.Deduplication.{
  Keyword, named, single, listed, keyword, strip_extensions, strip_under, strip_named, strip_list,
  strip_child,
}
use becloudless.Deduplication.Lessened.{
  maps_schemas, is_schema_keyword, lists_schemas, Under, itself, under_map, under_schema,
  under_list, Lessened, strip_extensions-Lessened,
}

abbrev map_child : Option Value → Option Value
map_child none = none
map_child (some v) = some (strip_child v)

get-strip_named : (name : String) (m : Fields) → get name (strip_named m) ≡ map_child (get name m)
unfolding get strip_extensions
get-strip_named name end = refl
get-strip_named name (field k v m) = ground (arith, get-strip_named name m)

abbrev IsExtension : String → Type 0
IsExtension key = has_prefix key "x-kubernetes-" ≡ true

abbrev map_under : String → Option Value → Option Value
map_under key none = none
map_under key (some v) =
    if has_prefix key "x-kubernetes-" then none else some (strip_under (keyword key) v)

map_under-extension : (key : String) (o : Option Value) → IsExtension key → map_under key o ≡ none
map_under-extension key none p = refl
map_under-extension key (some v) p = rw p refl

map_under-kept :
    (k key : String) (v : Value)
    → k == key ≡ true
    → has_prefix k "x-kubernetes-" ≡ false
    → some (strip_under (keyword k) v) ≡ map_under key (some v)
map_under-kept k key v e p =
    let same : k ≡ key = ground (arith, eq_iff k key) in
    subst (λ x. some (strip_under (keyword k) v) ≡ map_under x (some v)) same (rw p refl)

-- A keyword is removed exactly when it is an extension, and keeps its value but for what is removed
-- from the schemas in it.
get-strip_extensions :
    (key : String) (m : Fields) → get key (strip_extensions m) ≡ map_under key (get key m)
unfolding get strip_extensions
get-strip_extensions key end = refl
get-strip_extensions key (field k v m) = elim (Bool-cases (has_prefix k "x-kubernetes-")) [
  | inl p ↦ elim (Bool-cases (k == key)) [
    | inl e ↦
        let same : k ≡ key = ground (arith, eq_iff k key) in
        rw (p, e)
          (get-strip_extensions key m
            ∙ map_under-extension key (get key m) (subst IsExtension same p)
            ∙ sym (map_under-extension key (some v) (subst IsExtension same p)))
    | inr e ↦ rw (p, e) (get-strip_extensions key m)
  ]
  | inr p ↦ elim (Bool-cases (k == key)) [
    | inl e ↦ rw (p, e) (map_under-kept k key v e p)
    | inr e ↦ rw (p, e) (get-strip_extensions key m)
  ]
]

-- The kind of a keyword, by what it holds.
schema_not_map : (key : String) → is_schema_keyword key ≡ true → maps_schemas key ≡ false
schema_not_map key h = ground (
  arith,
  eq_iff key "properties",
  eq_iff key "patternProperties",
  eq_iff key "$defs",
  eq_iff key "definitions",
  λ (e : key ≡ "properties"). subst (λ x. is_schema_keyword x ≡ true) e h,
  λ (e : key ≡ "patternProperties"). subst (λ x. is_schema_keyword x ≡ true) e h,
  λ (e : key ≡ "$defs"). subst (λ x. is_schema_keyword x ≡ true) e h,
  λ (e : key ≡ "definitions"). subst (λ x. is_schema_keyword x ≡ true) e h,
)

list_not_map : (key : String) → lists_schemas key ≡ true → maps_schemas key ≡ false
list_not_map key h = ground (
  arith,
  eq_iff key "properties",
  eq_iff key "patternProperties",
  eq_iff key "$defs",
  eq_iff key "definitions",
  λ (e : key ≡ "properties"). subst (λ x. lists_schemas x ≡ true) e h,
  λ (e : key ≡ "patternProperties"). subst (λ x. lists_schemas x ≡ true) e h,
  λ (e : key ≡ "$defs"). subst (λ x. lists_schemas x ≡ true) e h,
  λ (e : key ≡ "definitions"). subst (λ x. lists_schemas x ≡ true) e h,
)

keyword-map : (key : String) → maps_schemas key ≡ true → keyword key ≡ named
unfolding keyword
keyword-map key h = rw h refl

keyword-schema : (key : String) → is_schema_keyword key ≡ true → keyword key ≡ single
unfolding keyword
keyword-schema key h = rw (schema_not_map key h, h) refl

keyword-list :
    (key : String) → is_schema_keyword key ≡ false → lists_schemas key ≡ true → keyword key ≡ listed
unfolding keyword
keyword-list key s h = rw (list_not_map key h, s, h) refl

-- the value that a value left of another one comes from
abbrev Left : Keyword → Value → Type 0
Left kw v = (before : Value) × (strip_under kw before ≡ v)

Left-map_under :
    (key : String) (kw : Keyword) (o : Option Value) (v : Value)
    → keyword key ≡ kw
    → map_under key o ≡ some v
    → Left kw v
Left-map_under key kw none v k h = cc
Left-map_under key kw (some before) v k h = elim (Bool-cases (has_prefix key "x-kubernetes-")) [
  | inl e ↦ cc (rw e at h)
  | inr e ↦ (before, some-injective _ _ (rw (e, k) at h))
]

abbrev fields_in : Option Value → Fields
fields_in o = or_end (as_obj o)

abbrev items_in : Value → Items
items_in (arr l) = l
items_in _ = nil

-- A schema that is left of one.
abbrev IsLeft : Fields → Type 0
IsLeft n = (m : Fields) × (n ≡ strip_extensions m)

IsLeft-map_child :
    (o : Option Value) (child : Fields) → map_child o ≡ some (obj child) → IsLeft child
unfolding strip_extensions
IsLeft-map_child none child h = cc
IsLeft-map_child (some (obj m)) child h = (m, sym (ap fields_in h))
IsLeft-map_child (some null) child h = cc
IsLeft-map_child (some (bool b)) child h = cc
IsLeft-map_child (some (num n)) child h = cc
IsLeft-map_child (some (str t)) child h = cc
IsLeft-map_child (some (arr l)) child h = cc

IsLeft-item : (child : Fields) (list : Items) → IsItem (obj child) (strip_list list) → IsLeft child
unfolding strip_extensions
IsLeft-item child nil h = absurd h
IsLeft-item child (cons v list) (inl e) = IsLeft-map_child (some v) child (ap some (sym e))
IsLeft-item child (cons v list) (inr h) = IsLeft-item child list h

Left-map : (names : Fields) → Left named (obj names) → (m : Fields) × (strip_named m ≡ names)
unfolding strip_extensions
Left-map names (obj m, h) = (m, ap fields_of h)
Left-map names (null, h) = cc
Left-map names (bool b, h) = cc
Left-map names (num n, h) = cc
Left-map names (str t, h) = cc
Left-map names (arr l, h) = cc

IsLeft-schema : (child : Fields) → Left single (obj child) → IsLeft child
unfolding strip_extensions
IsLeft-schema child (obj m, h) = (m, sym (ap fields_of h))
IsLeft-schema child (null, h) = cc
IsLeft-schema child (bool b, h) = cc
IsLeft-schema child (num n, h) = cc
IsLeft-schema child (str t, h) = cc
IsLeft-schema child (arr l, h) = cc

Left-single_list : (list : Items) → Left single (arr list) → (l : Items) × (strip_list l ≡ list)
unfolding strip_extensions
Left-single_list list (arr l, h) = (l, ap items_in h)
Left-single_list list (null, h) = cc
Left-single_list list (bool b, h) = cc
Left-single_list list (num n, h) = cc
Left-single_list list (str t, h) = cc
Left-single_list list (obj m, h) = cc

Left-list : (list : Items) → Left listed (arr list) → (l : Items) × (strip_list l ≡ list)
unfolding strip_extensions
Left-list list (arr l, h) = (l, ap items_in h)
Left-list list (null, h) = cc
Left-list list (bool b, h) = cc
Left-list list (num n, h) = cc
Left-list list (str t, h) = cc
Left-list list (obj m, h) = cc

left_items :
    (key : String) (o : Option Value) (list : Items)
    → (is_schema_keyword key || lists_schemas key) ≡ true
    → map_under key o ≡ some (arr list)
    → (l : Items) × (strip_list l ≡ list)
left_items key o list k h = elim (Bool-cases (is_schema_keyword key)) [
  | inl e ↦ Left-single_list list (Left-map_under key single o (arr list) (keyword-schema key e) h)
  | inr e ↦
      Left-list list (Left-map_under key listed o (arr list) (keyword-list key e (ground arith)) h)
]

-- Every schema under what is left of one is left of one.
Under-stripped : (m root n : Fields) → Under root n → root ≡ strip_extensions m → IsLeft n
Under-stripped m root _ (itself _) e = (m, e)
Under-stripped m root n (under_map _ names child _ key name k h g u) e =
    let (before, b) = Left-map names (
      Left-map_under key named (get key m) (obj names) (keyword-map key k)
        (sym (get-strip_extensions key m) ∙ ap (get key) (sym e) ∙ h)) in
    let (child', c) =
      IsLeft-map_child (get name before) child
        (sym (get-strip_named name before) ∙ ap (get name) b ∙ g) in
    Under-stripped child' child n u c
Under-stripped m root n (under_schema _ child _ key k h u) e =
    let (child', c) = IsLeft-schema child (
      Left-map_under key single (get key m) (obj child) (keyword-schema key k)
        (sym (get-strip_extensions key m) ∙ ap (get key) (sym e) ∙ h)) in
    Under-stripped child' child n u c
Under-stripped m root n (under_list _ child _ key list k h i u) e =
    let (before, b) =
      left_items key (get key m) list k
        (sym (get-strip_extensions key m) ∙ ap (get key) (sym e) ∙ h) in
    let (child', c) = IsLeft-item child before (subst (IsItem (obj child)) (sym b) i) in
    Under-stripped child' child n u c

no_extension :
    (key : String) (o : Option Value)
    → (has_prefix key "x-kubernetes-" && is_some (map_under key o)) ≡ false
no_extension key none = ground arith
no_extension key (some v) = ground arith

-- `stripExtensions` takes all `x-kubernetes-*` keywords of a schema away, and nothing else: afterwards
-- neither the schema nor one that its keywords hold, at any depth, has one, and except for such
-- keywords of these schemas everything is the same, in the same order.
pub strip_extensions-no_extension :
    (m n : Fields) (key : String)
    → Under (strip_extensions m) n
    → ((has_prefix key "x-kubernetes-" && is_some (get key n)) ≡ false)
      × Lessened m (strip_extensions m)
strip_extensions-no_extension m n key u =
    let (rest, e) = Under-stripped m (strip_extensions m) n u refl in
    (
      rw (e, get-strip_extensions key rest) (no_extension key (get key rest)),
      strip_extensions-Lessened m,
    )
