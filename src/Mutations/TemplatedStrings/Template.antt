-- ===== src/Mutations/TemplatedStrings/Template.antt =====
-- What `TemplatedStrings` makes of a node, keyword by keyword.
use becloudless.Prelude.{
  String, ◌≡◌, refl, ◌∙◌, ap, inl, inr, Bool, true, false, ◌&&◌, ◌||◌, Option, none, some, List, [],
  ◌∷◌, ◌==◌, if◌then◌else◌, contains, arith, Bool-cases, Option-cases, eq_iff, eq_refl,
}
use becloudless.Json.{Value, str, arr, obj, nil, cons, Fields, end, field, get, has, or_else}
use becloudless.Json.Laws.{get-set, get-delete, get-end}
use becloudless.Mutations.TemplatedStrings.{
  template_pattern, validation_keywords, is_plain_string, move_one, move_keywords, with_template,
  template_node,
}

-- some keyword of the list is there
abbrev pub has_any : List String → Fields → Bool
has_any [] m = false
has_any (key ∷ keys) m = has key m || has_any keys m

move_one-none :
    (key : String) (m val : Fields)
    → has key m ≡ false
    → move_one key (get key m) (m, val) ≡ (m, val)
unfolding move_one
move_one-none key m val h = ground arith

get-move_one :
    (k key : String) (o : Option Value) (m val : Fields)
    → get key m ≡ o
    → (get k (move_one key o (m, val)).0 ≡ (if key == k then none else get k m))
      × (get k (move_one key o (m, val)).1
          ≡ (if key == k then or_else (get k m) (get k val) else get k val))
unfolding move_one
get-move_one k key none m val e = ground (arith, eq_iff key k)
get-move_one k key (some v) m val e =
    ground (arith, get-delete k key m, get-set k key v val, eq_iff key k)

get-move_keywords :
    (k : String) (keys : List String) (m val : Fields)
    → (get k (move_keywords keys (m, val)).0 ≡ (if contains keys k then none else get k m))
      × (get k (move_keywords keys (m, val)).1
          ≡ (if contains keys k then or_else (get k m) (get k val) else get k val))
unfolding move_keywords contains
get-move_keywords k [] m val = (refl, refl)
get-move_keywords k (key ∷ keys) m val =
    let r = move_one key (get key m) (m, val) in
    ground (arith, get-move_one k key (get key m) m val refl, get-move_keywords k keys r.0 r.1)

move_keywords-none :
    (keys : List String) (m val : Fields)
    → has_any keys m ≡ false
    → move_keywords keys (m, val) ≡ (m, val)
unfolding move_keywords
move_keywords-none [] m val h = refl
move_keywords-none (key ∷ keys) m val h =
    rw (move_one-none key m val (ground arith)) (move_keywords-none keys m val (ground arith))

-- with a keyword to move, something is moved
has_any_sound :
    (keys : List String) (m : Fields)
    → has_any keys m ≡ true
    → (k : String) × (contains keys k ≡ true) × (has k m ≡ true)
unfolding contains
has_any_sound [] m h = cc
has_any_sound (key ∷ keys) m h = elim (Bool-cases (has key m)) [
  | inl here ↦ (key, rw eq_refl, here)
  | inr not_here ↦
      let (k, c, p) = has_any_sound keys m (ground arith) in (k, rw c (ground arith), p)
]

-- What a template branch added to the keywords `validation` looks like.
abbrev pub alternatives : Fields → Value
alternatives validation =
    arr (cons (obj validation) (cons (obj (field "pattern" (str template_pattern) end)) nil))

-- Any other node stays as it is.
pub template_node-unchanged :
    (m : Fields)
    → (is_plain_string m && has_any validation_keywords m) ≡ false
    → template_node m ≡ m
unfolding template_node with_template
template_node-unchanged m h = elim (Bool-cases (is_plain_string m)) [
  | inl plain ↦ rw (plain, move_keywords-none validation_keywords m end (ground arith))
  | inr other ↦ rw other
]

get-with_template :
    (k key : String) (v : Value) (n validation : Fields)
    → get key validation ≡ some v
    → get k (with_template (n, validation))
      ≡ (if "anyOf" == k then some (alternatives validation) else get k n)
unfolding with_template
get-with_template k key v n end e = cc (get-end key)
get-with_template k key v n (field j w val) e = rw get-set

or_else_nothing : (k : String) (o : Option Value) → or_else o (get k end) ≡ o
or_else_nothing k none = get-end k
or_else_nothing k (some v) = refl

abbrev pub moved : Fields → Fields × Fields
moved m = move_keywords validation_keywords (m, end)

get-moved :
    (k : String) (m : Fields)
    → get k (moved m).1 ≡ (if contains validation_keywords k then get k m else none)
get-moved k m =
    rw ((get-move_keywords k validation_keywords m end).1, or_else_nothing k (get k m), get-end)

some_of_has : (k : String) (m : Fields) → has k m ≡ true → (v : Value) × (get k m ≡ some v)
some_of_has k m h = elim (Option-cases (get k m)) [ inl e ↦ cc (rw e at h) | inr found ↦ found ]

get-template :
    (m : Fields) (k : String)
    → (is_plain_string m && has_any validation_keywords m) ≡ true
    → get k (template_node m) ≡ (
        if "anyOf" == k
        then some (alternatives (moved m).1)
        else if contains validation_keywords k
        then none
        else get k m)
unfolding template_node
get-template m k h =
    let (key, c, p) = has_any_sound validation_keywords m (ground arith) in
    let (v, e) = some_of_has key m p in
    let (n, val) = moved m in
    let plain : is_plain_string m ≡ true = ground arith in
    rw plain (
      get-with_template k key v n val (get-moved key m ∙ rw (c, e))
      ∙ ap (λ o. if "anyOf" == k then some (alternatives val) else o)
          (get-move_keywords k validation_keywords m end).0)

-- A string node with validation keywords and no combination of schemas becomes the choice between
-- those keywords, moved out of the node with their values and with nothing else, and the template
-- pattern; the other keywords of the node stay.
pub get-template_node :
    (m : Fields) (k : String)
    → (is_plain_string m && has_any validation_keywords m) ≡ true
    → (get k (template_node m) ≡ (
        if "anyOf" == k
        then some (alternatives (moved m).1)
        else if contains validation_keywords k
        then none
        else get k m))
      × (get k (moved m).1 ≡ (if contains validation_keywords k then get k m else none))
get-template_node m k h = (get-template m k h, get-moved k m)
