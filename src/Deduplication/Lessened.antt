-- ===== src/Deduplication/Lessened.antt =====
-- What `stripExtensions` of kube/charts/base/build/optimize.go may take away from a schema.
use becloudless.Prelude.{String, Bool, true, false, ◌==◌, ◌||◌, if_ind, ◌≡◌, refl, has_prefix, some}
use becloudless.Json.{Value, obj, arr, Fields, end, field, Items, nil, cons, get, IsItem}
use becloudless.Deduplication.{
  Keyword, named, single, listed, plain, keyword, strip_extensions, strip_under, strip_named,
  strip_list,
}

-- The keywords of JSON Schema whose value maps names to schemas.
abbrev pub maps_schemas : String → Bool
maps_schemas key =
    key == "properties" || key == "patternProperties" || key == "$defs" || key == "definitions"

-- The keywords whose value is a schema, or a list of them.
abbrev pub is_schema_keyword : String → Bool
is_schema_keyword key =
    key == "additionalProperties"
    || key == "additionalItems"
    || key == "not"
    || key == "if"
    || key == "then"
    || key == "else"
    || key == "contains"
    || key == "propertyNames"
    || key == "items"

-- The keywords whose value is a list of schemas.
abbrev pub lists_schemas : String → Bool
lists_schemas key = key == "anyOf" || key == "oneOf" || key == "allOf"

-- A schema, or one that its keywords hold, at any depth.
pub data Under : Fields → Fields → Type 0 where
  itself : (n : Fields) → Under n n
  under_map :
      (m names child n : Fields) (key name : String)
      → maps_schemas key ≡ true
      → get key m ≡ some (obj names)
      → get name names ≡ some (obj child)
      → Under child n
      → Under m n
  under_schema :
      (m child n : Fields) (key : String)
      → is_schema_keyword key ≡ true
      → get key m ≡ some (obj child)
      → Under child n
      → Under m n
  under_list :
      (m child n : Fields) (key : String) (list : Items)
      → (is_schema_keyword key || lists_schemas key) ≡ true
      → get key m ≡ some (arr list)
      → IsItem (obj child) list
      → Under child n
      → Under m n

mutual
  -- A schema and what is left of it when some `x-kubernetes-*` keywords are taken from it, and from the
  -- schemas that its keywords hold, at any depth. Everything else is the same, in the same order.
  pub data Lessened : Fields → Fields → Type 0 where
    ended : Lessened end end
    taken :
        (key : String) (v : Value) (m m' : Fields)
        → has_prefix key "x-kubernetes-" ≡ true
        → Lessened m m'
        → Lessened (field key v m) m'
    same :
        (key : String) (v : Value) (m m' : Fields)
        → Lessened m m'
        → Lessened (field key v m) (field key v m')
    in_map :
        (key : String) (a b m m' : Fields)
        → maps_schemas key ≡ true
        → LessenedMap a b
        → Lessened m m'
        → Lessened (field key (obj a) m) (field key (obj b) m')
    in_schema :
        (key : String) (a b m m' : Fields)
        → is_schema_keyword key ≡ true
        → Lessened a b
        → Lessened m m'
        → Lessened (field key (obj a) m) (field key (obj b) m')
    in_list :
        (key : String) (a b : Items) (m m' : Fields)
        → (is_schema_keyword key || lists_schemas key) ≡ true
        → LessenedList a b
        → Lessened m m'
        → Lessened (field key (arr a) m) (field key (arr b) m')

  -- The same for the values of a map, of which those that are objects are schemas.
  pub data LessenedMap : Fields → Fields → Type 0 where
    map_ended : LessenedMap end end
    map_same :
        (name : String) (v : Value) (m m' : Fields)
        → LessenedMap m m'
        → LessenedMap (field name v m) (field name v m')
    map_schema :
        (name : String) (a b m m' : Fields)
        → Lessened a b
        → LessenedMap m m'
        → LessenedMap (field name (obj a) m) (field name (obj b) m')

  -- The same for the items of a list.
  pub data LessenedList : Items → Items → Type 0 where
    list_ended : LessenedList nil nil
    list_same : (v : Value) (l l' : Items) → LessenedList l l' → LessenedList (cons v l) (cons v l')
    list_schema :
        (a b : Fields) (l l' : Items)
        → Lessened a b
        → LessenedList l l'
        → LessenedList (cons (obj a) l) (cons (obj b) l')

or_true : (b : Bool) → (b || true) ≡ true
or_true true = refl
or_true false = refl

-- What a keyword of each kind is.
abbrev Holds : String → Keyword → Type 0
Holds key named = maps_schemas key ≡ true
Holds key single = is_schema_keyword key ≡ true
Holds key listed = lists_schemas key ≡ true
Holds key plain = Unit

keyword-Holds : (key : String) → Holds key (keyword key)
unfolding keyword
keyword-Holds key =
    if_ind (Holds key) (maps_schemas key) (λ e. e)
      (λ e.
        if_ind (Holds key) (is_schema_keyword key) (λ f. f)
          (λ f. if_ind (Holds key) (lists_schemas key) (λ g. g) (λ g. tt)))

mutual
  unfolding strip_extensions

  pub strip_extensions-Lessened : (m : Fields) → Lessened m (strip_extensions m)
  strip_extensions-Lessened end = ended
  strip_extensions-Lessened (field key v m) =
      if_ind (Lessened (field key v m)) (has_prefix key "x-kubernetes-")
        (λ e. taken key v m (strip_extensions m) e (strip_extensions-Lessened m))
        (λ e.
          strip_under-Lessened key (keyword key) v m (strip_extensions m) (keyword-Holds key)
            (strip_extensions-Lessened m))

  strip_under-Lessened :
      (key : String) (kw : Keyword) (v : Value) (m m' : Fields)
      → Holds key kw
      → Lessened m m'
      → Lessened (field key v m) (field key (strip_under kw v) m')
  strip_under-Lessened key named (obj a) m m' h r =
      in_map key a (strip_named a) m m' h (strip_named-Lessened a) r
  strip_under-Lessened key named v m m' h r = same key v m m' r
  strip_under-Lessened key single (obj a) m m' h r =
      in_schema key a (strip_extensions a) m m' h (strip_extensions-Lessened a) r
  strip_under-Lessened key single (arr l) m m' h r =
      in_list key l (strip_list l) m m' (rw h refl) (strip_list-Lessened l) r
  strip_under-Lessened key single v m m' h r = same key v m m' r
  strip_under-Lessened key listed (arr l) m m' h r =
      in_list key l (strip_list l) m m' (rw h (or_true (is_schema_keyword key)))
        (strip_list-Lessened l) r
  strip_under-Lessened key listed v m m' h r = same key v m m' r
  strip_under-Lessened key plain v m m' h r = same key v m m' r

  strip_named-Lessened : (m : Fields) → LessenedMap m (strip_named m)
  strip_named-Lessened end = map_ended
  strip_named-Lessened (field name (obj a) m) =
      map_schema name a (strip_extensions a) m (strip_named m) (strip_extensions-Lessened a)
        (strip_named-Lessened m)
  strip_named-Lessened (field name v m) = map_same name v m (strip_named m) (strip_named-Lessened m)

  strip_list-Lessened : (l : Items) → LessenedList l (strip_list l)
  strip_list-Lessened nil = list_ended
  strip_list-Lessened (cons (obj a) l) =
      list_schema a (strip_extensions a) l (strip_list l) (strip_extensions-Lessened a)
        (strip_list-Lessened l)
  strip_list-Lessened (cons v l) = list_same v l (strip_list l) (strip_list-Lessened l)
