-- ===== src/Mutations/ItemFields/Found.antt =====
-- When `ItemFields` of kube/charts/base/templates/resources/mutations/itemFields/itemFields.go succeeds.
use becloudless.Prelude.{
  String, ◌≡◌, refl, ap, ◌∙◌, Bool, true, false, ◌&&◌, ◌||◌, Option, none, some, List, [], ◌∷◌,
  ◌++◌, ◌==◌, if◌then◌else◌, arith, eq_iff, sort_strings, insert_sorted, contains, Dict, lookup,
  lookup-insert, Bool-cases, Option-cases, subst, inl, inr,
}
use becloudless.Json.{obj, Fields, get, has, as_obj, or_end}
use becloudless.Walk.{walk_schema_nodes_with_path}
use becloudless.Walk.Visited.{note, nodes_of, walk_schema_nodes_with_path-translated}
use becloudless.Mutations.{Result, ok, err, ◌>>=◌}
use becloudless.Mutations.ItemFields.{
  Item, names, entry_props, found_at, with_found, find_visit, named_fields, first_missing,
  unless_missing, check_item, item_or_empty, entries_of, item_fields,
}

abbrev pub succeeds {ℓ} : {A : Type ℓ} → Result A → Bool
succeeds (ok a) = true
succeeds (err e) = false

-- A test holds of all texts of a list.
abbrev pub all_of : (String → Bool) → List String → Bool
all_of test [] = true
all_of test (s ∷ list) = test s && all_of test list

-- The properties of the entries of a map.
abbrev pub properties_of_entries : Fields → Option Fields
properties_of_entries node =
    as_obj (get "properties" (or_end (as_obj (get "additionalProperties" node))))

abbrev pub first_of : Option Fields → Option Fields → Option Fields
first_of none rest = rest
first_of (some props) rest = some props

-- The properties of the entries at a path, of the last node there whose entries have some.
unfoldable pub entries_at : String → List (String × Fields) → Option Fields
entries_at path [] = none
entries_at path ((p, node) ∷ nodes) =
    let rest = entries_at path nodes in
    if p == path then first_of (properties_of_entries node) rest else rest

-- The entries have the key field of an item, if it has one, and its defaults.
abbrev pub is_given : Item → Option Fields → Bool
is_given item none = false
is_given item (some props) =
    (item.key_field == "" || has item.key_field props)
    && all_of (λ f. has f props) (names item.defaults)

abbrev pub given_by : Option Item → Option Fields → Bool
given_by none o = true
given_by (some item) o = is_given item o

all_of-append :
    (test : String → Bool) (l m : List String)
    → all_of test (l ++ m) ≡ (all_of test l && all_of test m)
all_of-append test [] m = refl
all_of-append test (s ∷ l) m = ground (arith, all_of-append test l m)

all_of-insert_sorted :
    (test : String → Bool) (s : String) (l : List String)
    → all_of test (insert_sorted s l) ≡ (test s && all_of test l)
unfolding insert_sorted
all_of-insert_sorted test s [] = refl
all_of-insert_sorted test s (t ∷ l) = ground (arith, all_of-insert_sorted test s l)

all_of-sort_strings :
    (test : String → Bool) (l : List String) → all_of test (sort_strings l) ≡ all_of test l
unfolding sort_strings
all_of-sort_strings test [] = refl
all_of-sort_strings test (s ∷ l) =
    ground (arith, all_of-insert_sorted test s (sort_strings l), all_of-sort_strings test l)

-- Tests that agree on a list.
all_of-cong :
    (test other : String → Bool) (l : List String)
    → ((s : String) → contains l s ≡ true → test s ≡ other s)
    → all_of test l ≡ all_of other l
unfolding contains
all_of-cong test other [] h = refl
all_of-cong test other (s ∷ l) h = ground (
  arith,
  eq_iff s s,
  h s (ground (arith, eq_iff s s)),
  all_of-cong test other l (λ t c. h t (ground arith)),
)

-- what was found when the nodes were visited
found_in : Dict Item → List (String × Fields) → Dict Fields
found_in m [] = []
found_in m ((path, node) ∷ nodes) = found_at (lookup path m) path node (found_in m nodes)

entry_props-eq : (node : Fields) → entry_props node ≡ properties_of_entries node
unfolding get
entry_props-eq node = elim (Option-cases (as_obj (get "additionalProperties" node))) [
  | inl e ↦ rw e refl
  | inr (m, e) ↦ rw e refl
]

walk_found :
    (m : Dict Item) (schema : Fields)
    → (walk_schema_nodes_with_path (find_visit m) "" (obj schema) []).1
      ≡ found_in m (nodes_of schema)
unfolding found_in find_visit nodes_of
walk_found m schema =
    ap (λ r. r.1)
      (walk_schema_nodes_with_path-translated (found_in m) note (find_visit m) (λ node p s. refl) ""
        (obj schema) [])

lookup-with_found :
    (path p : String) (o : Option Fields) (found : Dict Fields)
    → lookup path (with_found p o found)
      ≡ (if p == path then first_of o (lookup path found) else lookup path found)
lookup-with_found path p none found = ground arith
lookup-with_found path p (some props) found = lookup-insert path p props found

lookup-found_in :
    (m : Dict Item) (path : String) (item : Item) (nodes : List (String × Fields))
    → lookup path m ≡ some item
    → lookup path (found_in m nodes) ≡ entries_at path nodes
unfolding found_in entries_at lookup
lookup-found_in m path item [] h = refl
lookup-found_in m path item ((p, node) ∷ nodes) h = elim (Bool-cases (p == path)) [
  | inl e ↦
      let same : path ≡ p = ground (arith, eq_iff p path) in
      let configured : lookup p m ≡ some item = subst (λ x. lookup x m ≡ some item) same h in
      rw
        (configured, lookup-with_found, e, entry_props-eq node, lookup-found_in m path item nodes h)
        refl
  | inr e ↦ elim (Option-cases (lookup p m)) [
    | inl none_there ↦ rw (none_there, e) (lookup-found_in m path item nodes h)
    | inr (other, f) ↦ rw (f, lookup-with_found, e) (lookup-found_in m path item nodes h)
  ]
]

lookup-names :
    (path : String) (m : Dict Item)
    → contains (names m) path ≡ true
    → (item : Item) × (lookup path m ≡ some item)
unfolding contains names lookup
lookup-names path [] h = cc
lookup-names path ((p, item) ∷ m) h = elim (Bool-cases (p == path)) [
  | inl e ↦ (item, rw e refl)
  | inr e ↦ let (other, f) = lookup-names path m (rw e at h) in (other, rw e f)
]

succeeds-missing :
    (path : String) (item : Item) (props : Fields) (fields : List String)
    → succeeds (unless_missing path item (first_missing props fields))
      ≡ all_of (λ f. has f props) fields
unfolding first_missing
succeeds-missing path item props [] = refl
succeeds-missing path item props (f ∷ fields) = elim (Bool-cases (has f props)) [
  | inl e ↦ rw e (succeeds-missing path item props fields)
  | inr e ↦ rw e refl
]

all_of-named_fields :
    (item : Item) (test : String → Bool)
    → all_of test (named_fields item)
      ≡ ((item.key_field == "" || test item.key_field) && all_of test (names item.defaults))
unfolding named_fields
all_of-named_fields item test =
    let key = if item.key_field == "" then [] else item.key_field ∷ [] in
    all_of-append test key (sort_strings (names item.defaults))
    ∙ ap (λ b. all_of test key && b) (all_of-sort_strings test (names item.defaults))
    ∙ elim (Bool-cases (item.key_field == "")) [ inl e ↦ rw e refl | inr e ↦ ground (arith, e) ]

succeeds-check_item :
    (path : String) (item : Item) (o : Option Fields)
    → succeeds (check_item path item o) ≡ is_given item o
unfolding check_item
succeeds-check_item path item none = refl
succeeds-check_item path item (some props) =
    succeeds-missing path item props (named_fields item)
    ∙ all_of-named_fields item (λ f. has f props)

succeeds-bind {ℓ κ} :
    {A : Type ℓ} {B : Type κ} (r : Result A) (f : A → B)
    → succeeds (r >>= λ a. ok (f a)) ≡ succeeds r
succeeds-bind (ok a) f = refl
succeeds-bind (err e) f = refl

succeeds-both :
    (r : Result String) (others : Result (List String))
    → succeeds (r >>= λ e. others >>= λ rest. ok (e ∷ rest)) ≡ (succeeds r && succeeds others)
succeeds-both (ok e) others = succeeds-bind others (λ rest. e ∷ rest)
succeeds-both (err e) others = refl

abbrev is_found : Dict Item → Dict Fields → String → Bool
is_found m found path = is_given (item_or_empty (lookup path m)) (lookup path found)

succeeds-entries_of :
    (m : Dict Item) (found : Dict Fields) (paths : List String)
    → succeeds (entries_of m found paths) ≡ all_of (is_found m found) paths
unfolding entries_of
succeeds-entries_of m found [] = refl
succeeds-entries_of m found (path ∷ paths) =
    let item = item_or_empty (lookup path m) in
    succeeds-both (check_item path item (lookup path found)) (entries_of m found paths)
    ∙ ap (λ b. b && succeeds (entries_of m found paths))
        (succeeds-check_item path item (lookup path found))
    ∙ ap (λ b. is_found m found path && b) (succeeds-entries_of m found paths)

-- What is configured for a path is given by the entries that are there.
abbrev pub is_given_at : Dict Item → List (String × Fields) → String → Bool
is_given_at m nodes path = given_by (lookup path m) (entries_at path nodes)

is_found-eq :
    (m : Dict Item) (nodes : List (String × Fields)) (path : String)
    → contains (names m) path ≡ true
    → is_found m (found_in m nodes) path ≡ is_given_at m nodes path
is_found-eq m nodes path c =
    let (item, e) = lookup-names path m c in rw (e, lookup-found_in m path item nodes e) refl

-- With at least one configured path, `ItemFields` succeeds exactly when at each of them the schema has
-- a node whose entries have properties, and these, of the last such node that the walk visits there,
-- have the fields that the item of the path names: its key field, if it has one, and its defaults.
pub item_fields-succeeds :
    (i : String × Item) (m : Dict Item) (schema : Fields)
    → succeeds (item_fields (i ∷ m) schema)
      ≡ all_of (is_given_at (i ∷ m) (nodes_of schema)) (names (i ∷ m))
unfolding item_fields
item_fields-succeeds i m schema =
    let found = (walk_schema_nodes_with_path (find_visit (i ∷ m)) "" (obj schema) []).1 in
    succeeds-bind (entries_of (i ∷ m) found (sort_strings (names (i ∷ m)))) _
    ∙ succeeds-entries_of (i ∷ m) found (sort_strings (names (i ∷ m)))
    ∙ all_of-sort_strings (is_found (i ∷ m) found) (names (i ∷ m))
    ∙ ap (λ x. all_of (is_found (i ∷ m) x) (names (i ∷ m))) (walk_found (i ∷ m) schema)
    ∙ all_of-cong (is_found (i ∷ m) (found_in (i ∷ m) (nodes_of schema)))
        (is_given_at (i ∷ m) (nodes_of schema)) (names (i ∷ m))
        (is_found-eq (i ∷ m) (nodes_of schema))
