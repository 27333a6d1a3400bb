-- ===== src/Mutations/ItemFields.antt =====
-- The fields that the entries of a map get when they do not set them:
-- kube/charts/base/templates/resources/mutations/itemFields/itemFields.go.
pub mod Found
use becloudless.Prelude.{
  String, ◌≡◌, refl, ap, ◌∙◌, Bool, true, false, ◌&&◌, Option, none, some, List, [], ◌∷◌, ◌++◌,
  ◌==◌, ◌&◌, if◌then◌else◌, join, quote, sort_strings, Dict, lookup, insert, Bool-cases, inl, inr,
}
use becloudless.Json.{Value, obj, Fields, get, has, as_obj, fields_of}
use becloudless.Walk.{Visit, walk_schema_nodes_with_path}
use becloudless.Mutations.{
  Result, ok, err, ◌>>=◌, item_fields_not_an_array, item_fields_no_property, MutationResult,
  Mutation,
}

-- `Item`
pub record Item : Type 0 where
  pub key_field : String
  pub defaults : Dict String

unfoldable pub names {ℓ} : {V : Type ℓ} → Dict V → List String
names [] = []
names ((k, v) ∷ m) = k ∷ names m

abbrev pub props_of : Option Fields → Option Fields
props_of none = none
props_of (some items) = as_obj (get "properties" items)

-- the properties of the entries of a node, if its entries have some
abbrev pub entry_props : Fields → Option Fields
entry_props node = props_of (as_obj (get "additionalProperties" node))

-- what the visit of a configured path adds
abbrev pub with_found : String → Option Fields → Dict Fields → Dict Fields
with_found path none found = found
with_found path (some props) found = insert path props found

abbrev pub found_at : Option Item → String → Fields → Dict Fields → Dict Fields
found_at none path node found = found
found_at (some item) path node found = with_found path (entry_props node) found

-- The visit of `Mutate`: it keeps the properties of the entries at the configured paths.
unfoldable pub find_visit : Dict Item → Visit (Dict Fields)
find_visit m node path found = (node, found_at (lookup path m) path node found)

-- the fields that an item names
unfoldable pub named_fields : Item → List String
unfolding names
named_fields item =
    (if item.key_field == "" then [] else item.key_field ∷ []) ++ sort_strings (names item.defaults)

-- the first field that the entries do not have
unfoldable pub first_missing : Fields → List String → Option String
first_missing props [] = none
first_missing props (f ∷ fields) =
    let rest = first_missing props fields in if has f props then rest else some f

abbrev pub text_or_empty : Option String → String
text_or_empty none = ""
text_or_empty (some s) = s

unfoldable pub default_texts : Dict String → List String → List String
default_texts defaults [] = []
default_texts defaults (f ∷ fields) =
    (quote f & " " & quote (text_or_empty (lookup f defaults))) ∷ default_texts defaults fields

unfoldable pub entry_text : String → Item → String
unfolding default_texts names
entry_text path item =
    quote path
    & " (dict \"keyField\" "
    & quote item.key_field
    & " \"defaults\" (dict "
    & join " " (default_texts item.defaults (sort_strings (names item.defaults)))
    & "))"

abbrev pub unless_missing : String → Item → Option String → Result String
unless_missing path item none = ok (entry_text path item)
unless_missing path item (some f) = err (item_fields_no_property path f)

-- what is written for a path, with the properties found for it
unfoldable pub check_item : String → Item → Option Fields → Result String
unfolding named_fields first_missing entry_text
check_item path item none = err (item_fields_not_an_array path)
check_item path item (some props) =
    unless_missing path item (first_missing props (named_fields item))

abbrev pub item_or_empty : Option Item → Item
item_or_empty none = record { key_field = ""; defaults = [] }
item_or_empty (some item) = item

-- `for _, path := range paths`
unfoldable pub entries_of : Dict Item → Dict Fields → List String → Result (List String)
unfolding check_item
entries_of m found [] = ok []
entries_of m found (path ∷ paths) = do
  e ← check_item path (item_or_empty (lookup path m)) (lookup path found)
  rest ← entries_of m found paths
  ok (e ∷ rest)

abbrev pub with_items : Dict Item → Value × Dict Fields → Result MutationResult
with_items m (v, found) = do
  entries ← entries_of m found (sort_strings (names m))
  ok (record {
    schema = fields_of v;
    template_args = ("itemFields", "(dict " & join " " entries & ")") ∷ [];
  })

-- `ItemFields.Mutate(schema)`
unfoldable pub item_fields : Dict Item → Mutation
unfolding entries_of find_visit names
item_fields [] schema = ok (record { schema = schema; template_args = [] })
item_fields (i ∷ m) schema =
    with_items (i ∷ m) (walk_schema_nodes_with_path (find_visit (i ∷ m)) "" (obj schema) [])
