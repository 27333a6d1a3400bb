-- ===== src/Deduplication.antt =====
-- kube/charts/base/build/optimize.go: the subschemas of a schema, and the extensions that are removed
-- from them.
pub mod Pointers
pub mod Lessened
pub mod Stripped
use becloudless.Prelude.{
  ℕ, zero, suc, String, Bool, ◌==◌, ◌||◌, Option, some, none, List, [], ◌∷◌, ◌++◌, if◌then◌else◌,
  sort_strings, has_prefix, decimal,
}
use becloudless.Json.{Value, obj, arr, Fields, end, field, Items, nil, cons, get}
use becloudless.References.{keys}

-- `slot`: its tokens and its node
abbrev pub Slot : Type 0
Slot = List String × Fields

-- how a keyword holds schemas
pub data Keyword : Type 0 where
  -- a map of them
  named : Keyword
  -- one, or a list
  single : Keyword
  -- a list
  listed : Keyword
  -- none
  plain : Keyword

unfoldable pub keyword : String → Keyword
keyword key =
    if key == "properties" || key == "patternProperties" || key == "$defs" || key == "definitions"
    then named
    else if key == "additionalProperties"
        || key == "additionalItems"
        || key == "not"
        || key == "if"
        || key == "then"
        || key == "else"
        || key == "contains"
        || key == "propertyNames"
        || key == "items"
    then single
    else if key == "anyOf" || key == "oneOf" || key == "allOf"
    then listed
    else plain

abbrev pub child_slot : List String → Option Value → List Slot
child_slot tokens (some (obj m)) = (tokens, m) ∷ []
child_slot tokens _ = []

-- the loop over the names of a map
unfoldable pub named_slots : String → Fields → List String → List Slot
named_slots key m [] = []
named_slots key m (name ∷ names) =
    child_slot (key ∷ name ∷ []) (get name m) ++ named_slots key m names

-- `listSlots`, from an index on
unfoldable pub list_slots : String → ℕ → Items → List Slot
list_slots key index nil = []
list_slots key index (cons v list) =
    child_slot (key ∷ decimal index ∷ []) (some v) ++ list_slots key (suc index) list

abbrev pub slots_at : String → Keyword → Option Value → List Slot
slots_at key named (some (obj m)) = named_slots key m (sort_strings (keys m))
slots_at key single (some (obj m)) = (key ∷ [], m) ∷ []
slots_at key single (some (arr list)) = list_slots key zero list
slots_at key listed (some (arr list)) = list_slots key zero list
slots_at key _ _ = []

-- the loop over the keywords
unfoldable pub slots_of : Fields → List String → List Slot
slots_of node [] = []
slots_of node (key ∷ keywords) = slots_at key (keyword key) (get key node) ++ slots_of node keywords

-- `schemaSlots`
unfoldable pub schema_slots : Fields → List Slot
unfolding slots_of
schema_slots node = slots_of node (sort_strings (keys node))

-- `stripExtensions`, with the node as it is left
unfoldable mutual
  pub strip_extensions : Fields → Fields
  strip_extensions end = end
  strip_extensions (field key v m) =
      let rest = strip_extensions m in
      let v' = strip_under (keyword key) v in
      if has_prefix key "x-kubernetes-" then rest else field key v' rest

  pub strip_under : Keyword → Value → Value
  strip_under named (obj m) = obj (strip_named m)
  strip_under single (obj m) = obj (strip_extensions m)
  strip_under single (arr list) = arr (strip_list list)
  strip_under listed (arr list) = arr (strip_list list)
  strip_under _ v = v

  pub strip_named : Fields → Fields
  strip_named end = end
  strip_named (field name v m) = field name (strip_child v) (strip_named m)

  pub strip_list : Items → Items
  strip_list nil = nil
  strip_list (cons v list) = cons (strip_child v) (strip_list list)

  pub strip_child : Value → Value
  strip_child (obj m) = obj (strip_extensions m)
  strip_child v = v
