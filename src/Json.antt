-- ===== src/Json.antt =====
-- JSON values as `encoding/json` decodes them into `any`: the data that every step of the chart
-- builder (kube/charts/base) reads and rewrites. A `map[string]any` is an association list, of which
-- the first entry of a key counts; a write replaces that entry in place. Numbers are only carried
-- along by the code, so a number is its JSON text.
pub mod Laws
pub mod Depth
use becloudless.Prelude.{
  ℕ, zero, suc, ◌+◌, max, String, Bool, true, false, Option, none, some, ◌==◌, if◌then◌else◌, ◌⊎◌,
  ◌≡◌,
}

mutual
  pub data Value : Type 0 where
    null : Value
    bool : Bool → Value
    num : String → Value
    str : String → Value
    obj : Fields → Value
    arr : Items → Value

  -- map[string]any
  pub data Fields : Type 0 where
    end : Fields
    field : String → Value → Fields → Fields

  -- []any
  pub data Items : Type 0 where
    nil : Items
    cons : Value → Items → Items

-- `m[key]`, with `none` for a missing key
unfoldable pub get : String → Fields → Option Value
get k end = none
get k (field j v m) = if j == k then some v else get k m

-- `m[key] = v`
unfoldable pub set : String → Value → Fields → Fields
set k v end = field k v end
set k v (field j w m) = if j == k then field j v m else field j w (set k v m)

-- `delete(m, key)`
unfoldable pub delete : String → Fields → Fields
delete k end = end
delete k (field j v m) = let rest = delete k m in if j == k then rest else field j v rest

-- `_, ok := m[key]`
abbrev pub is_some : Option Value → Bool
is_some none = false
is_some (some v) = true

abbrev pub has : String → Fields → Bool
has k m = is_some (get k m)

-- The type assertions `v.(map[string]any)`, `v.([]any)` and `v.(string)`.
abbrev pub as_obj : Option Value → Option Fields
as_obj (some (obj m)) = some m
as_obj _ = none

abbrev pub as_arr : Option Value → Option Items
as_arr (some (arr l)) = some l
as_arr _ = none

abbrev pub as_str : Option Value → Option String
as_str (some (str s)) = some s
as_str _ = none

-- The map of a value that is an object.
abbrev pub fields_of : Value → Fields
fields_of (obj m) = m
fields_of _ = end

-- A failed assertion leaves the nil map, which reads as an empty one.
abbrev pub or_end : Option Fields → Fields
or_end none = end
or_end (some m) = m

-- A failed assertion leaves the empty text.
abbrev pub or_empty : Option String → String
or_empty none = ""
or_empty (some s) = s

-- A value is an item of a list.
abbrev pub IsItem : Value → Items → Type 0
IsItem v nil = ⊥
IsItem v (cons w l) = (v ≡ w) ⊎ IsItem v l

unfoldable mutual
  pub depth : Value → ℕ
  depth null = 1
  depth (bool b) = 1
  depth (num s) = 1
  depth (str s) = 1
  depth (arr l) = suc (depth_items l)
  depth (obj m) = suc (depth_fields m)

  pub depth_items : Items → ℕ
  depth_items nil = 0
  depth_items (cons v l) = max (depth v) (depth_items l)

  pub depth_fields : Fields → ℕ
  depth_fields end = 0
  depth_fields (field k v m) = max (depth v) (depth_fields m)

-- `maps.Copy(dst, src)`; no key of a map comes twice, and the order of its entries is free
unfoldable pub copy_fields : Fields → Fields → Fields
unfolding set
copy_fields dst end = dst
copy_fields dst (field k v src) = set k v (copy_fields dst src)

-- the value of the first map if there is one
abbrev pub or_else : Option Value → Option Value → Option Value
or_else none d = d
or_else (some v) d = some v
