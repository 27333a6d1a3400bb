-- ===== src/References.antt =====
-- The references of an OpenAPI document are replaced by what they refer to: `resolveOpenAPIRefs` of
-- kube/charts/base/build/fetchOpenapi.go. Following a reference takes fuel.
pub mod Resolved
pub mod Fuel
use becloudless.Prelude.{
  ℕ, zero, suc, String, Bool, true, false, not, ◌&&◌, Option, none, some, List, [], ◌∷◌, ◌==◌,
  if◌then◌else◌, contains, Dict, lookup, insert, cut_prefix,
}
use becloudless.Json.{
  Value, null, bool, num, str, arr, obj, Items, nil, cons, Fields, end, field, get, as_obj, as_str,
  or_end,
}

-- `resolved` and `inProgress`, whose keys all have the value true
pub record Memo : Type 0 where
  pub resolved : Dict Fields
  pub in_progress : List String

abbrev pub is_end : Fields → Bool
is_end end = true
is_end (field k v m) = false

-- `ref, ok := v["$ref"].(string); ok && len(v) == 1`
abbrev pub lone_ref : Fields → Option String
lone_ref end = none
lone_ref (field k v m) = if k == "$ref" && is_end m then as_str (some v) else none

abbrev pub schema_ref_prefix : String
schema_ref_prefix = "#/components/schemas/"

abbrev pub or_whole : String → Option String → String
or_whole ref none = ref
or_whole ref (some name) = if name == "" then ref else name

-- the name of the component that a reference is to
unfoldable pub ref_name : String → String
ref_name ref = or_whole ref (cut_prefix ref schema_ref_prefix)

-- `delete(inProgress, name)`
unfoldable pub remove : String → List String → List String
remove name [] = []
remove name (n ∷ list) = let rest = remove name list in if n == name then rest else n ∷ rest

abbrev pub start : String → Memo → Memo
start name s = record { resolved = s.resolved; in_progress = name ∷ s.in_progress }

unfoldable pub finish : String → Fields → Memo → Memo
unfolding remove
finish name out s = record {
  resolved = insert name out s.resolved;
  in_progress = remove name s.in_progress;
}

module _ (follow : String → Memo → Value × Memo) where
  abbrev pub follow_or : Option String → Value × Memo → Memo → Value × Memo
  follow_or none other s = other
  follow_or (some ref) other s = follow (ref_name ref) s

  unfoldable mutual
    pub resolve_value : Value → Memo → Value × Memo
    resolve_value null s = (null, s)
    resolve_value (bool b) s = (bool b, s)
    resolve_value (num n) s = (num n, s)
    resolve_value (str t) s = (str t, s)
    resolve_value (arr list) s = let (list', s') = resolve_items list s in (arr list', s')
    resolve_value (obj m) s =
        let (m', s') = resolve_fields m s in follow_or (lone_ref m) (obj m', s') s

    pub resolve_items : Items → Memo → Items × Memo
    resolve_items nil s = (nil, s)
    resolve_items (cons v list) s =
        let (v', s₁) = resolve_value v s in
        let (list', s₂) = resolve_items list s₁ in (cons v' list', s₂)

    pub resolve_fields : Fields → Memo → Fields × Memo
    resolve_fields end s = (end, s)
    resolve_fields (field k v m) s =
        let (v', s₁) = resolve_value v s in
        let (m', s₂) = resolve_fields m s₁ in (field k v' m', s₂)

-- A component that is not in the memo: a cycle or a missing schema gives the empty schema, else the
-- component is resolved and kept.
abbrev pub resolve_target :
    (Value → Memo → Value × Memo) → String → Option Fields → Memo → Value × Memo
resolve_target resolve name none s = (obj end, s)
resolve_target resolve name (some target) s =
    let (v, s') = resolve (obj target) (start name s) in
    let out = or_end (as_obj (some v)) in (obj out, finish name out s')

abbrev pub follow_name :
    (Value → Memo → Value × Memo) → Fields → String → Option Fields → Memo → Value × Memo
follow_name resolve schemas name (some r) s = (obj r, s)
follow_name resolve schemas name none s =
    if contains s.in_progress name
    then (obj end, s)
    else resolve_target resolve name (as_obj (get name schemas)) s

unfoldable pub follow_fuel : Fields → ℕ → String → Memo → Value × Memo
unfolding resolve_value finish
follow_fuel schemas zero name s = (obj end, s)
follow_fuel schemas (suc fuel) name s =
    follow_name (resolve_value (follow_fuel schemas fuel)) schemas name (lookup name s.resolved) s

unfoldable pub keys : Fields → List String
keys end = []
keys (field k v m) = k ∷ keys m

unfoldable pub count_fields : Fields → ℕ
count_fields end = zero
count_fields (field k v m) = suc (count_fields m)

-- `resolveOpenAPIRefs(node, schemas, resolved, inProgress)`: each reference that is followed is to
-- another component of the document
unfoldable pub resolve_open_api_refs : Fields → Value → Memo → Value × Memo
unfolding follow_fuel count_fields
resolve_open_api_refs schemas node s =
    resolve_value (follow_fuel schemas (suc (count_fields schemas))) node s
