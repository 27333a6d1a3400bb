-- ===== src/Tests/Openapi.antt =====
-- Runs and witnesses for kube/charts/base/build/fetchOpenapi.go.
use becloudless.Prelude.{◌≡◌, refl, true, [], arith, cut_prefix, contains, lookup, insert}
use becloudless.Json.{str, obj, Fields, end, field, get, Value}
use becloudless.References.{
  Memo, resolve_value, follow_fuel, resolve_open_api_refs, count_fields, ref_name, remove,
}
use becloudless.References.Resolved.{has_no_refs, resolve_open_api_refs-no_refs}
use becloudless.References.Fuel.{resolve_open_api_refs-fuel}

abbrev ref_to_b : Value
ref_to_b = obj (field "$ref" (str "#/components/schemas/B") end)

abbrev ref_to_a : Value
ref_to_a = obj (field "$ref" (str "#/components/schemas/A") end)

-- two components that refer to each other
abbrev schemas : Fields
schemas = field "A" (obj (field "b" ref_to_b end)) (field "B" (obj (field "a" ref_to_a end)) end)

abbrev node : Value
node = obj (field "first" ref_to_a (field "second" ref_to_b end))

abbrev empty : Memo
empty = record { resolved = []; in_progress = [] }

-- The cycle is cut where it closes, and the memo keeps B with its hole.
resolve_run :
    (resolve_open_api_refs schemas node empty).0
    ≡ obj (
        field "first"
          (obj (field "b" (obj (field "a" (obj end) end)) end))
          (field "second" (obj (field "a" (obj end) end)) end))
unfolding resolve_open_api_refs resolve_value get lookup insert contains remove cut_prefix ref_name
resolve_run = refl

resolve_open_api_refs-no_refs_example :
    has_no_refs (resolve_open_api_refs schemas node empty).0 ≡ true
resolve_open_api_refs-no_refs_example = resolve_open_api_refs-no_refs schemas node

resolve_open_api_refs-fuel_example :
    resolve_value (follow_fuel schemas 5) node empty ≡ resolve_open_api_refs schemas node empty
unfolding count_fields
resolve_open_api_refs-fuel_example = resolve_open_api_refs-fuel schemas 5 node empty (omega arith)
