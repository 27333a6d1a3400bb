-- ===== src/Mutations/Types.antt =====
-- `ReplaceSchemaType` seen by `SchemaTypeIncludes`.
use becloudless.Prelude.{String, ◌≡◌, Bool, ◌==◌, ◌||◌, ◌&&◌, not, eq_iff, arith, if◌then◌else◌}
use becloudless.Json.{Value, str, arr, Items, nil, cons}
use becloudless.Mutations.{
  schema_type_includes, replace_schema_type, includes_item, replace_items, text_of,
}

-- What a replacement makes of the test for `want`: an occurrence of `from` counts as `to`.
abbrev pub after_replace : Bool → Bool → String → String → String → Bool
after_replace has_from has_want from to want =
    has_from && to == want || not (from == want) && has_want

text-replace :
    (s from to want : String)
    → ((if s == from then to else s) == want) ≡ after_replace (s == from) (s == want) from to want
text-replace s from to want = ground (arith, eq_iff s from, eq_iff s want, eq_iff from want)

text_of-replace :
    (item : Value) (from to : String)
    → text_of (if text_of item == from then str to else item)
      ≡ (if text_of item == from then to else text_of item)
text_of-replace item from to = ground arith

includes_item-replace_items :
    (list : Items) (from to want : String)
    → includes_item (replace_items list from to) want
      ≡ after_replace (includes_item list from) (includes_item list want) from to want
unfolding includes_item replace_items
includes_item-replace_items nil from to want = ground arith
includes_item-replace_items (cons item list) from to want = ground (
  arith,
  text-replace (text_of item) from to want,
  text_of-replace item from to,
  includes_item-replace_items list from to want,
)

-- After a replacement a type includes `want` if it included `from` and `want` is what replaces it,
-- or if it included `want` and `want` is not what is replaced.
pub schema_type_includes-replace_schema_type :
    (t : Value) (from to want : String)
    → schema_type_includes (replace_schema_type t from to) want
      ≡ after_replace (schema_type_includes t from) (schema_type_includes t want) from to want
unfolding schema_type_includes replace_schema_type
schema_type_includes-replace_schema_type (str s) from to want =
    ground (arith, eq_iff s from, eq_iff s want, eq_iff from want)
schema_type_includes-replace_schema_type (arr list) from to want =
    includes_item-replace_items list from to want
schema_type_includes-replace_schema_type _ from to want = ground arith
