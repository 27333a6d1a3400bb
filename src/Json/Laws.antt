-- ===== src/Json/Laws.antt =====
-- What a read sees after a write or a deletion.
use becloudless.Prelude.{String, ◌≡◌, refl, Option, none, some, arith, ◌==◌, eq_iff, if◌then◌else◌}
use becloudless.Json.{
  str, arr, obj, Items, as_obj, as_arr, as_str, copy_fields, or_else, Value, Fields, end, field,
  get, set, delete,
}

pub get-end : (k : String) → get k end ≡ none
unfolding get
get-end k = refl

pub get-set :
    (j k : String) (v : Value) (m : Fields)
    → get j (set k v m) ≡ (if k == j then some v else get j m)
unfolding get set
get-set j k v end = refl
get-set j k v (field i w m) = ground (arith, eq_iff k j, eq_iff i k, eq_iff i j, get-set j k v m)

pub get-delete :
    (j k : String) (m : Fields) → get j (delete k m) ≡ (if k == j then none else get j m)
unfolding get delete
get-delete j k end = ground arith
get-delete j k (field i w m) = ground (arith, eq_iff k j, eq_iff i k, eq_iff i j, get-delete j k m)

pub get-copy_fields :
    (j : String) (dst src : Fields) → get j (copy_fields dst src) ≡ or_else (get j src) (get j dst)
unfolding get copy_fields
get-copy_fields j dst end = refl
get-copy_fields j dst (field k v src) =
    ground (arith, get-set j k v (copy_fields dst src), get-copy_fields j dst src)

pub ruleset json_laws = (get-end, get-set, get-delete, get-copy_fields)

-- What a type assertion that holds says of the value.
pub as_obj-eq-some : (o : Option Value) {m : Fields} → as_obj o ≡ some m → o ≡ some (obj m)
as_obj-eq-some none h = ground arith
as_obj-eq-some (some (obj m)) h = cc
as_obj-eq-some (some _) h = cc

pub as_arr-eq-some : (o : Option Value) {l : Items} → as_arr o ≡ some l → o ≡ some (arr l)
as_arr-eq-some none h = ground arith
as_arr-eq-some (some (arr l)) h = cc
as_arr-eq-some (some _) h = cc

pub as_str-eq-some : (o : Option Value) {s : String} → as_str o ≡ some s → o ≡ some (str s)
as_str-eq-some none h = ground arith
as_str-eq-some (some (str s)) h = cc
as_str-eq-some (some _) h = cc

-- What is there after a deletion was there before.
pub get_of_get-delete :
    (j k : String) (m : Fields) {v : Value} → get j (delete k m) ≡ some v → get j m ≡ some v
get_of_get-delete j k m h = ground (arith, get-delete j k m)
