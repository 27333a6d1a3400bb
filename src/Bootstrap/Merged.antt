-- ===== src/Bootstrap/Merged.antt =====
-- What a read of merged values sees: `mergeValues` and `deepCopyMap` of kubeBootstrap.go.
use becloudless.Prelude.{
  String, Bool, true, false, eq_iff, Option, none, some, List, [], ◌∷◌, ◌≡◌, refl, ap, arith,
  if◌then◌else◌, ◌∙◌, Bool-cases, inl, inr,
}
use becloudless.Json.{
  Value, null, bool, num, str, obj, arr, Fields, end, field, Items, nil, cons, get,
}
use becloudless.Json.Laws.{get-set}
use becloudless.Bootstrap.{nested, nested_value}
use becloudless.Bootstrap.Values.{
  merged_value, merge_values, deep_copy_value, deep_copy_map, deep_copy_items,
}

-- Whether the path leaves the maps at a missing key.
unfoldable pub misses : Option Value → List String → Bool
misses none keys = true
misses (some v) [] = false
misses (some (obj m)) (key ∷ keys) = misses (get key m) keys
misses (some _) (key ∷ keys) = false

-- what the override puts on a value
abbrev pub put_on : Option Value → Option Value → Option Value
put_on base none = none
put_on base (some v) = some (merged_value v base)

abbrev pub or_base : Option Value → Option Value → Option Value
or_base base none = base
or_base base (some v) = some (merged_value v base)

pub get-merge_values :
    (key : String) (base override : Fields)
    → get key (merge_values base override) ≡ or_base (get key base) (get key override)
unfolding get merge_values
get-merge_values key base end = refl
get-merge_values key base (field k v override) = ground (
  arith,
  eq_iff k key,
  get-set key k (merged_value v (get k base)) (merge_values base override),
  get-merge_values key base override,
  λ (e : k ≡ key). ap (λ x. merged_value v (get x base)) e,
)

nested-none : (keys : List String) → nested none keys ≡ none
unfolding nested
nested-none [] = refl
nested-none (key ∷ keys) = nested-none keys

nested-misses :
    (o : Option Value) (keys : List String) → misses o keys ≡ true → nested o keys ≡ none
unfolding nested misses
nested-misses none keys h = nested-none keys
nested-misses (some v) [] h = cc
nested-misses (some (obj m)) (key ∷ keys) h = nested-misses (get key m) keys h
nested-misses (some null) (key ∷ keys) h = cc
nested-misses (some (bool b)) (key ∷ keys) h = cc
nested-misses (some (num n)) (key ∷ keys) h = cc
nested-misses (some (str s)) (key ∷ keys) h = cc
nested-misses (some (arr l)) (key ∷ keys) h = cc

put_on-none : (o : Option Value) → put_on none o ≡ o
unfolding merged_value
put_on-none none = refl
put_on-none (some null) = refl
put_on-none (some (bool b)) = refl
put_on-none (some (num n)) = refl
put_on-none (some (str s)) = refl
put_on-none (some (obj m)) = refl
put_on-none (some (arr l)) = refl

-- Below a key that the base does not have, the override is the value.
under_none :
    (o : Option Value) (keys : List String)
    → nested o keys
      ≡ (if misses o keys then nested none keys else put_on (nested none keys) (nested o keys))
under_none o keys =
    rw (nested-none keys, put_on-none (nested o keys))
      (elim (Bool-cases (misses o keys)) [ inl e ↦ rw e (nested-misses o keys e) | inr e ↦ rw e ])

-- The read below a value that is merged.
pub nested-or_base :
    (base override : Option Value) (keys : List String)
    → nested (or_base base override) keys ≡ (
        if misses override keys
        then nested base keys
        else put_on (nested base keys) (nested override keys))
unfolding nested misses merged_value
nested-or_base base none keys = refl
nested-or_base base (some v) [] = refl
nested-or_base base (some null) (key ∷ keys) = rw (nested-none keys)
nested-or_base base (some (bool b)) (key ∷ keys) = rw (nested-none keys)
nested-or_base base (some (num n)) (key ∷ keys) = rw (nested-none keys)
nested-or_base base (some (str s)) (key ∷ keys) = rw (nested-none keys)
nested-or_base base (some (arr l)) (key ∷ keys) = rw (nested-none keys)
nested-or_base none (some (obj m)) (key ∷ keys) = under_none (get key m) keys
nested-or_base (some (obj n)) (some (obj m)) (key ∷ keys) =
    ap (λ x. nested x keys) (get-merge_values key n m) ∙ nested-or_base (get key n) (get key m) keys
nested-or_base (some null) (some (obj m)) (key ∷ keys) = under_none (get key m) keys
nested-or_base (some (bool b)) (some (obj m)) (key ∷ keys) = under_none (get key m) keys
nested-or_base (some (num n)) (some (obj m)) (key ∷ keys) = under_none (get key m) keys
nested-or_base (some (str s)) (some (obj m)) (key ∷ keys) = under_none (get key m) keys
nested-or_base (some (arr l)) (some (obj m)) (key ∷ keys) = under_none (get key m) keys

mutual
  unfolding deep_copy_value deep_copy_map deep_copy_items

  pub deep_copy_value_lem : (v : Value) → deep_copy_value v ≡ v
  deep_copy_value_lem null = refl
  deep_copy_value_lem (bool b) = refl
  deep_copy_value_lem (num n) = refl
  deep_copy_value_lem (str s) = refl
  deep_copy_value_lem (obj m) = ap obj (deep_copy_map_lem m)
  deep_copy_value_lem (arr l) = ap arr (deep_copy_items_lem l)

  pub deep_copy_map_lem : (m : Fields) → deep_copy_map m ≡ m
  deep_copy_map_lem end = refl
  deep_copy_map_lem (field k v m) =
      ap (λ x. field k x (deep_copy_map m)) (deep_copy_value_lem v)
      ∙ ap (field k v) (deep_copy_map_lem m)

  pub deep_copy_items_lem : (l : Items) → deep_copy_items l ≡ l
  deep_copy_items_lem nil = refl
  deep_copy_items_lem (cons v l) =
      ap (λ x. cons x (deep_copy_items l)) (deep_copy_value_lem v)
      ∙ ap (cons v) (deep_copy_items_lem l)

-- Merging overrides at every depth: a path that the override misses reads as in the base, and any
-- other path reads as the value of the override there, on which the one of the base is merged when
-- both are maps.
pub nested_value-merge_values :
    (base override : Fields) (keys : List String)
    → nested_value (merge_values base override) keys ≡ (
        if misses (some (obj override)) keys
        then nested_value base keys
        else put_on (nested_value base keys) (nested_value override keys))
unfolding merged_value
nested_value-merge_values base override keys =
    nested-or_base (some (obj base)) (some (obj override)) keys
