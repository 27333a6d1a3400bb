-- ===== src/Bootstrap/Values.antt =====
-- The values of a chart in kubeBootstrap.go: merging, copying, the apps of a group and what flux
-- gives to a chart.
use becloudless.Prelude.{
  String, Bool, false, ◌==◌, Option, none, some, List, [], ◌∷◌, if◌then◌else◌, sort_strings, ok,
  err, or_fail, ◌>>=◌,
}
use becloudless.Json.{
  Value, null, bool, num, str, obj, arr, Fields, end, field, Items, nil, cons, get, set, as_obj,
  as_arr, as_str, or_end, or_empty,
}
use becloudless.Bootstrap.{
  Docs, Result, only_config_maps, config_map_missing, values_malformed, nested_value, nested_text,
  find_doc_in_namespace,
}

unfoldable mutual
  -- what `base[k]` becomes
  pub merged_value : Value → Option Value → Value
  merged_value (obj override) (some (obj base)) = obj (merge_values base override)
  merged_value v _ = v

  -- `mergeValues`
  pub merge_values : Fields → Fields → Fields
  merge_values base end = base
  merge_values base (field k v override) =
      set k (merged_value v (get k base)) (merge_values base override)

unfoldable mutual
  -- `deepCopyValue`
  pub deep_copy_value : Value → Value
  deep_copy_value null = null
  deep_copy_value (bool b) = bool b
  deep_copy_value (num n) = num n
  deep_copy_value (str s) = str s
  deep_copy_value (obj m) = obj (deep_copy_map m)
  deep_copy_value (arr l) = arr (deep_copy_items l)

  -- `deepCopyMap`
  pub deep_copy_map : Fields → Fields
  deep_copy_map end = end
  deep_copy_map (field k v m) = field k (deep_copy_value v) (deep_copy_map m)

  pub deep_copy_items : Items → Items
  deep_copy_items nil = nil
  deep_copy_items (cons v l) = cons (deep_copy_value v) (deep_copy_items l)

-- `member, _ := v.(bool)`
abbrev pub flag_of : Option Value → Bool
flag_of (some (bool b)) = b
flag_of _ = false

abbrev pub in_group : Value → String → Bool
in_group app group =
    flag_of (get group (or_end (as_obj (get "groups" (or_end (as_obj (some app)))))))

-- the loop of `appsOfGroup`
unfoldable pub members : Fields → String → List String
members end group = []
members (field name app apps) group =
    let rest = members apps group in if in_group app group then name ∷ rest else rest

unfoldable pub apps_of_group : Fields → String → List String
unfolding members sort_strings
apps_of_group values group = sort_strings (members (or_end (as_obj (get "apps" values))) group)

abbrev pub or_default_key : String → String
or_default_key key = if key == "" then "values.yaml" else key

module _ (parse_yaml : String → Option Fields) where
  -- the values of one config map
  unfoldable pub values_of_config_map : String → Docs → Fields → Result Fields
  unfolding find_doc_in_namespace
  values_of_config_map hr_namespace docs from =
      let kind = or_empty (as_str (get "kind" from)) in
      let name = or_empty (as_str (get "name" from)) in
      let key = or_default_key (or_empty (as_str (get "valuesKey" from))) in
      if kind == "ConfigMap"
      then (or_fail (config_map_missing name hr_namespace)
            (find_doc_in_namespace docs kind name hr_namespace)
          >>= λ config_map.
              or_fail (values_malformed name key)
                (parse_yaml (nested_text config_map ("data" ∷ key ∷ []))))
      else err (only_config_maps kind name)

  -- the loop over `valuesFrom`
  unfoldable pub values_from : String → Docs → Items → Fields → Result Fields
  unfolding values_of_config_map merge_values
  values_from hr_namespace docs nil result = ok result
  values_from hr_namespace docs (cons from list) result =
      values_of_config_map hr_namespace docs (or_end (as_obj (some from))) >>= λ values.
      values_from hr_namespace docs list (merge_values result values)

  -- `helmReleaseValues`
  unfoldable pub helm_release_values : Fields → Docs → Result Fields
  unfolding values_from merge_values
  helm_release_values hr docs =
      values_from (nested_text hr ("metadata" ∷ "namespace" ∷ [])) docs
        (or_nil (as_arr (nested_value hr ("spec" ∷ "valuesFrom" ∷ [])))) end
      >>= λ result.
          ok (merge_values result (or_end (as_obj (nested_value hr ("spec" ∷ "values" ∷ [])))))
    where
      or_nil : Option Items → Items
      or_nil none = nil
      or_nil (some l) = l
