-- ===== src/Flux/Substitute.antt =====
-- `substituteEnvInStructure` of cli/pkg/cmd/kube/kubeBootstrapOld.go.
use becloudless.Prelude.{
  ℕ, zero, suc, String, ◌==◌, ◌&◌, none, some, [], ◌∷◌, Dict, if◌then◌else◌, cut_prefix,
}
use becloudless.Json.{Value, null, bool, num, str, obj, arr, Fields, end, field, Items, nil, cons}

abbrev text_length : String → ℕ
text_length String.[] = zero
text_length (String.◌∷◌ c s) = suc (text_length s)

replace_fuel : ℕ → String → String → String → String
replace_fuel zero s old new = s
replace_fuel (suc fuel) String.[] old new = ""
replace_fuel (suc fuel) (String.◌∷◌ c s) old new = elim (cut_prefix (String.◌∷◌ c s) old) [
  | none ↦ String.◌∷◌ c (replace_fuel fuel s old new)
  | some rest ↦ new & replace_fuel fuel rest old new
]

-- `strings.ReplaceAll(s, old, new)` for an `old` that is not empty; each step takes a character at
-- least, so the length of the text is enough fuel
unfoldable pub replace_all : String → String → String → String
unfolding replace_fuel cut_prefix
replace_all s old new = replace_fuel (text_length s) s old new

-- the loop over the variables, in the order that the map gives them
unfoldable pub substitute_text : Dict String → String → String
unfolding replace_all
substitute_text [] res = res
substitute_text ((k, v) ∷ envs) res =
    substitute_text envs (if k == "" then res else replace_all res ("${" & k & "}") v)

unfoldable mutual
  -- `substituteEnvInStructure`
  pub substitute_env : Dict String → Value → Value
  substitute_env envs null = null
  substitute_env envs (bool b) = bool b
  substitute_env envs (num n) = num n
  substitute_env envs (str s) = str (substitute_text envs s)
  substitute_env envs (obj m) = obj (substitute_fields envs m)
  substitute_env envs (arr l) = arr (substitute_items envs l)

  pub substitute_fields : Dict String → Fields → Fields
  substitute_fields envs end = end
  substitute_fields envs (field k v m) = field k (substitute_env envs v) (substitute_fields envs m)

  pub substitute_items : Dict String → Items → Items
  substitute_items envs nil = nil
  substitute_items envs (cons v l) = cons (substitute_env envs v) (substitute_items envs l)
