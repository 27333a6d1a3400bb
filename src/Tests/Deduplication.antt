-- ===== src/Tests/Deduplication.antt =====
-- Runs and witnesses for kube/charts/base/build/optimize.go.
use becloudless.Prelude.{
  ◌≡◌, refl, ◌&&◌, false, true, [], ◌∷◌, err, has_prefix, sort_strings, contains, trim_prefix,
  split_on, decimal, inl, inr,
}
use becloudless.Json.{Fields, end, field, obj, arr, str, bool, null, nil, cons, get, is_some}
use becloudless.References.{keys}
use becloudless.Flux.Substitute.{replace_all}
use becloudless.Deduplication.{schema_slots, strip_extensions, keyword, named_slots, list_slots}
use becloudless.Deduplication.Lessened.{Under, itself, under_list, Lessened}
use becloudless.Deduplication.Stripped.{strip_extensions-no_extension}
use becloudless.Deduplication.Pointers.{
  SchemaDoc, order_docs, through_ref, check_pointer, pointer_of, location,
}

abbrev leaf : Fields
leaf = field "type" (str "string") (field "x-kubernetes-validations" (bool true) end)

abbrev plain_leaf : Fields
plain_leaf = field "type" (str "string") end

abbrev pod : Fields
pod = field "x-kubernetes-group" (str "v1") (
    field "anyOf" (arr (cons null (cons (obj leaf) nil)))
      (field "properties" (obj (field "x-kubernetes-name" (obj leaf) end)) end))

abbrev plain_pod : Fields
plain_pod =
    field "anyOf" (arr (cons null (cons (obj plain_leaf) nil)))
      (field "properties" (obj (field "x-kubernetes-name" (obj plain_leaf) end)) end)

test_stripped : strip_extensions pod ≡ plain_pod
unfolding strip_extensions keyword has_prefix
test_stripped = refl

test_slots :
    schema_slots plain_pod
    ≡ ("anyOf" ∷ "1" ∷ [], plain_leaf) ∷ ("properties" ∷ "x-kubernetes-name" ∷ [], plain_leaf) ∷ []
unfolding schema_slots keyword keys sort_strings decimal get list_slots named_slots
test_slots = refl

leaf-Under : Under (strip_extensions pod) plain_leaf
unfolding strip_extensions keyword has_prefix get
leaf-Under =
    under_list plain_pod plain_leaf plain_leaf "anyOf" (cons null (cons (obj plain_leaf) nil)) refl
      refl (inr (inl refl)) (itself plain_leaf)

strip_extensions-no_extension_example :
    ((has_prefix "x-kubernetes-validations" "x-kubernetes-"
        && is_some (get "x-kubernetes-validations" plain_leaf))
      ≡ false)
    × Lessened pod (strip_extensions pod)
strip_extensions-no_extension_example =
    strip_extensions-no_extension pod plain_leaf "x-kubernetes-validations" leaf-Under

abbrev deployments : SchemaDoc
deployments = record { name = "deployments"; root = plain_pod }

abbrev jobs : SchemaDoc
jobs = record {
  name = "jobs";
  root = field "spec" (obj (field "$ref" (str "./deployments.json#") end)) end;
}

test_order : order_docs (jobs ∷ deployments ∷ []) ("deployments" ∷ []) ≡ deployments ∷ jobs ∷ []
unfolding order_docs contains
test_order = refl

test_pointer :
    check_pointer jobs.root "/spec/template" ≡ err (through_ref "/spec/template" "template")
unfolding check_pointer trim_prefix split_on get
test_pointer = refl

test_location :
    location (λ token. token) "jobs" "deployments" ("properties" ∷ "a/b~c" ∷ [])
    ≡ "./deployments.json#/properties/a~1b~0c"
unfolding location pointer_of replace_all
test_location = refl
