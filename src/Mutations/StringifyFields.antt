-- ===== src/Mutations/StringifyFields.antt =====
-- The fields that accept any value, which the template writes as a text:
-- kube/charts/base/templates/resources/mutations/stringifyFields/stringifyFields.go.
use becloudless.Prelude.{
  String, ◌≡◌, refl, ◌⊎◌, inl, inr, false, not, Option, none, some, List, [], ◌∷◌, map, ◌&◌,
  if◌then◌else◌, join, quote, contains, Bool-cases,
}
use becloudless.Json.{Value, obj, Fields, end, get, set, has, is_some, fields_of}
use becloudless.Json.Laws.{get-set}
use becloudless.Walk.{Visit, walk_schema_nodes_with_path}
use becloudless.Walk.Nodes.{Child, property, single, branch, AllNodes, node, AllUnder}
use becloudless.Walk.Rule.{walk_schema_nodes_with_path-AllNodes, walk_schema_nodes_with_path-obj}
use becloudless.Mutations.{ok, MutationResult, Mutation}

-- `StringifyFields`
pub record StringifyFields : Type 0 where
  pub fields : List String

-- the visit of `Mutate`, which keeps nothing from node to node
unfoldable pub relax_visit : List String → Visit (List String)
relax_visit fields m path s =
    if not (contains fields path)
    then (m, s)
    else if not (has "additionalProperties" m)
    then (m, s)
    else (set "additionalProperties" (obj end) m, s)

unfoldable pub relax_all : List String → Mutation
unfolding relax_visit
relax_all fields schema =
    let (v, _) = walk_schema_nodes_with_path (relax_visit fields) "" (obj schema) [] in
    ok (record {
      schema = fields_of v;
      template_args = ("stringifyFields", "(list " & join " " (map quote fields) & ")") ∷ [];
    })

-- `StringifyFields.Mutate(schema)`
unfoldable pub stringify_fields : StringifyFields → Mutation
unfolding relax_all
stringify_fields m schema = elim m.fields [
  | [] ↦ ok (record { schema = schema; template_args = [] })
  | f ∷ fields ↦ relax_all (f ∷ fields) schema
]

-- At a listed path, what a map of a node says of its entries is that they are anything.
abbrev pub IsRelaxed : List String → Fields → String → Type 0
IsRelaxed fields m path =
    (contains fields path ≡ false)
    ⊎ (get "additionalProperties" m ≡ none)
    ⊎ (get "additionalProperties" m ≡ some (obj end))

Child-relaxed :
    (m : Fields) (path : String) (v : Value) (q : String)
    → Child (set "additionalProperties" (obj end) m) path v q
    → Child m path v q ⊎ (v ≡ obj end) × (q ≡ path)
Child-relaxed m path v q (property props name h g e) =
    inl (property props name (rw get-set at h) g e)
Child-relaxed m path v q (single key (inl k) h e) = inr (cc (rw get-set at (rw k at h)), e)
Child-relaxed m path v q (single key (inr k) h e) =
    inl (single key (inr k) (rw k (rw get-set at (rw k at h))) e)
Child-relaxed m path v q (branch key l (inl k) h i e) =
    inl (branch key l (inl k) (rw k (rw get-set at (rw k at h))) i e)
Child-relaxed m path v q (branch key l (inr (inl k)) h i e) =
    inl (branch key l (inr (inl k)) (rw k (rw get-set at (rw k at h))) i e)
Child-relaxed m path v q (branch key l (inr (inr k)) h i e) =
    inl (branch key l (inr (inr k)) (rw k (rw get-set at (rw k at h))) i e)

module _ (fields : List String) where
  end-AllNodes : (path : String) → AllNodes (IsRelaxed fields) (obj end) path
  unfolding get
  end-AllNodes path = node (inr (inl refl)) none_under
    where
      none_under : (v : Value) (q : String) → Child end path v q → AllNodes (IsRelaxed fields) v q
      none_under v q (property props name h g e) = cc h
      none_under v q (single key k h e) = cc h
      none_under v q (branch key l k h i e) = cc h

  set-AllNodes :
      (m : Fields) (path : String)
      → AllUnder (IsRelaxed fields) m path
      → AllNodes (IsRelaxed fields) (obj (set "additionalProperties" (obj end) m)) path
  set-AllNodes m path under = node (inr (inr (rw get-set refl))) (λ v q c.
      elim (Child-relaxed m path v q c) [
        | inl old ↦ under v q old
        | inr (e, p) ↦ rw (e, p) (end-AllNodes path)
      ])

  has-false :
      (m : Fields) → has "additionalProperties" m ≡ false → get "additionalProperties" m ≡ none
  has-false m h = go (get "additionalProperties" m) h
    where
      go : (o : Option Value) → is_some o ≡ false → o ≡ none
      go none h = refl
      go (some v) h = cc h

  relax_visit-AllNodes :
      (m : Fields) (path : String) (s : List String)
      → AllUnder (IsRelaxed fields) m path
      → AllNodes (IsRelaxed fields) (obj (relax_visit fields m path s).0) path
  unfolding relax_visit
  relax_visit-AllNodes m path s under = elim (Bool-cases (contains fields path)) [
    | inr other ↦ rw other (node (inl other) under)
    | inl listed ↦ elim (Bool-cases (has "additionalProperties" m)) [
      | inl h ↦ rw (listed, h) (set-AllNodes m path under)
      | inr h ↦ rw (listed, h) (node (inr (inl (has-false m h))) under)
    ]
  ]

-- With at least one listed path, `StringifyFields` succeeds on every schema, and at every listed path
-- each map of the result accepts anything as the value of an entry, unless it says nothing of its
-- entries.
pub stringify_fields-IsRelaxed :
    (m : StringifyFields) (f : String) (fields : List String) (schema : Fields)
    → m.fields ≡ f ∷ fields
    → (r : MutationResult) × (stringify_fields m schema ≡ ok r)
      × AllNodes (IsRelaxed (f ∷ fields)) (obj r.schema) ""
unfolding stringify_fields relax_all
stringify_fields-IsRelaxed m f fields schema h =
    let visit = relax_visit (f ∷ fields) in
    let v = (walk_schema_nodes_with_path visit "" (obj schema) []).0 in
    let r : MutationResult = record {
      schema = fields_of v;
      template_args = ("stringifyFields", "(list " & join " " (map quote (f ∷ fields)) & ")") ∷ [];
    } in
    (
      r,
      rw h refl,
      rw (walk_schema_nodes_with_path-obj visit "" schema []) (
          walk_schema_nodes_with_path-AllNodes visit (IsRelaxed (f ∷ fields))
            (relax_visit-AllNodes (f ∷ fields)) "" (obj schema) []),
    )
