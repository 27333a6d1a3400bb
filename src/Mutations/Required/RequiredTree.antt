-- ===== src/Mutations/Required/RequiredTree.antt =====
-- The tree of the required fields: the type `node` of
-- kube/charts/base/templates/resources/mutations/required/Required.go and its methods.
use Prim.Native.String.{compare}
use text.Mathlib.Text.{is_le}
use becloudless.Prelude.{
  String, Bool, true, false, Option, none, some, List, [], ◌∷◌, ◌++◌, map, ◌==◌, ◌&◌, if◌then◌else◌,
  join, contains, sort_strings, quote,
}

mutual
  -- `node`
  pub data Tree : Type 0 where
    tree : (required : List String) (properties : Children) (each : Each) → Tree

  -- map[string]*node
  pub data Children : Type 0 where
    no_child : Children
    child : String → Tree → Children → Children

  -- *node, which may be nil
  pub data Each : Type 0 where
    no_each : Each
    each : Tree → Each

-- `&node{}`
abbrev pub no_tree : Tree
no_tree = tree [] no_child no_each

-- `n.empty()`
abbrev pub is_empty : Tree → Bool
is_empty (tree [] no_child no_each) = true
is_empty _ = false

-- `properties[name]`
unfoldable pub find_child : String → Children → Option Tree
find_child name no_child = none
find_child name (child n t c) = if n == name then some t else find_child name c

-- `properties[name] = t`
unfoldable pub set_child : String → Tree → Children → Children
set_child name t no_child = child name t no_child
set_child name t (child n u c) = if n == name then child n t c else child n u (set_child name t c)

-- the loop over `other.required`
unfoldable pub add_names : List String → List String → List String
add_names out [] = out
add_names out (r ∷ names) = add_names (if contains out r then out else out ++ r ∷ []) names

-- one round of the loop over `other.properties`
unfoldable pub put_merged : String → Tree → (Tree → Tree) → Option Tree → Children → Children
unfolding set_child
put_merged name t merged none c = set_child name t c
put_merged name t merged (some u) c = set_child name (merged u) c

-- `n.merge(other)`; merging an empty tree changes nothing. The order of the loop over a map is free.
unfoldable mutual
  pub merge : Tree → Tree → Tree
  merge (tree r p e) (tree r' p' e') = tree (add_names r r') (merge_children p p') (merge_each e e')

  pub merge_children : Children → Children → Children
  merge_children p no_child = p
  merge_children p (child name t c) =
      let rest = merge_children p c in
      put_merged name t (λ u. merge u t) (find_child name rest) rest

  pub merge_each : Each → Each → Each
  merge_each e no_each = e
  merge_each no_each (each t) = each t
  merge_each (each u) (each t) = each (merge u t)

insert_entry : String × String → List (String × String) → List (String × String)
insert_entry (n, e) [] = (n, e) ∷ []
insert_entry (n, e) ((k, f) ∷ list) =
    if is_le (compare n k) then (n, e) ∷ (k, f) ∷ list else (k, f) ∷ insert_entry (n, e) list

-- The entries in the order of their names.
sort_entries : List (String × String) → List (String × String)
unfolding insert_entry
sort_entries [] = []
sort_entries (e ∷ list) = insert_entry e (sort_entries list)

required_part : List String → List String
required_part [] = []
required_part (r ∷ names) =
    ("\"required\" (list " & join " " (map quote (sort_strings (r ∷ names))) & ")") ∷ []

properties_part : List (String × String) → List String
unfolding sort_entries
properties_part [] = []
properties_part (e ∷ list) =
    ("\"properties\" (dict "
      & join " " (map (λ p. quote p.0 & " " & p.1) (sort_entries (e ∷ list)))
      & ")")
    ∷ []

each_part : String → List String
each_part e = if e == "" then [] else ("\"each\" " & e) ∷ []

expr_of : Tree → List (String × String) → String → String
unfolding required_part properties_part each_part
expr_of (tree r p e) properties each_expr =
    if is_empty (tree r p e)
    then ""
    else "(dict "
      & join " " (required_part r ++ properties_part properties ++ each_part each_expr)
      & ")"

-- `n.expr()`
unfoldable mutual
  unfolding expr_of

  pub expr : Tree → String
  expr (tree r p e) = expr_of (tree r p e) (exprs p) (expr_each e)

  -- the expressions of the children that have one
  pub exprs : Children → List (String × String)
  exprs no_child = []
  exprs (child name t c) =
      let e = expr t in let rest = exprs c in if e == "" then rest else (name, e) ∷ rest

  pub expr_each : Each → String
  expr_each no_each = ""
  expr_each (each t) = expr t
