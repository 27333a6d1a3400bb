-- ===== src/Mutations/Required/Asks.antt =====
-- What a tree of required fields of Required.go asks for, also after a merge.
use becloudless.Prelude.{
  String, ◌≡◌, refl, ◌∙◌, Bool, true, false, ◌&&◌, ◌||◌, Option, none, some, List, [], ◌∷◌, ◌++◌,
  ◌==◌, if◌then◌else◌, contains, arith, eq_iff,
}
use becloudless.Mutations.Required.RequiredTree.{
  Tree, tree, Children, no_child, child, Each, no_each, each, no_tree, is_empty, find_child,
  set_child, add_names, put_merged, merge, merge_children, merge_each,
}

-- A step from an object to the objects under it: to a property, or to the entries of a map or list.
pub data Step : Type 0 where
  prop : String → Step
  entries : Step

-- `asks t path field`: the objects at `path` must have the field.
unfoldable mutual
  unfolding contains

  pub asks : Tree → List Step → String → Bool
  asks (tree r p e) [] field = contains r field
  asks (tree r p e) (prop name ∷ path) field = child_asks p name path field
  asks (tree r p e) (entries ∷ path) field = each_asks e path field

  pub child_asks : Children → String → List Step → String → Bool
  child_asks no_child name path field = false
  child_asks (child n t c) name path field =
      n == name && asks t path field || child_asks c name path field

  pub each_asks : Each → List Step → String → Bool
  each_asks no_each path field = false
  each_asks (each t) path field = asks t path field

contains-append_one :
    (out : List String) (r s : String) → contains (out ++ r ∷ []) s ≡ (contains out s || r == s)
unfolding contains
contains-append_one [] r s = ground arith
contains-append_one (x ∷ out) r s = ground (arith, contains-append_one out r s)

contains-add_names :
    (out names : List String) (s : String)
    → contains (add_names out names) s ≡ (contains out s || contains names s)
unfolding add_names contains
contains-add_names out [] s = ground arith
contains-add_names out (r ∷ names) s = ground (
  arith,
  contains-add_names (if contains out r then out else out ++ r ∷ []) names s,
  contains-append_one out r s,
  eq_iff r s,
)

abbrev asks_found : Option Tree → List Step → String → Bool
asks_found none path field = false
asks_found (some t) path field = asks t path field

-- a tree put under a name asks for `b` beside what the tree found there asked for
child_asks-set_child :
    (name : String) (t : Tree) (c : Children) (k : String) (path : List Step) (field : String)
    (b : Bool)
    → asks t path field ≡ (asks_found (find_child name c) path field || b)
    → child_asks (set_child name t c) k path field ≡ (name == k && b || child_asks c k path field)
unfolding asks set_child find_child
child_asks-set_child name t no_child k path field b h = ground arith
child_asks-set_child name t (child n u c) k path field b h =
    ground (
      arith,
      eq_iff n name,
      eq_iff n k,
      eq_iff name k,
      child_asks-set_child name t c k path field b,
    )

module _ (n : String) (t : Tree) (rest : Children) (k : String) (path : List Step)
    (field : String) where
  child_asks-put_merged :
      (o : Option Tree)
      → find_child n rest ≡ o
      → ((u : Tree) → asks (merge u t) path field ≡ (asks u path field || asks t path field))
      → child_asks (put_merged n t (λ u. merge u t) o rest) k path field
        ≡ (n == k && asks t path field || child_asks rest k path field)
  unfolding put_merged
  child_asks-put_merged none e h =
      child_asks-set_child n t rest k path field (asks t path field) (rw e)
  child_asks-put_merged (some u) e h =
      child_asks-set_child n (merge u t) rest k path field (asks t path field) (rw e (h u))

mutual
  unfolding asks merge

  asks-merge_all :
      (b a : Tree) (path : List Step) (field : String)
      → asks (merge a b) path field ≡ (asks a path field || asks b path field)
  asks-merge_all (tree r' p' e') (tree r p e) [] field = contains-add_names r r' field
  asks-merge_all (tree r' p' e') (tree r p e) (prop name ∷ path) field =
      child_asks-merge p' p name path field
  asks-merge_all (tree r' p' e') (tree r p e) (entries ∷ path) field =
      each_asks-merge e' e path field

  child_asks-merge :
      (c p : Children) (k : String) (path : List Step) (field : String)
      → child_asks (merge_children p c) k path field
        ≡ (child_asks p k path field || child_asks c k path field)
  child_asks-merge no_child p k path field = ground arith
  child_asks-merge (child n t c) p k path field =
      let rest = merge_children p c in
      child_asks-put_merged n t rest k path field (find_child n rest) refl
        (λ u. asks-merge_all t u path field)
      ∙ ground (arith, child_asks-merge c p k path field)

  each_asks-merge :
      (f e : Each) (path : List Step) (field : String)
      → each_asks (merge_each e f) path field ≡ (each_asks e path field || each_asks f path field)
  each_asks-merge no_each e path field = ground arith
  each_asks-merge (each t) no_each path field = refl
  each_asks-merge (each t) (each u) path field = asks-merge_all t u path field

-- A merged tree asks, at every path, for the fields that one of the two trees asks for.
pub asks-merge :
    (a b : Tree) (path : List Step) (field : String)
    → asks (merge a b) path field ≡ (asks a path field || asks b path field)
asks-merge a b path field = asks-merge_all b a path field

pub asks-no_tree : (path : List Step) (field : String) → asks no_tree path field ≡ false
unfolding asks contains
asks-no_tree [] field = refl
asks-no_tree (prop name ∷ path) field = refl
asks-no_tree (entries ∷ path) field = refl

-- An empty tree asks for nothing.
pub asks_of_is_empty :
    (t : Tree) (path : List Step) (field : String) → is_empty t ≡ true → asks t path field ≡ false
asks_of_is_empty (tree [] no_child no_each) path field h = asks-no_tree path field
asks_of_is_empty (tree (_ ∷ _) _ _) path field h = cc
asks_of_is_empty (tree [] (child _ _ _) _) path field h = cc
asks_of_is_empty (tree [] no_child (each _)) path field h = cc
