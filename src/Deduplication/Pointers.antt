-- ===== src/Deduplication/Pointers.antt =====
-- The documents and the JSON pointers of kube/charts/base/build/optimize.go. `url.PathEscape` is a
-- parameter.
use becloudless.Prelude.{
  String, ◌&◌, ◌==◌, List, [], ◌∷◌, ◌++◌, if◌then◌else◌, Outcome, ok, err, contains, trim_prefix,
  split_on,
}
use becloudless.Json.{Value, null, obj, Fields, get, has}
use becloudless.Mutations.{or_null}
use becloudless.Flux.Substitute.{replace_all}

-- `schemaDoc`
pub record SchemaDoc : Type 0 where
  pub name : String
  pub root : Fields

-- `orderDocs`, the documents of one name
unfoldable pub docs_named : String → List SchemaDoc → List SchemaDoc
docs_named name [] = []
docs_named name (d ∷ docs) =
    let rest = docs_named name docs in if d.name == name then d ∷ rest else rest

-- the second loop of `orderDocs`
unfoldable pub other_docs : List String → List SchemaDoc → List SchemaDoc
unfolding contains
other_docs names [] = []
other_docs names (d ∷ docs) =
    let rest = other_docs names docs in if contains names d.name then rest else d ∷ rest

-- the first loop of `orderDocs`
unfoldable pub first_docs : List String → List SchemaDoc → List SchemaDoc
unfolding docs_named
first_docs [] docs = []
first_docs (name ∷ names) docs = docs_named name docs ++ first_docs names docs

-- `orderDocs`
unfoldable pub order_docs : List SchemaDoc → List String → List SchemaDoc
unfolding first_docs other_docs
order_docs docs names = first_docs names docs ++ other_docs names docs

pub data PointerError : Type 0 where
  not_an_object : String → String → PointerError
  through_ref : String → String → PointerError
  does_not_exist : String → PointerError

abbrev pub pointed : String → Value → Outcome PointerError Value
pointed pointer null = err (does_not_exist pointer)
pointed pointer node = ok node

-- the loop of `checkPointer`, and its end
unfoldable pub follow_pointer : String → Value → List String → Outcome PointerError Value
follow_pointer pointer node [] = pointed pointer node
follow_pointer pointer (obj m) (token ∷ tokens) =
    let rest = follow_pointer pointer (or_null (get token m)) tokens in
    if has "$ref" m then err (through_ref pointer token) else rest
follow_pointer pointer node (token ∷ tokens) = err (not_an_object pointer token)

-- `checkPointer`, with the node that it ends at
unfoldable pub check_pointer : Fields → String → Outcome PointerError Value
unfolding follow_pointer trim_prefix split_on
check_pointer root pointer =
    follow_pointer pointer (obj root) (split_on "/" (trim_prefix pointer "/"))

abbrev pub escaped : String → String
escaped token = replace_all (replace_all token "~" "~0") "/" "~1"

-- `pointerOf`
unfoldable pub pointer_of : (String → String) → List String → String
unfolding replace_all
pointer_of path_escape [] = ""
pointer_of path_escape (token ∷ tokens) =
    "/" & path_escape (escaped token) & pointer_of path_escape tokens

-- `location` of `optimizeResourceFiles`
unfoldable pub location : (String → String) → String → String → List String → String
unfolding pointer_of
location path_escape from to tokens =
    if from == to
    then "#" & pointer_of path_escape tokens
    else "./" & to & ".json#" & pointer_of path_escape tokens
