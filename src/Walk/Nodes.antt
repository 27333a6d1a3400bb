-- ===== src/Walk/Nodes.antt =====
-- The nodes of a schema that the walk reaches, with their paths, and a statement about all of them.
use becloudless.Prelude.{String, ◌≡◌, ◌⊎◌, some, Bool, true, false, arith}
use becloudless.Json.{Value, obj, arr, Items, Fields, get, delete, IsItem}
use becloudless.Json.Laws.{get_of_get-delete}
use becloudless.Walk.{child_path}

abbrev pub IsSingle : String → Type 0
IsSingle key = (key ≡ "additionalProperties") ⊎ (key ≡ "items")

abbrev pub IsBranch : String → Type 0
IsBranch key = (key ≡ "oneOf") ⊎ (key ≡ "anyOf") ⊎ (key ≡ "allOf")

-- `v` at path `q` is a child of the node `m` at path `p`.
pub data Child (m : Fields) (p : String) (v : Value) (q : String) : Type 0 where
  property :
      (props : Fields) (name : String)
      → get "properties" m ≡ some (obj props)
      → get name props ≡ some v
      → q ≡ child_path p name
      → Child m p v q
  single : (key : String) → IsSingle key → get key m ≡ some v → q ≡ p → Child m p v q
  branch :
      (key : String) (list : Items)
      → IsBranch key
      → get key m ≡ some (arr list)
      → IsItem v list
      → q ≡ p
      → Child m p v q

abbrev pub is_obj : Value → Bool
is_obj (obj m) = true
is_obj _ = false

-- `P` holds of every node at and under a value, with its path.
pub data AllNodes (P : Fields → String → Type 0) : Value → String → Type 0 where
  leaf : {v : Value} {p : String} → is_obj v ≡ false → AllNodes P v p
  node :
      {m : Fields} {p : String}
      → P m p
      → ((v : Value) (q : String) → Child m p v q → AllNodes P v q)
      → AllNodes P (obj m) p

-- `P` holds of every node under a node.
abbrev pub AllUnder : (Fields → String → Type 0) → Fields → String → Type 0
AllUnder P m p = (v : Value) (q : String) → Child m p v q → AllNodes P v q

module _ {P : Fields → String → Type 0} where
  pub AllNodes-here : {m : Fields} {p : String} → AllNodes P (obj m) p → P m p
  AllNodes-here (leaf h) = absurd (ground arith)
  AllNodes-here (node h under) = h

  pub AllNodes-under : {m : Fields} {p : String} → AllNodes P (obj m) p → AllUnder P m p
  AllNodes-under (leaf h) = absurd (ground arith)
  AllNodes-under (node h under) = under

-- A weaker statement holds of the same nodes.
pub AllNodes-mono :
    {P Q : Fields → String → Type 0} {v : Value} {p : String}
    → ((m : Fields) (q : String) → P m q → Q m q)
    → AllNodes P v p
    → AllNodes Q v p
AllNodes-mono f (leaf h) = leaf h
AllNodes-mono f (node h under) = node (f _ _ h) (λ v q c. AllNodes-mono f (under v q c))

-- A deletion takes children away, and adds none.
pub Child-delete :
    (k : String) {m : Fields} {p : String} {v : Value} {q : String}
    → Child (delete k m) p v q
    → Child m p v q
Child-delete k {m} (property props name h g e) =
    property props name (get_of_get-delete "properties" k m h) g e
Child-delete k {m} (single key i h e) = single key i (get_of_get-delete key k m h) e
Child-delete k {m} (branch key l i h j e) = branch key l i (get_of_get-delete key k m h) j e
