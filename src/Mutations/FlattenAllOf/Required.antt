-- ===== src/Mutations/FlattenAllOf/Required.antt =====
-- About the `required` list that `mergeAllOfBranch` of flattenAllOf.go makes.
use becloudless.Prelude.{
  String, ◌≡◌, ◌≢◌, refl, ◌∙◌, some, false, not, ◌&&◌, ◌||◌, [], ◌==◌, arith, Option, contains,
  eq_iff, Bool-cases, inl, inr,
}
use becloudless.Json.{Value, arr, Items, nil, cons, Fields, get, as_arr, as_obj}
use becloudless.Json.Laws.{get-set}
use becloudless.Mutations.{text_of, includes_item}
use becloudless.Mutations.FlattenAllOf.{
  Union, append_item, add_one, add_required, merge_required, merge_properties, merge_all_of_branch,
  adopted, or_nil,
}
use becloudless.Mutations.FlattenAllOf.Merge.{get-adopt, get-merge_properties}

includes_item-append_item :
    (out : Items) (r : Value) (s : String)
    → includes_item (append_item out r) s ≡ (includes_item out s || text_of r == s)
unfolding includes_item append_item
includes_item-append_item nil r s = ground arith
includes_item-append_item (cons v out) r s = ground (arith, includes_item-append_item out r s)

-- the texts seen are those of the list so far
abbrev IsUnion : Union → Type 0
IsUnion u = (s : String) → contains u.seen s ≡ includes_item u.out s

add_one-IsUnion : (u : Union) (r : Value) → IsUnion u → IsUnion (add_one u r)
unfolding add_one contains
add_one-IsUnion u r h s = ground (arith, h s, includes_item-append_item u.out r s)

includes_item-add_one :
    (u : Union) (r : Value) (s : String)
    → IsUnion u
    → includes_item (add_one u r).out s ≡ (includes_item u.out s || not (s == "") && text_of r == s)
unfolding add_one
includes_item-add_one u r s h = ground (
  arith,
  h s,
  includes_item-append_item u.out r s,
  eq_iff (text_of r) "",
  eq_iff (text_of r) s,
  eq_iff s "",
  h (text_of r),
)

includes_item-add_required :
    (u : Union) (l : Items) (s : String)
    → IsUnion u
    → includes_item (add_required u l).out s
      ≡ (includes_item u.out s || not (s == "") && includes_item l s)
unfolding add_required includes_item
includes_item-add_required u nil s h = ground arith
includes_item-add_required u (cons r l) s h = ground (
  arith,
  includes_item-add_required (add_one u r) l s (add_one-IsUnion u r h),
  includes_item-add_one u r s h,
)

add_required-IsUnion : (u : Union) (l : Items) → IsUnion u → IsUnion (add_required u l)
unfolding add_required
add_required-IsUnion u nil h = h
add_required-IsUnion u (cons r l) h = add_required-IsUnion (add_one u r) l (add_one-IsUnion u r h)

-- every item is a text that is not empty, and no text comes twice
abbrev pub IsDistinct : Items → Type 0
IsDistinct nil = Unit
IsDistinct (cons r l) = (text_of r ≢ "") × (includes_item l (text_of r) ≡ false) × IsDistinct l

IsDistinct-append_item :
    (out : Items) (r : Value)
    → text_of r ≢ ""
    → includes_item out (text_of r) ≡ false
    → IsDistinct out
    → IsDistinct (append_item out r)
unfolding append_item includes_item
IsDistinct-append_item nil r t h d = (t, refl, tt)
IsDistinct-append_item (cons v out) r t h d = (
  d.0,
  ground (
    arith,
    includes_item-append_item out r (text_of v),
    d.1,
    h,
    eq_iff (text_of r) (text_of v),
    eq_iff (text_of v) (text_of r),
  ),
  IsDistinct-append_item out r t (ground (arith, h)) d.2,
)

IsDistinct-add_one :
    (u : Union) (r : Value) → IsUnion u → IsDistinct u.out → IsDistinct (add_one u r).out
unfolding add_one
IsDistinct-add_one u r h d =
    elim (Bool-cases (not (text_of r == "") && not (contains u.seen (text_of r)))) [
      | inl fresh ↦ rw fresh (
          IsDistinct-append_item u.out r (ground (arith, eq_iff (text_of r) ""))
            (ground (arith, h (text_of r))) d)
      | inr old ↦ rw old d
    ]

IsDistinct-add_required :
    (u : Union) (l : Items) → IsUnion u → IsDistinct u.out → IsDistinct (add_required u l).out
unfolding add_required
IsDistinct-add_required u nil h d = d
IsDistinct-add_required u (cons r l) h d =
    IsDistinct-add_required (add_one u r) l (add_one-IsUnion u r h) (IsDistinct-add_one u r h d)

-- The `required` list of a value, which may be missing.
abbrev pub required_of : Fields → Items
required_of m = or_nil (as_arr (get "required" m))

get_required-merge :
    (n : Fields) (b : Fields)
    → get "required" (merge_all_of_branch n b)
      ≡ get "required" (
          merge_required
            (merge_properties n (as_obj (get "properties" b)))
            (as_arr (get "required" b)))
unfolding merge_all_of_branch contains
get_required-merge n b = get-adopt "required" adopted b _

abbrev nothing : Union
nothing = record { seen = []; out = nil }

nothing-IsUnion : IsUnion nothing
unfolding contains includes_item
nothing-IsUnion s = refl

get_required-merge_required :
    (n : Fields) (o : Option Fields) (req : Items)
    → get "required" (merge_required (merge_properties n o) (some req))
      ≡ some (arr (add_required (add_required nothing (required_of n)) req).out)
unfolding merge_required
get_required-merge_required n o req = rw (get-set, get-merge_properties "required" n o refl)

-- Merging a branch with a `required` list leaves one without duplicates or empty texts, that asks for
-- a field exactly if it is no empty text and the node or the branch asks for it.
pub required-merge_all_of_branch :
    (n b : Fields) (req : Items)
    → as_arr (get "required" b) ≡ some req
    → (out : Items) × (get "required" (merge_all_of_branch n b) ≡ some (arr out))
      × IsDistinct out
      × ((s : String)
          → includes_item out s
            ≡ (not (s == "") && (includes_item (required_of n) s || includes_item req s)))
unfolding includes_item
required-merge_all_of_branch n b req e =
    let u = add_required nothing (required_of n) in
    let h = add_required-IsUnion nothing (required_of n) nothing-IsUnion in
    (
      (add_required u req).out,
      get_required-merge n b
          ∙ rw e (get_required-merge_required n (as_obj (get "properties" b)) req),
      IsDistinct-add_required u req h
          (IsDistinct-add_required nothing (required_of n) nothing-IsUnion tt),
      λ s. ground (
        arith,
        includes_item-add_required u req s h,
        includes_item-add_required nothing (required_of n) s nothing-IsUnion,
      ),
    )
