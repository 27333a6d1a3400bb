-- ===== src/Charts/Once.antt =====
-- About `visit` in cli/pkg/cmd/ci/ciChart.go: what is done and what is ordered.
use becloudless.Prelude.{
  ℕ, zero, suc, String, ◌≡◌, refl, Bool, true, false, not, ◌&&◌, ◌||◌, List, [], ◌∷◌, ◌++◌, ◌==◌,
  contains, arith, eq_iff, eq_refl, Bool-cases, inl, inr, all_in, all_in_intro, Within,
  contains-append, subst, Within-cons,
}
use becloudless.Charts.{Order, mark, append_dir, visit_list, visit_fuel, order, count}

abbrev pub is_distinct : List String → Bool
is_distinct [] = true
is_distinct (s ∷ list) = not (contains list s) && is_distinct list

is_distinct-append :
    (list : List String) (d : String)
    → is_distinct list ≡ true
    → contains list d ≡ false
    → is_distinct (list ++ d ∷ []) ≡ true
unfolding contains
is_distinct-append [] d h n = refl
is_distinct-append (s ∷ list) d h n = ground (
  arith,
  is_distinct-append list d,
  contains-append list (d ∷ []) s,
  eq_iff s d,
  eq_iff d s,
  n,
  h,
)

module _ (deps : String → List String) (selected : List String) where
  -- What is ordered is done and selected, and ordered once.
  abbrev Tidy : Order → Type 0
  Tidy o = Within o.ordered o.done × Within o.ordered selected × (is_distinct o.ordered ≡ true)

  -- A visit forgets nothing that is done, and orders nothing that was done before.
  abbrev Forward : Order → Order → Type 0
  Forward o o' =
      Within o.done o'.done
      × ((x : String)
          → contains o'.ordered x ≡ true
          → (contains o.ordered x || not (contains o.done x)) ≡ true)

  Forward-here : (o : Order) → Forward o o
  Forward-here o = (λ x c. c, λ x c. ground (arith, c))

  Forward-trans : (o o' o'' : Order) → Forward o o' → Forward o' o'' → Forward o o''
  Forward-trans o o' o'' (d, n) (d', n') =
      (λ x c. d' x (d x c), λ x c. ground (arith, n' x c, n x, d x))

  abbrev Keeps : (String → Order → Order) → Type 0
  Keeps visit = (dir : String) (o : Order) → Tidy o → Tidy (visit dir o) × Forward o (visit dir o)

  visit_list-Keeps :
      (visit : String → Order → Order)
      → Keeps visit
      → (list : List String) (o : Order) → Tidy o
      → Tidy (visit_list visit list o) × Forward o (visit_list visit list o)
  unfolding visit_list
  visit_list-Keeps visit good [] o t = (t, Forward-here o)
  visit_list-Keeps visit good (d ∷ list) o t =
      let (t', f) = good d o t in
      let (t'', g) = visit_list-Keeps visit good list (visit d o) t' in
      (t'', Forward-trans o (visit d o) (visit_list visit list (visit d o)) f g)

  append_dir-Tidy :
      (d : String) (o o' : Order)
      → contains o.done d ≡ false
      → contains selected d ≡ true
      → Tidy o
      → Tidy o'
      → Forward (mark d o) o'
      → Tidy (append_dir d o') × Forward o (append_dir d o')
  unfolding contains
  append_dir-Tidy d o o' n s (a, _, _) (a', b', c') (f, g) = (
    (
      λ x c. elim (Bool-cases (d == x)) [
        | inl e ↦ f x (ground (arith, e))
        | inr e ↦ a' x (ground (arith, c, e, contains-append o'.ordered (d ∷ []) x))
      ],
      λ x c. elim (Bool-cases (d == x)) [
        | inl e ↦ subst (λ y. contains selected y ≡ true) ((eq_iff d x).0 e) s
        | inr e ↦ b' x (ground (arith, c, e, contains-append o'.ordered (d ∷ []) x))
      ],
      is_distinct-append o'.ordered d c' (ground (arith, g d, a d, n, eq_refl d)),
    ),
    (
      λ x c. f x (ground (arith, c)),
      λ x c. elim (Bool-cases (d == x)) [
        | inl e ↦
            subst (λ y. (contains o.ordered y || not (contains o.done y)) ≡ true) ((eq_iff d x).0 e)
              (ground (arith, n))
        | inr e ↦ ground (arith, e, c, contains-append o'.ordered (d ∷ []) x, g x)
      ],
    ),
  )

  visit_fuel-Keeps : (fuel : ℕ) → Keeps (visit_fuel deps selected fuel)
  unfolding visit_fuel
  visit_fuel-Keeps zero d o t = (t, Forward-here o)
  visit_fuel-Keeps (suc fuel) d o t = elim (Bool-cases (contains o.done d)) [
    | inl e ↦ rw e (t, Forward-here o)
    | inr e ↦ elim (Bool-cases (contains selected d)) [
      | inr s ↦ rw (e, s) (t, Forward-here o)
      | inl s ↦
          let visit = visit_fuel deps selected fuel in
          let (t', f) =
            visit_list-Keeps visit (visit_fuel-Keeps fuel) (deps d) (mark d o) (mark-Tidy d o t) in
          rw (e, s) (append_dir-Tidy d o (visit_list visit (deps d) (mark d o)) e s t t' f)
    ]
  ]
    where
      mark-Tidy : (d : String) (o : Order) → Tidy o → Tidy (mark d o)
      mark-Tidy d o (a, b, c) = (λ x i. Within-cons d o.done x (a x i), b, c)

-- Whatever the charts depend on, the order has no chart twice, and none that is not selected.
pub order-IsDistinct :
    (deps : String → List String) (selected all : List String)
    → (is_distinct (order deps selected all) ≡ true)
      × (all_in selected (order deps selected all) ≡ true)
unfolding order contains
order-IsDistinct deps selected all =
    let start : Order = record { done = []; ordered = [] } in
    let visit = visit_fuel deps selected (suc (count selected)) in
    let ((a, b, c), _) =
      visit_list-Keeps deps selected visit (visit_fuel-Keeps deps selected (suc (count selected)))
        all start (λ x i. cc i, λ x i. cc i, refl) in
    (c, all_in_intro selected (visit_list visit all start).ordered b)
