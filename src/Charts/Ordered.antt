-- ===== src/Charts/Ordered.antt =====
-- About `visit` in cli/pkg/cmd/ci/ciChart.go: the order of the charts and their dependencies.
use becloudless.Prelude.{
  ℕ, zero, suc, ◌+◌, ◌≤◌, ◌<◌, String, ◌≡◌, refl, subst, Bool, true, false, not, ◌&&◌, ◌||◌, List,
  [], ◌∷◌, ◌++◌, ◌==◌, contains, arith, eq_iff, eq_refl, Bool-cases, inl, inr, Within, Within-cons,
  missing, missing_mono, missing_strict, contains-append, contains-shift,
}
use becloudless.Charts.{Order, mark, append_dir, visit_list, visit_fuel, order, count}
use becloudless.Charts.Selected.{missing-count}

-- Every selected chart of a list is in `seen`.
abbrev pub ready : List String → List String → List String → Bool
ready selected seen [] = true
ready selected seen (d ∷ list) =
    (not (contains selected d) || contains seen d) && ready selected seen list

-- Every chart of a list has its selected dependencies before it in the list, or in `seen`.
abbrev pub in_order : (String → List String) → List String → List String → List String → Bool
in_order deps selected seen [] = true
in_order deps selected seen (d ∷ list) =
    ready selected seen (deps d) && in_order deps selected (d ∷ seen) list

ready_mono :
    (selected l m list : List String)
    → Within l m
    → ready selected l list ≡ true
    → ready selected m list ≡ true
ready_mono selected l m [] w h = refl
ready_mono selected l m (d ∷ list) w h = ground (arith, w d, ready_mono selected l m list w)

-- a bound on the ranks of a list
rank_bound : (String → ℕ) → List String → ℕ
rank_bound rank [] = zero
rank_bound rank (d ∷ list) = suc (rank d + rank_bound rank list)

rank-bound :
    (rank : String → ℕ) (list : List String) (d : String)
    → contains list d ≡ true
    → rank d < rank_bound rank list
unfolding contains rank_bound
rank-bound rank [] d c = absurd (ground (arith, c))
rank-bound rank (x ∷ list) d c = elim (Bool-cases (x == d)) [
  | inl e ↦
      subst (λ y. rank y < suc (rank x + rank_bound rank list)) ((eq_iff x d).0 e) (omega arith)
  | inr e ↦ omega (arith, rank-bound rank list d (ground (arith, c, e)))
]

module _ (deps : String → List String) (selected : List String) where
  in_order-append :
      (seen list : List String) (d : String) (m : List String)
      → in_order deps selected seen list ≡ true
      → Within m (list ++ seen)
      → ready selected m (deps d) ≡ true
      → in_order deps selected seen (list ++ d ∷ []) ≡ true
  in_order-append seen [] d m h w r = ground (arith, ready_mono selected m seen (deps d) w r)
  in_order-append seen (x ∷ list) d m h w r = ground (
    arith,
    in_order-append (x ∷ seen) list d m (ground arith) (λ y c. contains-shift list seen x y (w y c))
        r,
  )

  module _ (rank : String → ℕ)
      (acyclic : (d dep : String) → contains (deps d) dep ≡ true → rank dep < rank d) where
    -- Before a visit: the charts that are visited but not yet ordered, which depend on the visited
    -- one, rank at least `k`.
    abbrev Before : ℕ → Order → Type 0
    Before k o =
        ((x : String) → contains o.done x ≡ true → contains o.ordered x ≡ false → k ≤ rank x)
        × (in_order deps selected [] o.ordered ≡ true)

    -- A visit keeps what is done and ordered, orders the charts that it visits, and keeps the order.
    abbrev After : Order → Order → Type 0
    After o o' =
        Within o.ordered o'.ordered
        × Within o.done o'.done
        × ((x : String)
            → contains o'.done x ≡ true
            → (contains o'.ordered x || contains o.done x) ≡ true)
        × (in_order deps selected [] o'.ordered ≡ true)

    After-Before : (k : ℕ) (o o' : Order) → Before k o → After o o' → Before k o'
    After-Before k o o' (b, _) (g, d, s, i) =
        (λ x c n. b x (ground (arith, s x c, n)) (ground (arith, g x, n)), i)

    After-trans : (o o' o'' : Order) → After o o' → After o' o'' → After o o''
    After-trans o o' o'' (g, d, s, i) (g', d', s', i') =
        (λ x c. g' x (g x c), λ x c. d' x (d x c), λ x c. ground (arith, s' x c, s x, g' x), i')

    module _ (fuel : ℕ) (visit : String → Order → Order)
        (good : (d : String) (o : Order) (k : ℕ)
          → missing o.done selected < fuel
          → rank d < k
          → Before k o
          → After o (visit d o)
            × (contains selected d ≡ true → contains (visit d o).ordered d ≡ true)) where
      visit_list-After :
          (list : List String) (o : Order) (k : ℕ)
          → missing o.done selected < fuel
          → ((d : String) → contains list d ≡ true → rank d < k)
          → Before k o
          → After o (visit_list visit list o)
            × (ready selected (visit_list visit list o).ordered list ≡ true)
      unfolding visit_list contains
      visit_list-After [] o k m r b = ((λ x c. c, λ x c. c, λ x c. ground (arith, c), b.1), refl)
      visit_list-After (d ∷ list) o k m r b =
          let o' = visit d o in
          let (a, i) = good d o k m (r d (ground (arith, eq_refl d))) b in
          let (a', i') =
            visit_list-After list o' k (omega (arith, m, missing_mono o.done o'.done selected a.1))
              (λ x c. r x (ground (arith, c))) (After-Before k o o' b a) in
          (After-trans o o' (visit_list visit list o') a a', ground (arith, i, a'.0 d, i'))

    -- what a visit asks for and gives
    abbrev Good : ℕ → (String → Order → Order) → Type 0
    Good fuel visit =
        (d : String) (o : Order) (k : ℕ)
        → missing o.done selected < fuel
        → rank d < k
        → Before k o
        → After o (visit d o) × (contains selected d ≡ true → contains (visit d o).ordered d ≡ true)

    mark-missing :
        (d : String) (o : Order)
        → contains o.done d ≡ false
        → contains selected d ≡ true
        → suc (missing (mark d o).done selected) ≤ missing o.done selected
    unfolding contains
    mark-missing d o n i =
        missing_strict o.done (d ∷ o.done) selected d (Within-cons d o.done) i n
          (ground (arith, eq_refl d))

    mark-Before :
        (d : String) (o : Order) (k : ℕ) → rank d < k → Before k o → Before (rank d) (mark d o)
    unfolding contains
    mark-Before d o k r (b, i) = (
      λ x c n. elim (Bool-cases (d == x)) [
        | inl e ↦ subst (λ y. rank d ≤ rank y) ((eq_iff d x).0 e) (omega arith)
        | inr e ↦ omega (arith, r, b x (ground (arith, c, e)) n)
      ],
      i,
    )

    append_dir-After :
        (d : String) (o o' : Order)
        → After (mark d o) o'
        → ready selected o'.ordered (deps d) ≡ true
        → After o (append_dir d o') × (contains (append_dir d o').ordered d ≡ true)
    unfolding contains
    append_dir-After d o o' (g, w, s, i) r = (
      (
        λ x c. ground (arith, contains-append o'.ordered (d ∷ []) x, g x c),
        λ x c. w x (ground (arith, c)),
        λ x c. ground (arith, contains-append o'.ordered (d ∷ []) x, s x c, eq_iff d x),
        in_order-append [] o'.ordered d o'.ordered i
            (λ x c. ground (arith, contains-append o'.ordered [] x, c)) r,
      ),
      ground (arith, contains-append o'.ordered (d ∷ []) d, eq_refl d),
    )

    visit_fuel-Good : (fuel : ℕ) → Good fuel (visit_fuel deps selected fuel)
    unfolding visit_fuel
    visit_fuel-Good zero d o k m r b = absurd (omega (arith, m))
    visit_fuel-Good (suc fuel) d o k m r b =
        let visit = visit_fuel deps selected fuel in
        let o' = visit_list visit (deps d) (mark d o) in
        let Goal =
          λ (q : Order). After o q × (contains selected d ≡ true → contains q.ordered d ≡ true) in
        elim (Bool-cases (contains o.done d)) [
          | inl e ↦ rw e (stay, λ s. settled e)
          | inr e ↦ elim (Bool-cases (contains selected d)) [
            | inl s ↦
                let (a, i) =
                  visit_list-After fuel visit (visit_fuel-Good fuel) (deps d) (mark d o) (rank d)
                    (omega (arith, m, mark-missing d o e s)) (acyclic d) (mark-Before d o k r b) in
                let (a', i') = append_dir-After d o o' a i in rw (e, s) (a', λ _. i')
            | inr s ↦ rw (e, s) (stay, λ t. cc t)
          ]
        ]
      where
        stay : After o o
        stay = (λ x c. c, λ x c. c, λ x c. ground (arith, c), b.1)

        settled : contains o.done d ≡ true → contains o.ordered d ≡ true
        settled e = elim (Bool-cases (contains o.ordered d)) [
          | inl i ↦ i
          | inr n ↦ absurd (omega (arith, r, b.0 d e n))
        ]

-- When no chart depends on itself through others, which a rank that falls along the dependencies
-- shows, the visits put every selected chart of the folder in the order, and each one after all the
-- selected charts that it depends on.
pub order-in_order :
    (deps : String → List String) (selected all : List String) (rank : String → ℕ)
    → ((d dep : String) → contains (deps d) dep ≡ true → rank dep < rank d)
    → (in_order deps selected [] (order deps selected all) ≡ true)
      × (ready selected (order deps selected all) all ≡ true)
unfolding order contains
order-in_order deps selected all rank acyclic =
    let fuel = suc (count selected) in
    let start : Order = record { done = []; ordered = [] } in
    let (a, r) =
      visit_list-After deps selected rank acyclic fuel (visit_fuel deps selected fuel)
        (visit_fuel-Good deps selected rank acyclic fuel) all start (rank_bound rank all)
        (omega (arith, missing-count [] selected)) (rank-bound rank all)
        (λ x c n. absurd (ground (arith, c)), refl) in
    (a.3, r)
