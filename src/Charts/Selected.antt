-- ===== src/Charts/Selected.antt =====
-- About the rounds of the selection in cli/pkg/cmd/ci/ciChart.go: what is selected at the end.
use becloudless.Prelude.{
  ℕ, zero, suc, ◌≤◌, ◌<◌, String, ◌≡◌, refl, sym, ◌∙◌, ap, subst, Bool, true, false, not, ◌&&◌,
  ◌||◌, List, [], ◌∷◌, if◌then◌else◌, contains, arith, eq_refl, Bool-cases, if_ind, inl, inr,
  all_in, all_in_intro, Within, Within-cons, missing, missing_strict,
}
use becloudless.Charts.{any_in, select_round, select_fuel, select, count}

-- Every chart of the list with a dependency in `selected` is in `selected`.
abbrev pub is_closed : (String → List String) → List String → List String → Bool
is_closed deps selected [] = true
is_closed deps selected (dir ∷ all) =
    (not (any_in selected (deps dir)) || contains selected dir) && is_closed deps selected all

pub any_in_mono :
    (l m list : List String) → Within l m → any_in l list ≡ true → any_in m list ≡ true
unfolding any_in
any_in_mono l m [] w h = h
any_in_mono l m (d ∷ list) w h = ground (arith, w d, any_in_mono l m list w)

module _ (deps : String → List String) where
  abbrev hit : List String → String → Bool
  hit selected dir = not (contains selected dir) && any_in selected (deps dir)

  abbrev grown : List String → String → List String
  grown selected dir = if hit selected dir then dir ∷ selected else selected

  Within-grown : (selected : List String) (dir : String) → Within selected (grown selected dir)
  Within-grown selected dir d c =
      if_ind (λ l. contains l d ≡ true) (hit selected dir) (λ _. Within-cons dir selected d c)
        (λ _. c)

  round-Within :
      (all selected : List String) (updated : Bool)
      → Within selected (select_round deps all selected updated).0
  unfolding select_round
  round-Within [] selected updated d c = c
  round-Within (dir ∷ all) selected updated d c =
      round-Within all (grown selected dir) (updated || hit selected dir) d
        (Within-grown selected dir d c)

  round-updated : (all selected : List String) → (select_round deps all selected true).1 ≡ true
  unfolding select_round
  round-updated [] selected = refl
  round-updated (dir ∷ all) selected = round-updated all (grown selected dir)

  round-cons :
      (dir : String) (all selected : List String) (b : Bool)
      → hit selected dir ≡ b
      → select_round deps (dir ∷ all) selected false
        ≡ select_round deps all (if b then dir ∷ selected else selected) b
  unfolding select_round
  round-cons dir all selected b h =
      ap (λ x. select_round deps all (if x then dir ∷ selected else selected) x) h

  -- A round that adds nothing leaves a closed list as it is.
  round-still :
      (all selected : List String)
      → (select_round deps all selected false).1 ≡ false
      → ((select_round deps all selected false).0 ≡ selected) × (is_closed deps selected all ≡ true)
  unfolding select_round
  round-still [] selected h = (refl, refl)
  round-still (dir ∷ all) selected h = elim (Bool-cases (hit selected dir)) [
    | inl e ↦ cc (
      subst (λ q. q.1 ≡ false) (round-cons dir all selected true e) h,
      round-updated all (dir ∷ selected),
    )
    | inr e ↦
        let r = round-cons dir all selected false e in
        let (s, t) = round-still all selected (subst (λ q. q.1 ≡ false) r h) in
        (ap (λ x. x.0) r ∙ s, ground (arith, e, t))
  ]

  -- A round that adds something leaves fewer of the charts out.
  round-missing :
      (all selected : List String)
      → (select_round deps all selected false).1 ≡ true
      → (x : String) × (contains all x ≡ true)
        × (contains selected x ≡ false)
        × (contains (select_round deps all selected false).0 x ≡ true)
  unfolding select_round contains
  round-missing [] selected h = cc h
  round-missing (dir ∷ all) selected h = elim (Bool-cases (hit selected dir)) [
    | inl e ↦ (
      dir,
      ground (arith, eq_refl dir),
      ground (arith, e),
      subst (λ r. contains r.0 dir ≡ true) (sym (round-cons dir all selected true e))
          (round-Within all (dir ∷ selected) true dir (ground (arith, eq_refl dir))),
    )
    | inr e ↦
        let r = round-cons dir all selected false e in
        let (x, i, a, b) = round-missing all selected (subst (λ q. q.1 ≡ true) r h) in
        (x, ground (arith, i), a, subst (λ q. contains q.0 x ≡ true) (sym r) b)
  ]

  fuel-Within :
      (fuel : ℕ) (all selected : List String) → Within selected (select_fuel deps fuel all selected)
  unfolding select_fuel
  fuel-Within zero all selected d c = c
  fuel-Within (suc fuel) all selected d c =
      let (next, updated) = select_round deps all selected false in
      let w = round-Within all selected false d c in
      if_ind (λ l. contains l d ≡ true) updated (λ _. fuel-Within fuel all next d w) (λ _. w)

  fuel-closed :
      (fuel : ℕ) (all selected : List String)
      → missing selected all < fuel
      → is_closed deps (select_fuel deps fuel all selected) all ≡ true
  unfolding select_fuel
  fuel-closed zero all selected h = ground arith
  fuel-closed (suc fuel) all selected h =
      let next = (select_round deps all selected false).0 in
      elim (Bool-cases (select_round deps all selected false).1) [
        | inl e ↦
            let (x, i, a, b) = round-missing all selected e in
            rw e (
              fuel-closed fuel all next (
                omega (
                  arith,
                  h,
                  missing_strict selected next all x (round-Within all selected false) i a b,
                )))
        | inr e ↦ let (s, t) = round-still all selected e in rw (e, s) t
      ]

pub missing-count : (l all : List String) → missing l all ≤ count all
unfolding count
missing-count l [] = ground arith
missing-count l (s ∷ all) = ground (arith, missing-count l all)

-- The selected charts have all those that changed, and every chart that depends on one of them: the
-- rounds end within their bound.
pub select-IsClosed :
    (deps : String → List String) (all changed : List String)
    → (all_in (select deps all changed) changed ≡ true)
      × (is_closed deps (select deps all changed) all ≡ true)
unfolding select
select-IsClosed deps all changed = (
  all_in_intro (select_fuel deps (suc (count all)) all changed) changed
      (fuel-Within deps (suc (count all)) all changed),
  fuel-closed deps (suc (count all)) all changed (omega (arith, missing-count changed all)),
)
