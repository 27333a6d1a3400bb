-- ===== src/Charts/Least.antt =====
-- About the rounds of the selection in cli/pkg/cmd/ci/ciChart.go: why a chart is selected.
use becloudless.Prelude.{
  ℕ, zero, suc, String, ◌≡◌, subst, Bool, true, false, not, ◌&&◌, ◌||◌, List, [], ◌∷◌, ◌==◌,
  if◌then◌else◌, contains, arith, eq_iff, Bool-cases, if_ind, inl, inr, all_in, all_in_intro,
  all_in_elim, Within,
}
use becloudless.Charts.{any_in, select_round, select_fuel, select, count}
use becloudless.Charts.Selected.{is_closed, any_in_mono}

module _ (deps : String → List String) (q : List String) where
  Within-add :
      (dir : String) (selected : List String)
      → contains q dir ≡ true
      → Within selected q
      → Within (dir ∷ selected) q
  unfolding contains
  Within-add dir selected i w d c = elim (Bool-cases (dir == d)) [
    | inl e ↦ subst (λ x. contains q x ≡ true) ((eq_iff dir d).0 e) i
    | inr e ↦ w d (ground (arith, c, e))
  ]

  round-least :
      (all selected : List String) (updated : Bool)
      → is_closed deps q all ≡ true
      → Within selected q
      → Within (select_round deps all selected updated).0 q
  unfolding select_round
  round-least [] selected updated h w = w
  round-least (dir ∷ all) selected updated h w =
      let hit = not (contains selected dir) && any_in selected (deps dir) in
      round-least all (if hit then dir ∷ selected else selected) (updated || hit) (ground arith) (
        if_ind (λ l. Within l q) hit
          (λ e. Within-add dir selected (ground (arith, e, any_in_mono selected q (deps dir) w)) w)
          (λ _. w))

  fuel-least :
      (fuel : ℕ) (all selected : List String)
      → is_closed deps q all ≡ true
      → Within selected q
      → Within (select_fuel deps fuel all selected) q
  unfolding select_fuel
  fuel-least zero all selected h w = w
  fuel-least (suc fuel) all selected h w =
      let (next, updated) = select_round deps all selected false in
      let w' = round-least all selected false h w in
      if_ind (λ l. Within l q) updated (λ _. fuel-least fuel all next h w') (λ _. w')

-- The selected charts are the fewest: any list that has the changed charts, and every chart with a
-- dependency in it, has them all.
pub select-least :
    (deps : String → List String) (all changed q : List String)
    → all_in q changed ≡ true
    → is_closed deps q all ≡ true
    → all_in q (select deps all changed) ≡ true
unfolding select
select-least deps all changed q i h =
    all_in_intro q (select_fuel deps (suc (count all)) all changed)
      (fuel-least deps q (suc (count all)) all changed h (all_in_elim q changed i))
