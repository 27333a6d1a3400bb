-- ===== src/Disks/Ended.antt =====
-- When the loops of `relatedChain` of nixosHardwareDisks.go end.
use becloudless.Prelude.{
  ℕ, zero, suc, ◌+◌, ◌≤◌, ◌<◌, String, Bool, true, ◌&&◌, some, List, [], ◌∷◌, ◌++◌, ◌≡◌, refl, ap,
  arith, ltb, ◌==◌, ◌||◌, Bool-cases, inl, inr,
}
use becloudless.Disks.{BlockDeviceGraph, children_of}
use becloudless.Disks.Devices.{
  BlockDevice, Chain, parent_of, add_to_chain, ancestors, descendants, related_chain,
}

-- Every name of a list has a rank below `n`.
abbrev pub all_below : (String → ℕ) → ℕ → List String → Bool
all_below rank n [] = true
all_below rank n (c ∷ list) = ltb (rank c) n && all_below rank n list

abbrev sum_of : (String → ℕ) → List String → ℕ
sum_of f [] = zero
sum_of f (c ∷ list) = f c + sum_of f list

sum_of-append : (f : String → ℕ) (l m : List String) → sum_of f (l ++ m) ≡ sum_of f l + sum_of f m
sum_of-append f [] m = omega arith
sum_of-append f (c ∷ l) m = omega (arith, sum_of-append f l m)

-- How many visits the walk down makes from a device.
weight : BlockDeviceGraph → ℕ → String → ℕ
weight g zero x = zero
weight g (suc n) x = suc (sum_of (weight g n) (children_of g x))

module _ (g : BlockDeviceGraph) (rank : String → ℕ)
    (down : (x : String) → all_below rank (rank x) (children_of g x) ≡ true) where
  -- Two functions that agree below `n` have the same sum.
  sum_of-below :
      (f h : String → ℕ) (n : ℕ) (list : List String)
      → ((c : String) → rank c < n → f c ≡ h c)
      → all_below rank n list ≡ true
      → sum_of f list ≡ sum_of h list
  sum_of-below f h n [] agree b = refl
  sum_of-below f h n (c ∷ list) agree b =
      omega (arith, agree c (ground arith), sum_of-below f h n list agree (ground arith))

  weight-stable : (n m : ℕ) (x : String) → rank x < n → rank x < m → weight g n x ≡ weight g m x
  unfolding weight
  weight-stable zero m x h k = ground arith
  weight-stable (suc n) zero x h k = ground arith
  weight-stable (suc n) (suc m) x h k = ap suc (
      sum_of-below (weight g n) (weight g m) (rank x) (children_of g x)
        (λ c b. weight-stable n m c (omega arith) (omega arith)) (down x))

  -- the visits from a device on
  visits : String → ℕ
  visits x = weight g (suc (rank x)) x

  visits-step : (x : String) → visits x ≡ suc (sum_of visits (children_of g x))
  unfolding visits weight
  visits-step x = ap suc (
      sum_of-below (weight g (rank x)) visits (rank x) (children_of g x)
        (λ c b. weight-stable (rank x) (suc (rank c)) c b (omega arith)) (down x))

  descendants-ends :
      (steps : ℕ) (queue : List String) (chain : Chain)
      → sum_of visits queue < steps
      → (ended : Chain) × (descendants g steps queue chain ≡ some ended)
  unfolding descendants
  descendants-ends zero queue chain h = absurd (omega arith)
  descendants-ends (suc steps) [] chain h = (chain, refl)
  descendants-ends (suc steps) (cur ∷ queue) chain h =
      descendants-ends steps (queue ++ children_of g cur) (add_to_chain g cur chain)
        (omega (arith, visits-step cur, sum_of-append visits queue (children_of g cur)))

  ancestors-stop :
      (steps : ℕ) (cur : String) (chain : Chain)
      → 1 ≤ steps
      → (cur == "") ≡ true
      → (ended : Chain) × (ancestors g steps cur chain ≡ some ended)
  unfolding ancestors
  ancestors-stop zero cur chain h e = absurd (omega arith)
  ancestors-stop (suc steps) cur chain h e = rw e (chain, refl)

  ancestors-ends :
      (top : ℕ)
      → ((x : String) → (parent_of g x == "" || ltb (rank x) (rank (parent_of g x))) ≡ true)
      → ((x : String) → rank x ≤ top)
      → (steps : ℕ) (cur : String) (chain : Chain) → suc (suc top) ≤ rank cur + steps
      → (ended : Chain) × (ancestors g steps cur chain ≡ some ended)
  unfolding ancestors
  ancestors-ends top up bound zero cur chain h = absurd (omega (arith, bound cur))
  ancestors-ends top up bound (suc steps) cur chain h = elim (Bool-cases (cur == "")) [
    | inl e ↦ rw e (chain, refl)
    | inr e ↦ rw e (elim (Bool-cases (parent_of g cur == "")) [
      | inl p ↦
          ancestors-stop steps (parent_of g cur) (add_to_chain g cur chain)
            (omega (arith, bound cur)) p
      | inr p ↦
          ancestors-ends top up bound steps (parent_of g cur) (add_to_chain g cur chain)
            (ground (arith, up cur))
    ])
  ]

-- When the devices have a rank that falls from a device to its children and grows from a device to its
-- parent, as in the forest that lsblk prints, the two loops of `relatedChain` end: there is a number of
-- steps from which on each number gives a chain.
pub related_chain-ends :
    (g : BlockDeviceGraph) (rank : String → ℕ) (top : ℕ)
    → ((x : String) → all_below rank (rank x) (children_of g x) ≡ true)
    → ((x : String) → (parent_of g x == "" || ltb (rank x) (rank (parent_of g x))) ≡ true)
    → ((x : String) → rank x ≤ top)
    → (name : String)
    → (enough : ℕ) × ((steps : ℕ)
        → enough ≤ steps
        → (chain : List BlockDevice) × (related_chain g steps name ≡ some chain))
unfolding related_chain
related_chain-ends g rank top down up bound name =
    let down_bound = sum_of (visits g rank down) (children_of g name) in
    (
      suc down_bound + suc (suc top),
      λ steps h.
          let (chain, a) =
            ancestors-ends g rank down top up bound steps name ([], []) (omega arith) in
          let (ended, d) =
            descendants-ends g rank down steps (children_of g name) chain (omega arith) in
          (ended.1, rw (a, d)),
    )
