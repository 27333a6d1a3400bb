-- ===== src/Disks/Mounts.antt =====
-- About `descendMountPoint` of nixosHardwareDisks.go and the devices under a device.
use becloudless.Prelude.{
  ℕ, zero, suc, ◌+◌, ◌≤◌, ◌<◌, String, ◌≡◌, sym, subst, true, false, none, some, List, [], ◌∷◌,
  ◌++◌, ◌==◌, if◌then◌else◌, contains, Dict, lookup, arith, eq_iff, eq_refl, Bool-cases,
  Option-cases, inl, inr, Within, contains-append,
}
use becloudless.Disks.{
  BlockDeviceGraph, children_of, mount_of, descend_fuel, descend_mount_point, edges, length,
  names_or_none,
}

-- A device is under another one, which is under itself.
pub data IsUnder (g : BlockDeviceGraph) (top : String) : String → Type 0 where
  itself : IsUnder g top top
  below :
      {name child : String}
      → IsUnder g top name
      → contains (children_of g name) child ≡ true
      → IsUnder g top child

-- the children of the devices that are not yet seen
pending : Dict (List String) → List String → ℕ
pending [] seen = zero
pending ((name, list) ∷ m) seen =
    let rest = pending m seen in if contains seen name then rest else length list + rest

pending_mono :
    (m : Dict (List String)) (seen : List String) (cur : String)
    → pending m (cur ∷ seen) ≤ pending m seen
unfolding pending contains
pending_mono [] seen cur = ground arith
pending_mono ((name, list) ∷ m) seen cur = ground (arith, pending_mono m seen cur)

pending-edges : (m : Dict (List String)) → pending m [] ≤ edges m
unfolding pending contains
pending-edges [] = ground arith
pending-edges ((name, list) ∷ m) = ground (arith, pending-edges m)

pending_drop :
    (m : Dict (List String)) (seen : List String) (cur : String)
    → contains seen cur ≡ false
    → pending m (cur ∷ seen) + length (names_or_none (lookup cur m)) ≤ pending m seen
unfolding pending contains lookup
pending_drop [] seen cur h = ground arith
pending_drop ((name, list) ∷ m) seen cur h = elim (Bool-cases (name == cur)) [
  | inl e ↦
      subst
        (λ n.
          pending ((n, list) ∷ m) (cur ∷ seen) + length (names_or_none (lookup cur ((n, list) ∷ m)))
          ≤ pending ((n, list) ∷ m) seen)
        (sym ((eq_iff name cur).0 e)) (ground (arith, h, eq_refl cur, pending_mono m seen cur))
  | inr e ↦ ground (arith, e, eq_iff cur name, eq_iff name cur, pending_drop m seen cur h)
]

length-append : (l m : List String) → length (l ++ m) ≡ length l + length m
length-append [] m = ground arith
length-append (s ∷ l) m = ground (arith, length-append l m)

module _ (g : BlockDeviceGraph) where
  -- Every device of the queue and every one that is seen is under the first one.
  sound :
      (top : String) (fuel : ℕ) (queue seen : List String) (path : String)
      → ((x : String) → contains queue x ≡ true → IsUnder g top x)
      → descend_fuel g fuel queue seen ≡ some path
      → (name : String) × IsUnder g top name × (mount_of g name ≡ some path)
  unfolding descend_fuel contains
  sound top zero queue seen path under h = cc h
  sound top (suc fuel) [] seen path under h = cc h
  sound top (suc fuel) (cur ∷ queue) seen path under h = elim (Bool-cases (contains seen cur)) [
    | inl e ↦ sound top fuel queue seen path (λ x c. under x (ground (arith, c))) (rw e at h)
    | inr e ↦ elim (Option-cases (mount_of g cur)) [
      | inr (p, m) ↦ (cur, under cur (ground (arith, eq_refl cur)), cc (m, rw (e, m) at h))
      | inl m ↦
          sound top fuel (queue ++ children_of g cur) (cur ∷ seen) path
            (λ x c. elim (Bool-cases (contains queue x)) [
              | inl q ↦ under x (ground (arith, q))
              | inr q ↦
                  below (under cur (ground (arith, eq_refl cur)))
                    (ground (arith, q, c, contains-append queue (children_of g cur) x))
            ])
            (rw (e, m) at h)
    ]
  ]

  -- Devices that are not mounted, and whose children are among them or in the queue.
  abbrev Explored : List String → List String → Type 0
  Explored queue seen =
      (x : String)
      → contains seen x ≡ true
      → (mount_of g x ≡ none) × Within (children_of g x) (seen ++ queue)

  Explored-skip :
      (cur : String) (queue seen : List String)
      → contains seen cur ≡ true
      → Explored (cur ∷ queue) seen
      → Explored queue seen
  unfolding contains
  Explored-skip cur queue seen s e x c =
      let (m, w) = e x c in
      (
        m,
        λ y d. ground (
          arith,
          w y d,
          contains-append seen (cur ∷ queue) y,
          contains-append seen queue y,
          λ (same : cur ≡ y). subst (λ z. contains seen z ≡ true) same s,
          eq_iff cur y,
        ),
      )

  Explored-step :
      (cur : String) (queue seen : List String)
      → mount_of g cur ≡ none
      → Explored (cur ∷ queue) seen
      → Explored (queue ++ children_of g cur) (cur ∷ seen)
  unfolding contains
  Explored-step cur queue seen n e x c = elim (Bool-cases (cur == x)) [
    | inl same ↦
        subst
          (λ z.
            (mount_of g z ≡ none)
            × Within (children_of g z) ((cur ∷ seen) ++ (queue ++ children_of g cur)))
          ((eq_iff cur x).0 same)
          (
            n,
            λ y d. ground (
              arith,
              d,
              contains-append seen (queue ++ children_of g cur) y,
              contains-append queue (children_of g cur) y,
            ),
          )
    | inr other ↦
        let (m, w) = e x (ground (arith, c, other)) in
        (
          m,
          λ y d. ground (
            arith,
            w y d,
            contains-append seen (cur ∷ queue) y,
            contains-append seen (queue ++ children_of g cur) y,
            contains-append queue (children_of g cur) y,
          ),
        )
  ]

  -- A search that finds nothing has seen all that it had to.
  complete :
      (fuel : ℕ) (queue seen : List String)
      → pending g.children seen + length queue < fuel
      → Explored queue seen
      → descend_fuel g fuel queue seen ≡ none
      → (all : List String) × Within seen all × Within queue all × Explored [] all
  unfolding descend_fuel contains
  complete zero queue seen f e h = absurd (omega (arith, f))
  complete (suc fuel) [] seen f e h = (seen, λ x c. c, λ x c. cc c, e)
  complete (suc fuel) (cur ∷ queue) seen f e h = elim (Bool-cases (contains seen cur)) [
    | inl s ↦
        let (all, a, b, c) =
          complete fuel queue seen (omega (arith, f)) (Explored-skip cur queue seen s e)
            (rw s at h) in
        (
          all,
          a,
          λ x d. elim (Bool-cases (cur == x)) [
            | inl same ↦ subst (λ z. contains all z ≡ true) ((eq_iff cur x).0 same) (a cur s)
            | inr other ↦ b x (ground (arith, d, other))
          ],
          c,
        )
    | inr s ↦ elim (Option-cases (mount_of g cur)) [
      | inr (p, m) ↦ cc (rw (s, m) at h)
      | inl m ↦
          let (all, a, b, c) =
            complete fuel (queue ++ children_of g cur) (cur ∷ seen)
              (omega (
                arith,
                f,
                length-append queue (children_of g cur),
                pending_drop g.children seen cur s,
              ))
              (Explored-step cur queue seen m e) (rw (s, m) at h) in
          (
            all,
            λ x d. a x (ground (arith, d)),
            λ x d. elim (Bool-cases (cur == x)) [
              | inl same ↦
                  subst (λ z. contains all z ≡ true) ((eq_iff cur x).0 same)
                    (a cur (ground (arith, eq_refl cur)))
              | inr other ↦
                  b x (ground (arith, d, other, contains-append queue (children_of g cur) x))
            ],
            c,
          )
    ]
  ]

  under-all :
      (top name : String) (all : List String)
      → contains all top ≡ true
      → Explored [] all
      → IsUnder g top name
      → contains all name ≡ true
  unfolding contains
  under-all top name all t e itself = t
  under-all top name all t e (below u c) =
      ground (arith, (e _ (under-all top _ all t e u)).1 name c, contains-append all [] name)

-- A mount point that the search finds is that of the device or of one under it.
pub descend_mount_point-IsUnder :
    (g : BlockDeviceGraph) (top path : String)
    → descend_mount_point g top ≡ some path
    → (name : String) × IsUnder g top name × (mount_of g name ≡ some path)
unfolding descend_mount_point contains
descend_mount_point-IsUnder g top path h =
    sound g top (suc (suc (edges g.children))) (top ∷ []) [] path
      (λ x c. subst (IsUnder g top) ((eq_iff top x).0 (ground (arith, c))) itself) h

-- When the search finds none, neither the device nor any under it is mounted, also when devices
-- are under themselves: it ends within its bound.
pub descend_mount_point-none :
    (g : BlockDeviceGraph) (top name : String)
    → descend_mount_point g top ≡ none
    → IsUnder g top name
    → mount_of g name ≡ none
unfolding descend_mount_point contains
descend_mount_point-none g top name h u =
    let (all, a, b, c) =
      complete g (suc (suc (edges g.children))) (top ∷ []) []
        (omega (arith, pending-edges g.children)) (λ x d. cc d) h in
    (c name (under-all g top name all (b top (ground (arith, eq_refl top))) c u)).0
