-- ===== src/Disks/Listed.antt =====
-- What the list of cli/pkg/cmd/nixos/hardware/disks/nixosHardwareDisks.go has.
use mathlib.Core.Path.{Path}
use becloudless.Prelude.{
  ℕ, zero, ◌+◌, ◌≤◌, ltb, all_in, all_in_intro, String, true, false, ◌||◌, Option, none, some, List,
  [], ◌∷◌, ◌++◌, ◌==◌, ◌≡◌, refl, sym, ap, ◌∙◌, subst, arith, eq_iff, Outcome, ok, err, contains,
  sort_strings, insert_sorted, Bool-cases, Option-cases, Outcome-cases, inl, inr, contains-append,
}
use becloudless.Disks.{children_of}
use becloudless.Disks.Devices.{Answer, BlockDevices, parent_of, related_chain}
use becloudless.Disks.Ended.{all_below, related_chain-ends}
use becloudless.Disks.Listing.{DiskInfo, Disks, find_disk_by_chain, chain_names, filters_of}
use becloudless.Disks.Command.{
  physical_nodes, names_of, without, physical_info, physical_infos, missing_info, missing_infos,
  with_status, list_devices, matched_by,
}

abbrev pub names_in : List DiskInfo → List String
names_in [] = []
names_in (info ∷ infos) = info.name ∷ names_in infos

names_in-append : (l m : List DiskInfo) → names_in (l ++ m) ≡ names_in l ++ names_in m
names_in-append [] m = refl
names_in-append (info ∷ l) m = ap (λ x. info.name ∷ x) (names_in-append l m)

abbrev value_or {ℓ κ} : {E : Type ℓ} {A : Type κ} → A → Outcome E A → A
value_or a (ok b) = b
value_or a (err e) = a

ok_inj {ℓ κ} :
    {E : Type ℓ} {A : Type κ} (a : A) {b c : A} → Path (Outcome E A) (ok b) (ok c) → b ≡ c
ok_inj a h = ap (value_or a) h

contains-insert_sorted :
    (s d : String) (l : List String) → contains (insert_sorted s l) d ≡ (s == d || contains l d)
unfolding contains insert_sorted
contains-insert_sorted s d [] = refl
contains-insert_sorted s d (t ∷ l) = ground (arith, contains-insert_sorted s d l)

contains-sort_strings : (d : String) (l : List String) → contains (sort_strings l) d ≡ contains l d
unfolding contains sort_strings
contains-sort_strings d [] = refl
contains-sort_strings d (s ∷ l) =
    ground (arith, contains-insert_sorted s d (sort_strings l), contains-sort_strings d l)

contains-without :
    (names : List String) (d : String) (l : List String)
    → contains l d ≡ true
    → contains names d ≡ false
    → contains (without names l) d ≡ true
unfolding contains without
contains-without names d [] h n = h
contains-without names d (s ∷ l) h n = ground (
  arith,
  eq_iff s d,
  λ (e : s ≡ d). subst (λ x. contains names x ≡ false) (sym e) n,
  contains-without names d l,
)

module _ (run : Answer) (steps : ℕ) (disks : Disks) (g : BlockDevices) where
  contains-missing_infos :
      (disk_names : List String) (d : String) (names : List String)
      → contains (names_in (missing_infos run steps disks g [] disk_names names)) d
        ≡ contains names d
  unfolding contains missing_infos missing_info
  contains-missing_infos disk_names d [] = refl
  contains-missing_infos disk_names d (name ∷ names) =
      ground (arith, contains-missing_infos disk_names d names)

  -- What was found is named by an info.
  Named : String → List DiskInfo × List String → Type 0
  Named d (infos, matched) = contains matched d ≡ true → contains (names_in infos) d ≡ true

  Named-cons :
      (d disk_name : String) (found : Option String) (r : List DiskInfo × List String)
      → Named d r
      → Named d (
        physical_info run steps disks g disk_name found ∷ r.0,
        matched_by run steps disks g found r.1,
      )
  unfolding Named contains physical_info
  Named-cons d disk_name none r h c = ground (arith, h c)
  Named-cons d disk_name (some name) (infos, matched) h c = elim (Bool-cases (contains matched d)) [
    | inl e ↦ ground (arith, h e)
    | inr e ↦ ground arith
  ]

  nothing-Named : (d : String) → Named d ([], [])
  unfolding Named contains
  nothing-Named d c = cc

  -- A configured disk that was found is the name of a physical one.
  physical_infos-Named :
      (filters : List String × List String) (d : String) (list : List String)
      (r : List DiskInfo × List String)
      → physical_infos run steps disks g [] filters list ≡ ok r
      → Named d r
  unfolding physical_infos
  physical_infos-Named (a, b) d [] r h = subst (Named d) (ok_inj ([], []) h) (nothing-Named d)
  physical_infos-Named (a, b) d (disk_name ∷ list) r h =
      elim (Option-cases (related_chain g.graph steps disk_name)) [
        | inl e ↦ cc (rw e at h)
        | inr (chain, e) ↦ elim (Outcome-cases (physical_infos run steps disks g [] (a, b) list)) [
          | inl (x, f) ↦ cc (rw (e, f) at h)
          | inr (q, f) ↦ subst (Named d) (ok_inj q (rw (e, f) at h)) (
              Named-cons d disk_name (find_disk_by_chain run disks (chain_names chain)) q
                (physical_infos-Named (a, b) d list q f))
        ]
      ]

module _ (run : Answer) (steps : ℕ) (disks : Disks) (g : BlockDevices) where
  found_or_missing :
      (infos : List DiskInfo) (matched : List String) (d : String)
      → Named run steps disks g d (infos, matched)
      → contains (names_of disks) d ≡ true
      → (contains (names_in infos) d
          || contains
              (names_in (
                missing_infos run steps disks g [] []
                  (sort_strings (without matched (names_of disks)))))
              d)
        ≡ true
  unfolding Named
  found_or_missing infos matched d named c =
      let missing = sort_strings (without matched (names_of disks)) in
      elim (Bool-cases (contains matched d)) [
        | inl e ↦ ground (arith, named e)
        | inr e ↦ ground (
          arith,
          contains-missing_infos run steps disks g [] d missing,
          contains-sort_strings d (without matched (names_of disks)),
          contains-without matched d (names_of disks) c e,
        )
      ]

with_status-all : (infos : List DiskInfo) → with_status [] infos ≡ infos
unfolding with_status
with_status-all [] = refl
with_status-all (info ∷ infos) = ap (λ x. info ∷ x) (with_status-all infos)

-- Once the physical disks are listed, so are the configured ones.
list_devices-all :
    (run : Answer) (steps : ℕ) (disks : Disks) (g : BlockDevices) (r : List DiskInfo × List String)
    → physical_infos run steps disks g [] ([], []) (sort_strings (physical_nodes g.graph.by_name))
      ≡ ok r
    → (infos : List DiskInfo) × (list_devices run steps disks [] [] g ≡ ok infos)
      × (all_in (names_in infos) (names_of disks) ≡ true)
unfolding list_devices filters_of
list_devices-all run steps disks g r f =
    let list = sort_strings (physical_nodes g.graph.by_name) in
    let missing = sort_strings (without r.1 (names_of disks)) in
    let all = r.0 ++ missing_infos run steps disks g [] [] missing in
    (
      all,
      rw f (ap ok (with_status-all all)),
      all_in_intro (names_in all) (names_of disks) (λ d c.
          ap (λ x. contains x d)
            (names_in-append r.0 (missing_infos run steps disks g [] [] missing))
          ∙ contains-append (names_in r.0)
              (names_in (missing_infos run steps disks g [] [] missing)) d
          ∙ found_or_missing run steps disks g r.0 r.1 d
              (physical_infos-Named run steps disks g ([], []) d list r f) c),
    )

module _ (run : Answer) (disks : Disks) (g : BlockDevices) (rank : String → ℕ) (top : ℕ)
    (down : (x : String) → all_below rank (rank x) (children_of g.graph x) ≡ true)
    (up : (x : String)
      → (parent_of g.graph x == "" || ltb (rank x) (rank (parent_of g.graph x))) ≡ true)
    (bound : (x : String) → rank x ≤ top) where
  physical_infos-ends :
      (list : List String)
      → (enough : ℕ) × ((steps : ℕ)
          → enough ≤ steps
          → (r : List DiskInfo × List String) × (physical_infos run steps disks g [] ([], []) list
              ≡ ok r))
  unfolding physical_infos
  physical_infos-ends [] = (zero, λ steps h. (([], []), refl))
  physical_infos-ends (disk_name ∷ list) =
      let (a, first) = related_chain-ends g.graph rank top down up bound disk_name in
      let (b, others) = physical_infos-ends list in
      (
        a + b,
        λ steps h.
            let (chain, e) = first steps (omega arith) in
            let (r, f) = others steps (omega arith) in
            let found = find_disk_by_chain run disks (chain_names chain) in
            (
              (
                physical_info run steps disks g disk_name found ∷ r.0,
                matched_by run steps disks g found r.1,
              ),
              rw (e, f) refl,
            ),
      )

-- When the devices have a rank that falls from a device to its children and grows from a device to its
-- parent, as in the forest that lsblk prints, the list succeeds when neither arguments nor a status
-- restrict it: there is a number of steps from which on each number gives a list. That has every
-- configured disk, under a physical one or as a missing one.
pub list_devices-names :
    (run : Answer) (disks : Disks) (g : BlockDevices) (rank : String → ℕ) (top : ℕ)
    → ((x : String) → all_below rank (rank x) (children_of g.graph x) ≡ true)
    → ((x : String)
        → (parent_of g.graph x == "" || ltb (rank x) (rank (parent_of g.graph x))) ≡ true)
    → ((x : String) → rank x ≤ top)
    → (enough : ℕ) × ((steps : ℕ)
        → enough ≤ steps
        → (infos : List DiskInfo) × (list_devices run steps disks [] [] g ≡ ok infos)
          × (all_in (names_in infos) (names_of disks) ≡ true))
list_devices-names run disks g rank top down up bound =
    let list = sort_strings (physical_nodes g.graph.by_name) in
    let (enough, ended) = physical_infos-ends run disks g rank top down up bound list in
    (enough, λ steps h. list_devices-all run steps disks g (ended steps h).0 (ended steps h).1)
