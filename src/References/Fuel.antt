-- ===== src/References/Fuel.antt =====
-- About the fuel of `resolveOpenAPIRefs` of fetchOpenapi.go and the components in progress.
use becloudless.Prelude.{
  ℕ, zero, suc, ◌≤◌, ◌<◌, String, ◌≡◌, refl, sym, ap, ◌∙◌, subst, true, false, Option, none, some,
  List, [], ◌∷◌, if_ind, contains, lookup, arith, eq_refl, Bool-cases, inl, inr, missing,
  missing_strict, Within-cons,
}
use becloudless.Json.{
  Value, null, bool, num, str, arr, obj, Items, nil, cons, Fields, end, field, get, as_obj, or_end,
}
use becloudless.Json.Laws.{as_obj-eq-some}
use becloudless.References.{
  Memo, lone_ref, ref_name, start, finish, remove, follow_or, resolve_value, resolve_items,
  resolve_fields, resolve_target, follow_name, follow_fuel, resolve_open_api_refs, count_fields,
  keys,
}

remove-fresh : (name : String) (l : List String) → contains l name ≡ false → remove name l ≡ l
unfolding remove contains
remove-fresh name [] h = refl
remove-fresh name (n ∷ l) h = ground (arith, remove-fresh name l)

-- A memo that is given back has the same components in progress.
module _ (follow : String → Memo → Value × Memo)
    (keeps : (name : String) (s : Memo) → (follow name s).1.in_progress ≡ s.in_progress) where
  keeps_or :
      (o : Option String) (r : Value × Memo) (s : Memo)
      → r.1.in_progress ≡ s.in_progress
      → (follow_or follow o r s).1.in_progress ≡ s.in_progress
  keeps_or none r s h = h
  keeps_or (some ref) r s h = keeps (ref_name ref) s

  mutual
    unfolding resolve_value

    keeps_value : (v : Value) (s : Memo) → (resolve_value follow v s).1.in_progress ≡ s.in_progress
    keeps_value null s = refl
    keeps_value (bool b) s = refl
    keeps_value (num n) s = refl
    keeps_value (str t) s = refl
    keeps_value (arr l) s = keeps_items l s
    keeps_value (obj m) s =
        keeps_or (lone_ref m) (obj (resolve_fields follow m s).0, (resolve_fields follow m s).1) s
          (keeps_fields m s)

    keeps_items : (l : Items) (s : Memo) → (resolve_items follow l s).1.in_progress ≡ s.in_progress
    keeps_items nil s = refl
    keeps_items (cons v l) s = keeps_items l (resolve_value follow v s).1 ∙ keeps_value v s

    keeps_fields :
        (m : Fields) (s : Memo) → (resolve_fields follow m s).1.in_progress ≡ s.in_progress
    keeps_fields end s = refl
    keeps_fields (field k v m) s = keeps_fields m (resolve_value follow v s).1 ∙ keeps_value v s

keeps_target :
    (resolve : Value → Memo → Value × Memo) (name : String) (o : Option Fields) (s : Memo)
    → ((v : Value) (s : Memo) → (resolve v s).1.in_progress ≡ s.in_progress)
    → contains s.in_progress name ≡ false
    → (resolve_target resolve name o s).1.in_progress ≡ s.in_progress
unfolding finish remove contains
keeps_target resolve name none s keeps h = refl
keeps_target resolve name (some target) s keeps h =
    ap (remove name) (keeps (obj target) (start name s))
    ∙ rw (eq_refl name) (remove-fresh name s.in_progress h)

keeps_name :
    (resolve : Value → Memo → Value × Memo) (schemas : Fields) (name : String) (s : Memo)
    → ((v : Value) (s : Memo) → (resolve v s).1.in_progress ≡ s.in_progress)
    → (o : Option Fields) → (follow_name resolve schemas name o s).1.in_progress ≡ s.in_progress
keeps_name resolve schemas name s keeps (some r) = refl
keeps_name resolve schemas name s keeps none =
    if_ind (λ (q : Value × Memo). q.1.in_progress ≡ s.in_progress) (contains s.in_progress name)
      (λ _. refl) (λ h. keeps_target resolve name (as_obj (get name schemas)) s keeps h)

keeps_fuel :
    (schemas : Fields) (fuel : ℕ) (name : String) (s : Memo)
    → (follow_fuel schemas fuel name s).1.in_progress ≡ s.in_progress
unfolding follow_fuel
keeps_fuel schemas zero name s = refl
keeps_fuel schemas (suc fuel) name s =
    keeps_name (resolve_value (follow_fuel schemas fuel)) schemas name s
      (keeps_value (follow_fuel schemas fuel) (keeps_fuel schemas fuel)) (lookup name s.resolved)

-- Two ways to follow a reference that agree where few components are left give the same values.
module _ (f g : String → Memo → Value × Memo) (ks : List String) (bound : ℕ)
    (keeps : (name : String) (s : Memo) → (f name s).1.in_progress ≡ s.in_progress)
    (agree : (name : String) (s : Memo)
      → missing s.in_progress ks < bound
      → f name s ≡ g name s) where
  abbrev Small : Memo → Type 0
  Small s = missing s.in_progress ks < bound

  Small-resolve_value : (v : Value) (s : Memo) → Small s → Small (resolve_value f v s).1
  Small-resolve_value v s h = subst (λ l. missing l ks < bound) (sym (keeps_value f keeps v s)) h

  or_congr :
      (o : Option String) (r r' : Value × Memo) (s : Memo)
      → Small s
      → r ≡ r'
      → follow_or f o r s ≡ follow_or g o r' s
  or_congr none r r' s h e = e
  or_congr (some ref) r r' s h e = agree (ref_name ref) s h

  mutual
    unfolding resolve_value

    value_congr : (v : Value) (s : Memo) → Small s → resolve_value f v s ≡ resolve_value g v s
    value_congr null s h = refl
    value_congr (bool b) s h = refl
    value_congr (num n) s h = refl
    value_congr (str t) s h = refl
    value_congr (arr l) s h = ap (λ r. (arr r.0, r.1)) (items_congr l s h)
    value_congr (obj m) s h =
        or_congr (lone_ref m) _ _ s h (ap (λ r. (obj r.0, r.1)) (fields_congr m s h))

    items_congr : (l : Items) (s : Memo) → Small s → resolve_items f l s ≡ resolve_items g l s
    items_congr nil s h = refl
    items_congr (cons v l) s h =
        let r = resolve_value f v s in
        ap (λ q. (cons r.0 q.0, q.1)) (items_congr l r.1 (Small-resolve_value v s h))
        ∙ ap (λ x. (cons x.0 (resolve_items g l x.1).0, (resolve_items g l x.1).1))
            (value_congr v s h)

    fields_congr : (m : Fields) (s : Memo) → Small s → resolve_fields f m s ≡ resolve_fields g m s
    fields_congr end s h = refl
    fields_congr (field k v m) s h =
        let r = resolve_value f v s in
        ap (λ q. (field k r.0 q.0, q.1)) (fields_congr m r.1 (Small-resolve_value v s h))
        ∙ ap (λ x. (field k x.0 (resolve_fields g m x.1).0, (resolve_fields g m x.1).1))
            (value_congr v s h)

keys-get : (m : Fields) (k : String) (v : Value) → get k m ≡ some v → contains (keys m) k ≡ true
unfolding get keys contains
keys-get end k v h = cc h
keys-get (field j w m) k v h = ground (arith, keys-get m k v)

keys-missing : (l : List String) (m : Fields) → missing l (keys m) ≤ count_fields m
unfolding keys count_fields
keys-missing l end = ground arith
keys-missing l (field k v m) = ground (arith, keys-missing l m)

module _ (schemas : Fields) where
  -- A component of the document that is not in progress leaves fewer of them once it is.
  start-missing :
      (name : String) (target : Fields) (s : Memo)
      → as_obj (get name schemas) ≡ some target
      → contains s.in_progress name ≡ false
      → suc (missing (start name s).in_progress (keys schemas))
        ≤ missing s.in_progress (keys schemas)
  unfolding contains
  start-missing name target s e h =
      missing_strict s.in_progress (name ∷ s.in_progress) (keys schemas) name
        (Within-cons name s.in_progress)
        (keys-get schemas name (obj target) (as_obj-eq-some (get name schemas) e)) h
        (ground (arith, eq_refl name))

  target_congr :
      (r r' : Value → Memo → Value × Memo) (bound : ℕ) (name : String) (s : Memo)
      → ((v : Value) (s : Memo) → missing s.in_progress (keys schemas) < bound → r v s ≡ r' v s)
      → missing s.in_progress (keys schemas) < suc bound
      → contains s.in_progress name ≡ false
      → (o : Option Fields) → as_obj (get name schemas) ≡ o
      → resolve_target r name o s ≡ resolve_target r' name o s
  target_congr r r' bound name s agree small fresh none e = refl
  target_congr r r' bound name s agree small fresh (some target) e =
      ap (λ q. (obj (or_end (as_obj (some q.0))), finish name (or_end (as_obj (some q.0))) q.1))
        (agree (obj target) (start name s)
          (omega (arith, small, start-missing name target s e fresh)))

  name_congr :
      (r r' : Value → Memo → Value × Memo) (bound : ℕ) (name : String) (s : Memo)
      → ((v : Value) (s : Memo) → missing s.in_progress (keys schemas) < bound → r v s ≡ r' v s)
      → missing s.in_progress (keys schemas) < suc bound
      → (o : Option Fields) → follow_name r schemas name o s ≡ follow_name r' schemas name o s
  name_congr r r' bound name s agree small (some m) = refl
  name_congr r r' bound name s agree small none = elim (Bool-cases (contains s.in_progress name)) [
    | inl e ↦ rw e refl
    | inr e ↦ rw e (target_congr r r' bound name s agree small e (as_obj (get name schemas)) refl)
  ]

  -- Any two amounts of fuel that exceed the components left give the same.
  follow_fuel-eq :
      (fuel more : ℕ) (name : String) (s : Memo)
      → missing s.in_progress (keys schemas) < fuel
      → fuel ≤ more
      → follow_fuel schemas more name s ≡ follow_fuel schemas fuel name s
  unfolding follow_fuel
  follow_fuel-eq zero more name s h l = absurd (omega (arith, h))
  follow_fuel-eq (suc fuel) zero name s h l = absurd (omega (arith, l))
  follow_fuel-eq (suc fuel) (suc more) name s h l =
      let f = follow_fuel schemas more in
      let g = follow_fuel schemas fuel in
      name_congr (resolve_value f) (resolve_value g) fuel name s
        (value_congr f g (keys schemas) fuel (keeps_fuel schemas more)
          (λ n q small. follow_fuel-eq fuel more n q small (omega (arith, l))))
        h (lookup name s.resolved)

-- Resolving the references of a value ends, in any memo: one unit of fuel more than the document has
-- components is enough, and more fuel gives the same value and the same memo.
pub resolve_open_api_refs-fuel :
    (schemas : Fields) (fuel : ℕ) (node : Value) (s : Memo)
    → suc (count_fields schemas) ≤ fuel
    → resolve_value (follow_fuel schemas fuel) node s ≡ resolve_open_api_refs schemas node s
unfolding resolve_open_api_refs
resolve_open_api_refs-fuel schemas fuel node s l =
    let f = follow_fuel schemas fuel in
    let g = follow_fuel schemas (suc (count_fields schemas)) in
    value_congr f g (keys schemas) (suc (count_fields schemas)) (keeps_fuel schemas fuel)
      (λ n q small. follow_fuel-eq schemas (suc (count_fields schemas)) fuel n q small l) node s
      (omega (arith, keys-missing s.in_progress schemas))
