-- ===== src/References/Resolved.antt =====
-- About the values that `resolveOpenAPIRefs` of fetchOpenapi.go gives.
use becloudless.Prelude.{
  ℕ, zero, suc, String, ◌≡◌, refl, subst, Bool, true, false, not, ◌&&◌, Option, none, some, [],
  ◌==◌, if_ind, contains, lookup, lookup-insert, arith, Bool-cases, inl, inr,
}
use becloudless.Json.{
  Value, null, bool, num, str, arr, obj, Items, nil, cons, Fields, end, field, get, as_obj, as_str,
  or_end,
}
use becloudless.References.{
  Memo, lone_ref, ref_name, start, finish, follow_or, resolve_value, resolve_items, resolve_fields,
  resolve_target, follow_name, follow_fuel, resolve_open_api_refs, count_fields, is_end,
}

abbrev pub is_some_text : Option String → Bool
is_some_text none = false
is_some_text (some t) = true

-- No object in a value is a reference and nothing else.
unfoldable mutual
  pub has_no_refs : Value → Bool
  has_no_refs (arr l) = items_no_refs l
  has_no_refs (obj m) = not (is_some_text (lone_ref m)) && fields_no_refs m
  has_no_refs _ = true

  pub items_no_refs : Items → Bool
  items_no_refs nil = true
  items_no_refs (cons v l) = has_no_refs v && items_no_refs l

  pub fields_no_refs : Fields → Bool
  fields_no_refs end = true
  fields_no_refs (field k v m) = has_no_refs v && fields_no_refs m

-- What is kept has no references.
abbrev pub IsClean : Memo → Type 0
IsClean s =
    (name : String) (m : Fields) → lookup name s.resolved ≡ some m → has_no_refs (obj m) ≡ true

abbrev Clean : Value × Memo → Type 0
Clean r = (has_no_refs r.0 ≡ true) × IsClean r.1

module _ (follow : String → Memo → Value × Memo)
    (good : (name : String) (s : Memo) → IsClean s → Clean (follow name s))
    (no_text : (name : String) (s : Memo) → as_str (some (follow name s).0) ≡ none) where
  text-resolve_value :
      (v : Value) (s : Memo) → as_str (some (resolve_value follow v s).0) ≡ as_str (some v)
  unfolding resolve_value
  text-resolve_value null s = refl
  text-resolve_value (bool b) s = refl
  text-resolve_value (num n) s = refl
  text-resolve_value (str t) s = refl
  text-resolve_value (arr l) s = refl
  text-resolve_value (obj m) s = go (lone_ref m)
    where
      go :
          (o : Option String)
          → as_str (
              some
                (follow_or follow o
                  (obj (resolve_fields follow m s).0, (resolve_fields follow m s).1)
                  s).0)
            ≡ none
      go none = refl
      go (some ref) = no_text (ref_name ref) s

  is_end-resolve_fields : (m : Fields) (s : Memo) → is_end (resolve_fields follow m s).0 ≡ is_end m
  unfolding resolve_value
  is_end-resolve_fields end s = refl
  is_end-resolve_fields (field k v m) s = refl

  lone_ref-resolve_fields :
      (m : Fields) (s : Memo) → lone_ref (resolve_fields follow m s).0 ≡ lone_ref m
  unfolding resolve_value
  lone_ref-resolve_fields end s = refl
  lone_ref-resolve_fields (field k v m) s =
      rw (is_end-resolve_fields m (resolve_value follow v s).1, text-resolve_value v s) refl

  resolve_obj :
      (m : Fields) (s : Memo)
      → IsClean s
      → (o : Option String) → lone_ref m ≡ o
      → (fields_no_refs (resolve_fields follow m s).0 ≡ true)
        × IsClean (resolve_fields follow m s).1
      → Clean
          (follow_or follow o (obj (resolve_fields follow m s).0, (resolve_fields follow m s).1) s)
  unfolding has_no_refs
  resolve_obj m s c none e (f, c') = (rw (lone_ref-resolve_fields m s, e, f) refl, c')
  resolve_obj m s c (some ref) e h = good (ref_name ref) s c

  mutual
    unfolding resolve_value has_no_refs

    resolve_value-Clean : (v : Value) (s : Memo) → IsClean s → Clean (resolve_value follow v s)
    resolve_value-Clean null s c = (refl, c)
    resolve_value-Clean (bool b) s c = (refl, c)
    resolve_value-Clean (num n) s c = (refl, c)
    resolve_value-Clean (str t) s c = (refl, c)
    resolve_value-Clean (arr l) s c = resolve_items-Clean l s c
    resolve_value-Clean (obj m) s c =
        resolve_obj m s c (lone_ref m) refl (resolve_fields-Clean m s c)

    resolve_items-Clean :
        (l : Items) (s : Memo)
        → IsClean s
        → (items_no_refs (resolve_items follow l s).0 ≡ true) × IsClean (resolve_items follow l s).1
    resolve_items-Clean nil s c = (refl, c)
    resolve_items-Clean (cons v l) s c =
        let (a, c₁) = resolve_value-Clean v s c in
        let (b, c₂) = resolve_items-Clean l (resolve_value follow v s).1 c₁ in
        (ground (arith, a, b), c₂)

    resolve_fields-Clean :
        (m : Fields) (s : Memo)
        → IsClean s
        → (fields_no_refs (resolve_fields follow m s).0 ≡ true)
          × IsClean (resolve_fields follow m s).1
    resolve_fields-Clean end s c = (refl, c)
    resolve_fields-Clean (field k v m) s c =
        let (a, c₁) = resolve_value-Clean v s c in
        let (b, c₂) = resolve_fields-Clean m (resolve_value follow v s).1 c₁ in
        (ground (arith, a, b), c₂)

finish-IsClean :
    (name : String) (out : Fields) (s : Memo)
    → has_no_refs (obj out) ≡ true
    → IsClean s
    → IsClean (finish name out s)
unfolding finish
finish-IsClean name out s h c n m e = elim (Bool-cases (name == n)) [
  | inl same ↦
      let e' : out ≡ m = cc (rw same at (rw (lookup-insert n name out s.resolved) at e)) in
      subst (λ x. has_no_refs (obj x) ≡ true) e' h
  | inr other ↦ c n m (rw other at (rw (lookup-insert n name out s.resolved) at e))
]

or_end-clean :
    (v : Value) → has_no_refs v ≡ true → has_no_refs (obj (or_end (as_obj (some v)))) ≡ true
unfolding has_no_refs
or_end-clean (obj m) h = h
or_end-clean _ h = refl

resolve_target-Clean :
    (resolve : Value → Memo → Value × Memo) (name : String) (o : Option Fields) (s : Memo)
    → ((v : Value) (s : Memo) → IsClean s → Clean (resolve v s))
    → IsClean s
    → Clean (resolve_target resolve name o s)
unfolding has_no_refs
resolve_target-Clean resolve name none s good c = (refl, c)
resolve_target-Clean resolve name (some target) s good c =
    let r = resolve (obj target) (start name s) in
    let (h, c') = good (obj target) (start name s) c in
    let h' = or_end-clean r.0 h in (h', finish-IsClean name (or_end (as_obj (some r.0))) r.1 h' c')

follow_name-Clean :
    (resolve : Value → Memo → Value × Memo) (schemas : Fields) (name : String) (s : Memo)
    → ((v : Value) (s : Memo) → IsClean s → Clean (resolve v s))
    → IsClean s
    → (o : Option Fields) → lookup name s.resolved ≡ o
    → Clean (follow_name resolve schemas name o s)
unfolding has_no_refs
follow_name-Clean resolve schemas name s good c (some r) e = (c name r e, c)
follow_name-Clean resolve schemas name s good c none e =
    if_ind Clean (contains s.in_progress name) (λ _. (refl, c))
      (λ _. resolve_target-Clean resolve name (as_obj (get name schemas)) s good c)

follow_name-text :
    (resolve : Value → Memo → Value × Memo) (schemas : Fields) (name : String) (s : Memo)
    (o : Option Fields)
    → as_str (some (follow_name resolve schemas name o s).0) ≡ none
follow_name-text resolve schemas name s (some r) = refl
follow_name-text resolve schemas name s none =
    if_ind (λ (q : Value × Memo). as_str (some q.0) ≡ none) (contains s.in_progress name)
      (λ _. refl) (λ _. target (as_obj (get name schemas)))
  where
    target : (o : Option Fields) → as_str (some (resolve_target resolve name o s).0) ≡ none
    target none = refl
    target (some t) = refl

follow_fuel-text :
    (schemas : Fields) (fuel : ℕ) (name : String) (s : Memo)
    → as_str (some (follow_fuel schemas fuel name s).0) ≡ none
unfolding follow_fuel
follow_fuel-text schemas zero name s = refl
follow_fuel-text schemas (suc fuel) name s =
    follow_name-text (resolve_value (follow_fuel schemas fuel)) schemas name s
      (lookup name s.resolved)

follow_fuel-Clean :
    (schemas : Fields) (fuel : ℕ) (name : String) (s : Memo)
    → IsClean s
    → Clean (follow_fuel schemas fuel name s)
unfolding follow_fuel has_no_refs
follow_fuel-Clean schemas zero name s c = (refl, c)
follow_fuel-Clean schemas (suc fuel) name s c =
    follow_name-Clean (resolve_value (follow_fuel schemas fuel)) schemas name s
      (resolve_value-Clean (follow_fuel schemas fuel) (follow_fuel-Clean schemas fuel)
        (follow_fuel-text schemas fuel))
      c (lookup name s.resolved) refl

-- After the references of a value are resolved with an empty memo, no object in it is a reference
-- and nothing else, whatever the components of the document are, cycles included.
pub resolve_open_api_refs-no_refs :
    (schemas : Fields) (node : Value)
    → has_no_refs
        (resolve_open_api_refs schemas node (record { resolved = []; in_progress = [] })).0
      ≡ true
unfolding resolve_open_api_refs lookup
resolve_open_api_refs-no_refs schemas node =
    let fuel = suc (count_fields schemas) in
    let empty : Memo = record { resolved = []; in_progress = [] } in
    (resolve_value-Clean (follow_fuel schemas fuel) (follow_fuel-Clean schemas fuel)
      (follow_fuel-text schemas fuel) node empty (λ n m e. cc e)).0
