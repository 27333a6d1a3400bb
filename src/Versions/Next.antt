-- ===== src/Versions/Next.antt =====
-- The number that the loop of cli/pkg/version/version.go gives.
use becloudless.Prelude.{
  ℕ, suc, ◌≤◌, String, Bool, true, false, ◌&&◌, ◌||◌, Option, none, some, List, [], ◌∷◌, ◌≡◌, refl,
  ap, ◌∙◌, arith, if◌then◌else◌, ltb, leb, eqb, ◌-◌,
}
use becloudless.Versions.{ℤ, pos, negsuc, half, bugfix_of, raised, next_bugfix}

abbrev pub below : ℕ → Option ℤ → Bool
below k none = true
below k (some (pos n)) = ltb n k
below k (some (negsuc n)) = true

-- Every number of a tag is below `k`.
unfoldable pub all_below : String → ℕ → List String → Bool
all_below prefix k [] = true
all_below prefix k (tag ∷ tags) = below k (bugfix_of prefix tag) && all_below prefix k tags

abbrev pub is_after : ℕ → Option ℤ → Bool
is_after k none = false
is_after k (some (pos n)) = eqb (suc n) k
is_after k (some (negsuc n)) = false

-- A tag has the number before `k`.
unfoldable pub is_next_of : String → ℕ → List String → Bool
is_next_of prefix k [] = false
is_next_of prefix k (tag ∷ tags) = is_after k (bugfix_of prefix tag) || is_next_of prefix k tags

-- what the loop does to a number that is not negative
abbrev step : ℕ → Option ℤ → ℕ
step next none = next
step next (some (negsuc n)) = next
step next (some (pos n)) = if leb next n then suc n else next

raised-pos :
    (next : ℕ) (n : Option ℤ) → below (half - 1) n ≡ true → raised (pos next) n ≡ pos (step next n)
raised-pos next none h = refl
raised-pos next (some (negsuc n)) h = refl
raised-pos next (some (pos n)) h = ground arith

step-le : (next : ℕ) (n : Option ℤ) → next ≤ step next n
step-le next none = ground arith
step-le next (some (negsuc n)) = ground arith
step-le next (some (pos n)) = ground arith

step-below : (next k : ℕ) (n : Option ℤ) → step next n ≤ k → below k n ≡ true
step-below next k none h = refl
step-below next k (some (negsuc n)) h = refl
step-below next k (some (pos n)) h = ground arith

step-is_after :
    (next k : ℕ) (n : Option ℤ) (rest : Bool)
    → (eqb k (step next n) || rest) ≡ true
    → (eqb k next || (is_after k n || rest)) ≡ true
step-is_after next k none rest h = ground arith
step-is_after next k (some (negsuc n)) rest h = ground arith
step-is_after next k (some (pos n)) rest h = ground arith

-- The numbers below the largest one.
loop :
    (prefix : String) (tags : List String) (next : ℕ)
    → all_below prefix (half - 1) tags ≡ true
    → (k : ℕ) × (next_bugfix prefix tags (pos next) ≡ pos k)
      × (next ≤ k)
      × (all_below prefix k tags ≡ true)
      × ((eqb k next || is_next_of prefix k tags) ≡ true)
unfolding next_bugfix all_below is_next_of
loop prefix [] next h = (next, refl, ground arith, refl, ground arith)
loop prefix (tag ∷ tags) next h =
    let (k, e, le, below_k, number) =
      loop prefix tags (step next (bugfix_of prefix tag)) (ground arith) in
    (
      k,
      ap (next_bugfix prefix tags) (raised-pos next (bugfix_of prefix tag) (ground arith)) ∙ e,
      omega (arith, step-le next (bugfix_of prefix tag)),
      ground (arith, step-below next k (bugfix_of prefix tag) le),
      step-is_after next k (bugfix_of prefix tag) (is_next_of prefix k tags) number,
    )

-- When no tag has the largest number of an `int`, the new number is not negative, above the number of
-- every tag with the prefix, and the least such: it is 0, or one more than the number of a tag.
pub next_bugfix-above :
    (prefix : String) (tags : List String)
    → all_below prefix (half - 1) tags ≡ true
    → (k : ℕ) × (next_bugfix prefix tags (pos 0) ≡ pos k)
      × (all_below prefix k tags ≡ true)
      × ((eqb k 0 || is_next_of prefix k tags) ≡ true)
next_bugfix-above prefix tags h =
    let (k, e, le, below_k, number) = loop prefix tags 0 h in (k, e, below_k, number)
