-- ===== src/Prelude/Members.antt =====
-- Which texts a list has.
use Prim.Native.Nat.{ℕ, zero, suc, ◌≤◌}
use Prim.Native.String.{String}
use mathlib.Core.Path.{◌≡◌, refl, subst, sym}
use mathlib.Core.Bool.{Bool, true, false, ◌&&◌, ◌||◌}
use mathlib.Core.List.{List, [], ◌∷◌, ◌++◌}
use native.Mathlib.Omega.{arith}
use text.Mathlib.Text.{◌==◌}
use text.Mathlib.TextEquality.{eq_iff}
use text.Mathlib.TextPositions.{eq_refl}
use becloudless.Prelude.Tests.{if◌then◌else◌}
use becloudless.Prelude.Strings.{contains}

-- Whether `list` has every text of the other one.
abbrev pub all_in : List String → List String → Bool
all_in list [] = true
all_in list (s ∷ texts) = contains list s && all_in list texts

pub contains-cons : (s d : String) (l : List String) → contains (s ∷ l) d ≡ (s == d || contains l d)
unfolding contains
contains-cons s d l = refl

pub contains-append :
    (l m : List String) (d : String) → contains (l ++ m) d ≡ (contains l d || contains m d)
unfolding contains
contains-append [] m d = refl
contains-append (s ∷ l) m d = ground (arith, contains-append l m d)

-- What has the one has the other.
abbrev pub Within : List String → List String → Type 0
Within l m = (d : String) → contains l d ≡ true → contains m d ≡ true

pub all_in_intro : (l m : List String) → Within m l → all_in l m ≡ true
unfolding contains
all_in_intro l [] h = refl
all_in_intro l (s ∷ m) h =
    ground (arith, h s (ground (arith, eq_refl s)), all_in_intro l m (λ d c. h d (ground arith)))

pub all_in_elim : (l m : List String) → all_in l m ≡ true → Within m l
unfolding contains
all_in_elim l [] h d c = ground arith
all_in_elim l (s ∷ m) h d c = ground (
  arith,
  eq_iff s d,
  all_in_elim l m (ground arith) d,
  λ (e : s ≡ d). subst (λ x. contains l x ≡ true) e (ground arith),
)

pub Within-cons : (s : String) (l : List String) → Within l (s ∷ l)
unfolding contains
Within-cons s l d c = ground arith

-- How many texts of a list another one misses.
abbrev pub missing : List String → List String → ℕ
missing l [] = zero
missing l (s ∷ m) = if contains l s then missing l m else suc (missing l m)

pub missing_mono : (l l' m : List String) → Within l l' → missing l' m ≤ missing l m
missing_mono l l' [] w = ground arith
missing_mono l l' (s ∷ m) w = ground (arith, w s, missing_mono l l' m w)

pub missing_strict :
    (l l' m : List String) (x : String)
    → Within l l'
    → contains m x ≡ true
    → contains l x ≡ false
    → contains l' x ≡ true
    → suc (missing l' m) ≤ missing l m
unfolding contains
missing_strict l l' [] x w i a b = ground arith
missing_strict l l' (s ∷ m) x w i a b = ground (
  arith,
  w s,
  eq_iff s x,
  missing_mono l l' m w,
  λ (j : contains m x ≡ true). missing_strict l l' m x w j a b,
  λ (e : s ≡ x). subst (λ y. contains l y ≡ false) (sym e) a,
  λ (e : s ≡ x). subst (λ y. contains l' y ≡ true) (sym e) b,
)

-- The place of a text in a list does not matter.
pub contains-shift :
    (l m : List String) (x d : String)
    → contains (x ∷ l ++ m) d ≡ true
    → contains (l ++ x ∷ m) d ≡ true
unfolding contains
contains-shift l m x d c = ground (arith, contains-append l m d, contains-append l (x ∷ m) d, c)
