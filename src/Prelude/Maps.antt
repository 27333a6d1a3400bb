-- ===== src/Prelude/Maps.antt =====
-- Go maps with text keys and values of one type, as association lists: the first entry of a key
-- counts, and a write replaces it in place.
use mathlib.Core.Path.{◌≡◌, refl}
use mathlib.Core.Option.{Option, none, some}
use mathlib.Core.List.{List, [], ◌∷◌}
use text.Mathlib.TextEquality.{eq_iff}
use native.Mathlib.Omega.{arith}
use becloudless.Prelude.Tests.{if◌then◌else◌}
use text.Mathlib.Text.{◌==◌}
use Prim.Native.String.{String}

abbrev pub Dict {ℓ} : Type ℓ → Type ℓ
Dict V = List (String × V)

module _ {ℓ} {V : Type ℓ} where
  -- `v, ok := m[k]`
  unfoldable pub lookup : String → Dict V → Option V
  lookup key [] = none
  lookup key ((k, v) ∷ rest) = if k == key then some v else lookup key rest

  -- `m[k] = v`
  unfoldable pub insert : String → V → Dict V → Dict V
  insert key v [] = (key, v) ∷ []
  insert key v ((k, old) ∷ rest) = if k == key then (k, v) ∷ rest else (k, old) ∷ insert key v rest

  -- `maps.Copy(dst, src)`; no key of a map comes twice, and the order of its entries is free
  unfoldable pub copy : Dict V → Dict V → Dict V
  unfolding insert
  copy dst [] = dst
  copy dst ((k, v) ∷ src) = insert k v (copy dst src)

  -- the value of `src` if there is one
  abbrev pub or_else : Option V → Option V → Option V
  or_else none d = d
  or_else (some v) d = some v

  pub lookup-insert :
      (asked key : String) (v : V) (dict : Dict V)
      → lookup asked (insert key v dict) ≡ (if key == asked then some v else lookup asked dict)
  unfolding lookup insert
  lookup-insert asked key v [] = refl
  lookup-insert asked key v ((k, old) ∷ rest) =
      ground (arith, eq_iff key asked, eq_iff k key, eq_iff k asked, lookup-insert asked key v rest)

  pub lookup-copy :
      (j : String) (dst src : Dict V)
      → lookup j (copy dst src) ≡ or_else (lookup j src) (lookup j dst)
  unfolding lookup copy
  lookup-copy j dst [] = refl
  lookup-copy j dst ((k, v) ∷ src) =
      ground (arith, lookup-insert j k v (copy dst src), lookup-copy j dst src)
