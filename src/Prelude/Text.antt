-- ===== src/Prelude/Text.antt =====
-- Texts: concatenation under an operator of its own, and equality as a decision.
use Prim.Native.String
use Prim.Native.String.{String}
use mathlib.Core.Path.{◌≡◌}
use mathlib.Core.Logic.{◌≢◌}
use mathlib.Core.Bool.{true, false}
use native.Mathlib.Omega.{arith}
use text.Mathlib.Text.{◌==◌}
use text.Mathlib.TextEquality.{eq_iff}

infixr 66 ◌&◌
abbrev pub ◌&◌ : String → String → String
s & t = String.◌++◌ s t

pub eq_comm : (s t : String) → (s == t) ≡ (t == s)
eq_comm s t = ground (arith, eq_iff s t, eq_iff t s)

pub eq_false_of_ne : (s t : String) → s ≢ t → (s == t) ≡ false
eq_false_of_ne s t h = ground (arith, eq_iff s t)

pub eq_true_of_eq : (s t : String) → s ≡ t → (s == t) ≡ true
eq_true_of_eq s t h = (eq_iff s t).1 h

pub ne_of_eq_false : (s t : String) → (s == t) ≡ false → s ≢ t
ne_of_eq_false s t h = ground (arith, eq_iff s t)
