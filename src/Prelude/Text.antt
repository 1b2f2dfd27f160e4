-- ===== src/Prelude/Text.antt =====
-- Texts are compared whole: a decision on `String`, for dictionaries with text keys.
use Prim.Native.String.{String}
use mathlib.Core.Logic.{inl, inr}
use text.Mathlib.Text.{◌==◌}
use text.Mathlib.TextEquality.{eq_iff}
use oncecall.Prelude.Tests.{Bool-cases}

unfoldable pub str_dec : Discrete String
unfolding Bool-cases
str_dec a b = elim (Bool-cases (a == b)) [
  | inl e ↦ yes ((eq_iff a b).0 e)
  | inr e ↦ no (λ p. cc ((eq_iff a b).1 p))
]
