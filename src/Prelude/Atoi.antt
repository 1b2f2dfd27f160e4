-- ===== src/Prelude/Atoi.antt =====
-- strconv.Atoi: a sign, then at least one decimal digit, within 64 bits.
use Prim.Native.Nat.{ℕ, ◌+◌, ◌-◌, ◌*◌}
use Prim.Native.Char.{code}
use Prim.Native.String.{String, [], ◌∷◌}
use mathlib.Core.Option.{Option, none, some}
use mathlib.Core.Bool.{◌&&◌}
use oncecall.Prelude.Tests.{leb, ◌==◌, if◌then◌else◌}
use oncecall.Prelude.Int.{ℤ, pos, sub_ℕ}

abbrev digits : String → ℕ → Option ℕ
digits [] acc = some acc
digits (c ∷ cs) acc =
    let rest = digits cs (acc * 10 + (code c - 48)) in
    if leb 48 (code c) && leb (code c) 57 then rest else none

abbrev number : String → Option ℕ
number [] = none
number (c ∷ cs) = digits (c ∷ cs) 0

abbrev positive : Option ℕ → Option ℤ
positive none = none
positive (some n) = if leb n 0x7fffffffffffffff then some (pos n) else none

abbrev negative : Option ℕ → Option ℤ
negative none = none
negative (some n) = if leb n 0x8000000000000000 then some (sub_ℕ 0 n) else none

unfoldable pub atoi : String → Option ℤ
atoi [] = none
atoi (c ∷ cs) =
    if code c == 45
    then negative (number cs)
    else if code c == 43
    then positive (number cs)
    else positive (number (c ∷ cs))
