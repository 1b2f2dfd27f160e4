-- ===== src/LuaVm/Tests.antt =====
-- The theorems of lua_vm.go at concrete rows.
use oncecall.Prelude.{ℕ, ◌≡◌, refl, true, none, List, [], ◌∷◌, arith, map, length, ℤ, pos, ok}
use oncecall.LuaVm.{number, table, Any, text, int, bool, bytes, Interp}
use oncecall.LuaVm.Data.{normal, RowsPass}
use oncecall.LuaVm.Scripts.{Script, put, fail, Vm, do_script, echo, do_script-echo}

-- Numbers are integers, and no text is one.
abbrev interp : Interp
interp = record {
  N = ℤ;
  of_int = λ n. n;
  to_int = λ n. n;
  parse = λ s. none;
  raw_length = length;
  to_int-of_int = λ n h. refl;
  raw_length_full = λ l h. refl;
}

abbrev rows : List (List (Any ℤ))
rows = (text "a" ∷ int (pos 7) ∷ []) ∷ (bytes (1 ∷ 255 ∷ []) ∷ bool true ∷ []) ∷ []

rows-RowsPass : RowsPass rows
rows-RowsPass = (
  (tt, λ e. cc, (tt, λ e. cc, tt)),
  (((omega arith, (omega arith, tt)), λ e. cc, (tt, λ e. cc, tt)), tt),
)

abbrev vm : Vm interp ℕ
vm = record { input = []; output = []; cache = [] }

do_script-echo_example :
    do_script interp [] (echo interp (λ e. 0)) rows vm
    ≡ (ok (map (map (normal interp)) rows), record { input = []; output = []; cache = [] })
do_script-echo_example = do_script-echo interp (λ e. 0) [] rows vm rows-RowsPass

-- It puts one row with the number 3, and fails.
abbrev failing : Script interp ℕ
failing = put (table (table (number (pos 3) ∷ []) ∷ [])) (fail 1) (λ e. fail 2)
