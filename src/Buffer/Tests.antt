-- ===== src/Buffer/Tests.antt =====
-- Runs of the buffer of plan_buffer.go, and its theorems at concrete inputs.
use mathlib.Core.List.{Permᴰ}
use oncecall.Prelude.{
  ℕ, ◌+◌, ◌≤◌, ◌<◌, ◌≡◌, refl, inl, ◌⊎◌, Option, none, some, List, [], ◌∷◌, arith, length, negsuc,
  pos, pos_part, String, str_dec, lookup, put, ok, err, sub64,
}
use oncecall.Buffer.{
  ParamValue, ParamBuffer, Columns, invalid_index, set_cell, set_cols_data, set_table, get,
  get_cols_data, calculate_row_size, validate_index, columns, delete_idle_locked, delete_idle_table,
  delete_idle_columns, is_idle, new_plan_param_buffer, write_cell, column_of,
}
use oncecall.Buffer.Idle.{delete_idle_locked_lem, survives}
use oncecall.Buffer.Invariant.{IsValid}
use oncecall.Buffer.Runs.{Write, cell, cols_data, whole_table, run, run-IsValid}
use oncecall.Buffer.Write.{column, column-set_cell_ne}
use oncecall.Buffer.Tables.{trimmed, get_cols_data-set_cols_data}
use oncecall.Buffer.Guards.{index_guard}
use oncecall.Buffer.Size.{max_row_size, max_col_size, max_row_size_locked, max_col_size_locked}
use oncecall.Buffer.Size.Rows.{max_row_size_lem}
use oncecall.Buffer.Size.Order.{sizes-perm}

abbrev empty : ParamBuffer ℕ
empty = record { table = [] ∷ [] ∷ []; row_cap = 1; row_idle_seq = pos 5 }

abbrev name_value : ParamValue ℕ
name_value = record { row = none ∷ some 7 ∷ none ∷ []; row_size = 2; seq = pos 10 }

-- `empty` after a write of row 1 of "name" at seq 10.
abbrev named : ParamBuffer ℕ
named = record { table = (("name", name_value) ∷ []) ∷ [] ∷ []; row_cap = 1; row_idle_seq = pos 5 }

abbrev three : List (Option ℕ)
three = none ∷ some 7 ∷ none ∷ []

named-IsValid : IsValid named
unfolding lookup calculate_row_size
named-IsValid = record { tables = ((refl, refl, tt), (tt, tt)) }

abbrev older_value : ParamValue ℕ
older_value = record { row = some 9 ∷ some 7 ∷ none ∷ []; row_size = 2; seq = pos 12 }

abbrev renamed : ParamBuffer ℕ
renamed = record {
  table = (("name", older_value) ∷ []) ∷ [] ∷ [];
  row_cap = 1;
  row_idle_seq = pos 5;
}

named-set_cell : set_cell named (pos 0) "name" (pos 0) (some 9) (pos 12) ≡ ok renamed
unfolding set_cell validate_index delete_idle_locked delete_idle_table delete_idle_columns is_idle
    sub64 lookup put write_cell calculate_row_size str_dec
named-set_cell = refl

column-set_cell_ne_example :
    column renamed (pos 1) "name" ≡ survives named (pos 12) (column named (pos 1) "name")
column-set_cell_ne_example =
    column-set_cell_ne named renamed (pos 0) "name" (pos 0) (some 9) (pos 12) (pos 1) "name"
      named-IsValid named-set_cell (omega arith) (inl (λ e. omega arith))

delete_idle_locked_lem_example :
    ((lookup str_dec "name" (columns (delete_idle_locked named (pos 16)) (pos 0)) ≡ some name_value)
      × ((pos_part named.row_idle_seq ≡ 0) ⊎ (16 ≤ 10 + pos_part named.row_idle_seq)))
    ⊎ ((lookup str_dec "name" (columns (delete_idle_locked named (pos 16)) (pos 0)) ≡ none)
        × (0 < pos_part named.row_idle_seq)
        × (10 + pos_part named.row_idle_seq < 16))
unfolding lookup str_dec
delete_idle_locked_lem_example =
    delete_idle_locked_lem named 16 10 (pos 0) "name" name_value (refl, tt) (omega arith) refl refl

abbrev calls : List (Write ℕ)
calls =
    cell (pos 0) "name" (pos 1) (some 7) (pos 10)
    ∷ cols_data (pos 1) "age" (some 3 ∷ []) (pos 11)
    ∷ whole_table (negsuc 0) ("age" ∷ []) [] (pos 12)
    ∷ []

run-IsValid_example : IsValid (run (new_plan_param_buffer (pos 1) (pos 4) (pos 1) (pos 5)) calls)
run-IsValid_example = run-IsValid (pos 1) (pos 4) (pos 1) (pos 5) calls

abbrev aged : ParamBuffer ℕ
aged = record {
  table =
      []
      ∷ (("age", record { row = some 3 ∷ none ∷ none ∷ []; row_size = 1; seq = pos 10 }) ∷ [])
      ∷ [];
  row_cap = 1;
  row_idle_seq = pos 5;
}

get_cols_data-set_cols_data_example :
    get_cols_data aged (pos 1) "age" (pos 9) ≡ ok (some (trimmed (some 3 ∷ none ∷ [])))
unfolding set_cols_data validate_index delete_idle_locked delete_idle_table delete_idle_columns put
    column_of calculate_row_size
get_cols_data-set_cols_data_example =
    get_cols_data-set_cols_data empty aged (pos 1) "age" (some 3 ∷ none ∷ []) (pos 10) (pos 9) refl

abbrev grid : List (List (Option ℕ))
grid = (some 1 ∷ some 2 ∷ []) ∷ (some 4 ∷ []) ∷ []

abbrev filled : ParamBuffer ℕ
filled = record {
  table =
      (("n1", record { row = some 1 ∷ some 4 ∷ none ∷ []; row_size = 2; seq = pos 10 })
        ∷ ("n2", record { row = some 2 ∷ none ∷ none ∷ []; row_size = 1; seq = pos 10 })
        ∷ [])
      ∷ []
      ∷ [];
  row_cap = 1;
  row_idle_seq = pos 5;
}

index_guard_example :
    (set_cell named (pos 2) "name" (pos 0) none (pos 9) ≡ err (invalid_index (pos 2)))
    × (set_cols_data named (pos 2) "name" three (pos 9) ≡ err (invalid_index (pos 2)))
    × (set_table named (pos 2) ("n1" ∷ []) grid (pos 9) ≡ err (invalid_index (pos 2)))
    × (get named (pos 2) "name" (pos 0) (pos 9) ≡ err (invalid_index (pos 2)))
    × (get_cols_data named (pos 2) "name" (pos 9) ≡ err (invalid_index (pos 2)))
    × (max_col_size named (pos 2) (pos 9) ≡ err (invalid_index (pos 2)))
    × (max_row_size named (pos 2) (pos 9) ≡ err (invalid_index (pos 2)))
index_guard_example =
    index_guard named (pos 2) "name" (pos 0) none three ("n1" ∷ []) grid (pos 9) (λ h. omega arith)

max_row_size_lem_example :
    ((col : String) (cells : List (Option ℕ))
      → get_cols_data filled (pos 0) col (pos 9) ≡ ok (some cells)
      → length cells ≤ 2)
    × ((◌≡◌ {A = ℕ} 2 0)
        ⊎ ((col : String) × (cells : List (Option ℕ)) × (get_cols_data filled (pos 0) col (pos 9)
              ≡ ok (some cells))
            × (length cells ≡ 2)))
unfolding max_row_size max_row_size_locked validate_index lookup str_dec calculate_row_size
max_row_size_lem_example =
    max_row_size_lem filled (pos 0) (pos 9) 2
      (record { tables = ((refl, refl, (refl, refl, tt)), (tt, tt)) }) refl

abbrev swapped : Columns ℕ
swapped =
    ("n2", record { row = some 2 ∷ none ∷ none ∷ []; row_size = 1; seq = pos 10 })
    ∷ ("n1", record { row = some 1 ∷ some 4 ∷ none ∷ []; row_size = 2; seq = pos 10 })
    ∷ []

sizes-perm_example :
    (max_col_size_locked (pos 9) (columns filled (pos 0)) ≡ max_col_size_locked (pos 9) swapped)
    × (max_row_size_locked (pos 9) (columns filled (pos 0)) ≡ max_row_size_locked (pos 9) swapped)
sizes-perm_example = sizes-perm (pos 9) (columns filled (pos 0)) swapped (Permᴰ.swap refl refl)

abbrev two_plans : ParamBuffer ℕ
two_plans = record filled { table = columns filled (pos 0) ∷ columns aged (pos 1) ∷ [] }
