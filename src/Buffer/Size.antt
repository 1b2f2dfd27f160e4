-- ===== src/Buffer/Size.antt =====
-- cmd/oncecall_sync/plan/new/plan_buffer.go: the sizes that a reader at `seq` sees.
pub mod Rows
pub mod Cols
pub mod Order
pub mod Ranges
use oncecall.Prelude.{
  ℕ, ◌+◌, ◌&&◌, Option, none, some, List, [], ◌∷◌, ltb, if◌then◌else◌, ℤ, ℤ-discrete, ltb_ℤ, Dict,
  lookup, put, Result, ok, ◌>>◌,
}
use oncecall.Buffer.{ParamValue, ParamBuffer, Columns, Error, leb_ℤ, validate_index, columns}

abbrev pub count_or_zero : Option ℕ → ℕ
count_or_zero none = 0
count_or_zero (some n) = n

-- if b > a { a = b }
abbrev pub upto : ℕ → ℕ → ℕ
upto a b = if ltb a b then b else a

module _ {A : Type 0} where
  -- One round of the loop of maxColSizeLocked, on `counts` and `max`.
  pub count_column : ℤ → ParamValue A → Dict ℤ ℕ × ℕ → Dict ℤ ℕ × ℕ
  count_column seq v (counts, most) =
      let n = count_or_zero (lookup ℤ-discrete v.seq counts) + 1 in
      if leb_ℤ v.seq seq
      then (counts, most)
      else (put ℤ-discrete v.seq n counts, if ltb most n then n else most)

  pub count_columns : ℤ → Columns A → Dict ℤ ℕ × ℕ → Dict ℤ ℕ × ℕ
  count_columns seq [] st = st
  count_columns seq ((col, v) ∷ m) st = count_columns seq m (count_column seq v st)

  pub max_col_size_locked : ℤ → Columns A → ℕ
  max_col_size_locked seq m = (count_columns seq m ([], 0)).1

  -- if v.seq > seq && v.rowSize > max { max = v.rowSize }
  abbrev pub longer : ℤ → ParamValue A → ℕ → ℕ
  longer seq v most = if ltb_ℤ seq v.seq && ltb most v.row_size then v.row_size else most

  pub longest_row : ℤ → Columns A → ℕ → ℕ
  longest_row seq [] most = most
  longest_row seq ((col, v) ∷ m) most = longest_row seq m (longer seq v most)

  unfoldable pub max_row_size_locked : ℤ → Columns A → ℕ
  unfolding longest_row
  max_row_size_locked seq m = longest_row seq m 0

  unfoldable pub max_col_size : ParamBuffer A → ℤ → ℤ → Result Error ℕ
  max_col_size b idx seq = do validate_index b idx; ok (max_col_size_locked seq (columns b idx))

  unfoldable pub max_row_size : ParamBuffer A → ℤ → ℤ → Result Error ℕ
  max_row_size b idx seq = do validate_index b idx; ok (max_row_size_locked seq (columns b idx))

  pub max_size_loop : ℤ → List (Columns A) → ℕ × ℕ → ℕ × ℕ
  max_size_loop seq [] st = st
  max_size_loop seq (m ∷ ms) (cols, rows) =
      let c = max_col_size_locked seq m in
      let r = max_row_size_locked seq m in max_size_loop seq ms (upto cols c, upto rows r)

  pub max_size : ParamBuffer A → ℤ → ℕ × ℕ
  max_size b seq = max_size_loop seq b.table (0, 0)
