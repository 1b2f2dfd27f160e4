-- ===== src/Buffer/Guards.antt =====
-- The error returns of plan_buffer.go.
use oncecall.Prelude.{
  true, false, is_ok, get_or, ◌≤◌, ◌<◌, ◌≡◌, inl, inr, ◌⊎◌, Option, none, some, List, arith, length,
  ℤ, pos_part, neg_part, ltb_ℤ, String, ok, err,
}
use oncecall.Buffer.{
  ParamValue, ParamBuffer, invalid_index, invalid_row, set_cell, set_cols_data, set_table, get,
  get_cols_data, find_column, read_cell,
}
use oncecall.Buffer.Size.{max_col_size, max_row_size}
use oncecall.Buffer.Write.{InTable, validate_index_cases, set_cell_cases, column}

module _ {A : Type 0} where
  -- An index outside the table is refused by every call that takes one, before anything is written.
  pub index_guard :
      (b : ParamBuffer A) (idx : ℤ) (col : String) (row : ℤ) (c : Option A)
      (cells : List (Option A)) (cols : List String) (rows : List (List (Option A))) (seq : ℤ)
      → ¬ InTable b idx
      → (set_cell b idx col row c seq ≡ err (invalid_index idx))
        × (set_cols_data b idx col cells seq ≡ err (invalid_index idx))
        × (set_table b idx cols rows seq ≡ err (invalid_index idx))
        × (get b idx col row seq ≡ err (invalid_index idx))
        × (get_cols_data b idx col seq ≡ err (invalid_index idx))
        × (max_col_size b idx seq ≡ err (invalid_index idx))
        × (max_row_size b idx seq ≡ err (invalid_index idx))
  unfolding set_cell set_cols_data set_table get get_cols_data max_col_size max_row_size
  index_guard b idx col row c cells cols rows seq h = elim (validate_index_cases b idx) [
    | inl (k, e) ↦ absurd (h k)
    | inr (k, e) ↦ (rw e, rw e, rw e, rw e, rw e, rw e, rw e)
  ]

  -- With an index of the table every write but one of a negative row succeeds.
  pub write_total :
      (b : ParamBuffer A) (idx : ℤ) (col : String) (row : ℤ) (c : Option A)
      (cells : List (Option A)) (cols : List String) (rows : List (List (Option A))) (seq : ℤ)
      → InTable b idx
      → (((neg_part row ≡ 0) × (is_ok (set_cell b idx col row c seq) ≡ true))
          ⊎ ((0 < neg_part row) × (set_cell b idx col row c seq ≡ err (invalid_row row))))
        × (is_ok (set_cols_data b idx col cells seq) ≡ true)
        × (is_ok (set_table b idx cols rows seq) ≡ true)
  unfolding set_cols_data set_table
  write_total b idx col row c cells cols rows seq h = (
    ground (arith, validate_index_cases b idx, set_cell_cases b idx col row c seq),
    ground (arith, validate_index_cases b idx),
    ground (arith, validate_index_cases b idx),
  )

  -- A read of a column that is there is refused only if the column is newer than the reader's seq and
  -- the row is negative or not allocated; a column that is not newer reads as nil at any row.
  pub get_cases :
      (b : ParamBuffer A) (idx : ℤ) (col : String) (row seq : ℤ) (v : ParamValue A)
      → InTable b idx
      → column b idx col ≡ some v
      → ((ltb_ℤ seq v.seq ≡ false) × (get b idx col row seq ≡ ok none))
        ⊎ (((ltb_ℤ seq v.seq ≡ true)
              × (0 < neg_part row ⊎ length v.row ≤ pos_part row)
              × (get b idx col row seq ≡ err (invalid_row row)))
            ⊎ ((ltb_ℤ seq v.seq ≡ true)
                × (neg_part row ≡ 0)
                × (pos_part row < length v.row)
                × (get b idx col row seq ≡ ok (get_or v.row (pos_part row) none))))
  unfolding get find_column read_cell
  get_cases b idx col row seq v h e = ground (arith, validate_index_cases b idx)
