-- ===== src/Buffer.antt =====
-- cmd/oncecall_sync/plan/new/plan_buffer.go: the parameter buffer that read plans fill and later
-- plans bind from. A cell is `any`: `none` is nil. `seq` is an int64, `idx` and `row` are ints.
pub mod Size
pub mod RowSize
pub mod Idle
pub mod Invariant
pub mod Runs
pub mod Write
pub mod Tables
pub mod Guards
mod Tests
use oncecall.Prelude.{
  ℕ, zero, suc, ◌+◌, ◌≡◌, Bool, true, false, ◌&&◌, ◌||◌, not, Option, none, some, List, [], ◌∷◌,
  ltb, leb, if◌then◌else◌, length, get_or, set, take, replicate, copy, ℤ, pos, pos_part, neg_part,
  ltb_ℤ, ℤ-discrete, sub64, String, str_dec, Dict, lookup, put, delete, Result, ok, err, ◌>>=◌,
  ◌>>◌, reject,
}

pub record ParamValue (A : Type 0) : Type 0 where
  pub row : List (Option A)
  pub row_size : ℕ
  pub seq : ℤ

abbrev pub Columns : Type 0 → Type 0
Columns A = Dict String (ParamValue A)

pub record ParamBuffer (A : Type 0) : Type 0 where
  pub table : List (Columns A)
  pub row_cap : ℕ
  pub row_idle_seq : ℤ

pub data Error : Type 0 where
  invalid_index invalid_row : ℤ → Error
  column_not_found : String → Error

-- The capacity of a map is a hint to the allocator.
pub new_plan_param_buffer : {A : Type 0} → ℤ → ℤ → ℤ → ℤ → ParamBuffer A
new_plan_param_buffer count map_init_cap row_init_cap row_idle_seq =
    let n = if ltb_ℤ count (pos 0) then 1 else pos_part count in
    record {
      table = replicate (n + 1) [];
      row_cap = if ltb_ℤ row_init_cap (pos 0) then 0 else pos_part row_init_cap;
      row_idle_seq = row_idle_seq;
    }

abbrev pub leb_ℤ : ℤ → ℤ → Bool
leb_ℤ a b = not (ltb_ℤ b a)

module _ {A : Type 0} where
  abbrev not_nil : Option A → Bool
  not_nil none = false
  not_nil (some a) = true

  -- The loop over `slices.Backward(row)`, with `n` cells still to visit.
  scan_backward : List (Option A) → ℕ → ℕ
  scan_backward row zero = 0
  scan_backward row (suc i) =
      let rest = scan_backward row i in if not_nil (get_or row i none) then i + 1 else rest

  pub calculate_row_size : List (Option A) → ℕ
  unfolding scan_backward
  calculate_row_size row = scan_backward row (length row)

  pub validate_index : ParamBuffer A → ℤ → Result Error (Unit {0})
  validate_index b idx =
      reject (ltb_ℤ idx (pos 0) || leb_ℤ (pos (length b.table)) idx) (invalid_index idx)

  pub is_idle : ℤ → ℤ → ParamValue A → Bool
  is_idle row_idle_seq seq v = ltb_ℤ v.seq seq && ltb_ℤ row_idle_seq (sub64 seq v.seq)

  pub delete_idle_columns : ℤ → ℤ → Columns A → Columns A
  delete_idle_columns idle seq [] = []
  delete_idle_columns idle seq ((col, v) ∷ m) =
      let rest = delete_idle_columns idle seq m in
      if is_idle idle seq v then rest else (col, v) ∷ rest

  pub delete_idle_table : ℤ → ℤ → List (Columns A) → List (Columns A)
  delete_idle_table idle seq [] = []
  delete_idle_table idle seq (m ∷ ms) =
      delete_idle_columns idle seq m ∷ delete_idle_table idle seq ms

  pub delete_idle_locked : ParamBuffer A → ℤ → ParamBuffer A
  delete_idle_locked b seq =
      if leb_ℤ b.row_idle_seq (pos 0)
      then b
      else record b { table = delete_idle_table b.row_idle_seq seq b.table }

  -- ppb.table[idx], for a valid index.
  abbrev pub columns : ParamBuffer A → ℤ → Columns A
  columns b idx = get_or b.table (pos_part idx) []

  -- v := ppb.table[idx][col], the zero value if the column is missing.
  abbrev pub value_or_zero : Option (ParamValue A) → ParamValue A
  value_or_zero none = record { row = []; row_size = 0; seq = pos 0 }
  value_or_zero (some v) = v

  -- ppb.table[idx][col] = v
  abbrev pub store : ParamBuffer A → ℤ → String → ParamValue A → ParamBuffer A
  store b idx col v = record b {
    table = set b.table (pos_part idx) (put str_dec col v (columns b idx));
  }

  pub grow : ℕ → ℕ → List (Option A) → List (Option A)
  grow row_cap row cells =
      if leb (length cells) row then copy (replicate (row + 1 + row_cap) none) cells else cells

  pub write_cell : ℕ → ℕ → Option A → ℤ → ParamValue A → ParamValue A
  unfolding grow
  write_cell row_cap row data_ seq v =
      let cells = set (grow row_cap row v.row) row data_ in
      record { row = cells; row_size = calculate_row_size cells; seq = seq }

  pub set_cell : ParamBuffer A → ℤ → String → ℤ → Option A → ℤ → Result Error (ParamBuffer A)
  set_cell b idx col row data_ seq = do
    validate_index b idx
    reject (ltb_ℤ row (pos 0)) (invalid_row row)
    let b' = delete_idle_locked b seq
    let v = value_or_zero (lookup str_dec col (columns b' idx))
    ok (store b' idx col (write_cell b.row_cap (pos_part row) data_ seq v))

  pub column_of : ℕ → List (Option A) → ℤ → ParamValue A
  column_of row_cap data_ seq = record {
    row = copy (replicate (length data_ + row_cap) none) data_;
    row_size = calculate_row_size data_;
    seq = seq;
  }

  pub set_cols_data :
      ParamBuffer A → ℤ → String → List (Option A) → ℤ → Result Error (ParamBuffer A)
  set_cols_data b idx col data_ seq = do
    validate_index b idx
    ok (store (delete_idle_locked b seq) idx col (column_of b.row_cap data_ seq))

  -- for rowIdx, values := range data { if colIdx < len(values) { row[rowIdx] = values[colIdx] } }
  pub fill_column : List (Option A) → ℕ → List (List (Option A)) → List (Option A)
  fill_column [] c data_ = []
  fill_column (r ∷ row) c [] = r ∷ row
  fill_column (r ∷ row) c (values ∷ data_) =
      (if ltb c (length values) then get_or values c none else r) ∷ fill_column row c data_

  pub table_column : ℕ → ℕ → List (List (Option A)) → ℤ → ParamValue A
  table_column row_cap c data_ seq =
      let row = fill_column (replicate (length data_ + row_cap) none) c data_ in
      record { row = row; row_size = calculate_row_size (take (length data_) row); seq = seq }

  pub store_columns :
      ParamBuffer A → ℤ → ℕ → List String → List (List (Option A)) → ℤ → ParamBuffer A
  store_columns b idx c [] data_ seq = b
  store_columns b idx c (col ∷ cols) data_ seq =
      store_columns (store b idx col (table_column b.row_cap c data_ seq)) idx (suc c) cols data_
        seq

  pub set_table :
      ParamBuffer A → ℤ → List String → List (List (Option A)) → ℤ → Result Error (ParamBuffer A)
  set_table b idx cols data_ seq = do
    validate_index b idx
    ok (store_columns (delete_idle_locked b seq) idx 0 cols data_ seq)

  pub read_cell : ParamValue A → ℤ → ℤ → Result Error (Option A)
  read_cell v row seq =
      if leb_ℤ v.seq seq
      then ok none
      else if ltb_ℤ row (pos 0) || leb_ℤ (pos (length v.row)) row
      then err (invalid_row row)
      else ok (get_or v.row (pos_part row) none)

  find_column : Columns A → String → Result Error (ParamValue A)
  find_column m col = elim (lookup str_dec col m) [
    | none ↦ err (column_not_found col)
    | some v ↦ ok v
  ]

  pub get : ParamBuffer A → ℤ → String → ℤ → ℤ → Result Error (Option A)
  get b idx col row seq = do
    validate_index b idx
    v ← find_column (columns b idx) col
    read_cell v row seq

  -- `none` is the nil slice.
  pub read_cells : ParamValue A → ℤ → Option (List (Option A))
  read_cells v seq =
      if leb_ℤ v.seq seq
      then none
      else some (copy (replicate v.row_size none) (take v.row_size v.row))

  pub get_cols_data : ParamBuffer A → ℤ → String → ℤ → Result Error (Option (List (Option A)))
  get_cols_data b idx col seq = do
    validate_index b idx
    v ← find_column (columns b idx) col
    ok (read_cells v seq)
