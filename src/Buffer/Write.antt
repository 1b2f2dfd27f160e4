-- ===== src/Buffer/Write.antt =====
-- What the readers of plan_buffer.go see after its writers.
use oncecall.Prelude.{
  ℕ, ◌+◌, ◌≤◌, ◌<◌, ◌≡◌, ◌≢◌, ap, ◌⊎◌, ite, Option, none, some, List, [], arith, ◌==◌,
  if◌then◌else◌, length, get_or, length-set, get_or-set, replicate, ℤ, pos, pos_part, neg_part,
  String, str_dec, lookup, put, lookup-put, Distinct, ok, err, length-replicate, length-copy,
}
use oncecall.Buffer.{
  ParamValue, ParamBuffer, invalid_index, invalid_row, leb_ℤ, delete_idle_locked, columns, store,
  write_cell, grow, value_or_zero, validate_index, set_cell, get, get_cols_data, find_column,
  read_cell, read_cells,
}
use oncecall.Buffer.RowSize.{get_or-widened}
use oncecall.Buffer.Idle.{survives, lookup-delete_idle_locked, length-delete_idle_locked}
use oncecall.Buffer.Invariant.{IsValid, ColumnsValid-Distinct, get_or-ColumnsValid}

module _ {A : Type 0} where
  -- The indices that validateIndex lets through.
  abbrev pub InTable : ParamBuffer A → ℤ → Type 0
  InTable b idx = (neg_part idx ≡ 0) × (pos_part idx < length b.table)

  pub validate_index_cases :
      (b : ParamBuffer A) (idx : ℤ)
      → (InTable b idx × (validate_index b idx ≡ ok tt))
        ⊎ ((¬ InTable b idx) × (validate_index b idx ≡ err (invalid_index idx)))
  unfolding validate_index
  validate_index_cases b idx = ground arith

  -- The column that a key names, if there is one.
  abbrev pub column : ParamBuffer A → ℤ → String → Option (ParamValue A)
  column b idx col = lookup str_dec col (columns b idx)

  pub column-store :
      (b : ParamBuffer A) (idx : ℤ) (col : String) (v : ParamValue A) (jdx : ℤ) (other : String)
      → InTable b idx
      → InTable b jdx
      → column (store b idx col v) jdx other ≡ (
          if pos_part idx == pos_part jdx
          then ite (str_dec col other) (some v) (column b jdx other)
          else column b jdx other)
  column-store b idx col v jdx other h k = ground (
    arith,
    get_or-set b.table (pos_part idx) (pos_part jdx) (put str_dec col v (columns b idx)) [],
    lookup-put str_dec col other v (columns b idx),
  )

  pub Distinct-columns :
      (b : ParamBuffer A) (idx : ℤ) → IsValid b → Distinct str_dec (columns b idx)
  Distinct-columns b idx h =
      ColumnsValid-Distinct (columns b idx) (get_or-ColumnsValid b.table (pos_part idx) h.tables)

  pub get-store :
      (b : ParamBuffer A) (idx : ℤ) (col : String) (v : ParamValue A) (row r : ℤ)
      → InTable b idx
      → get (store b idx col v) idx col row r ≡ read_cell v row r
  unfolding get find_column validate_index
  get-store b idx col v row r h = ground (
    arith,
    column-store b idx col v idx col h h,
    length-set b.table (pos_part idx) (put str_dec col v (columns b idx)),
  )

  pub get_cols_data-store :
      (b : ParamBuffer A) (idx : ℤ) (col : String) (v : ParamValue A) (r : ℤ)
      → InTable b idx
      → get_cols_data (store b idx col v) idx col r ≡ ok (read_cells v r)
  unfolding get_cols_data find_column validate_index
  get_cols_data-store b idx col v r h = ground (
    arith,
    column-store b idx col v idx col h h,
    length-set b.table (pos_part idx) (put str_dec col v (columns b idx)),
  )

  pub InTable-delete_idle_locked :
      (b : ParamBuffer A) (seq idx : ℤ) → InTable b idx → InTable (delete_idle_locked b seq) idx
  InTable-delete_idle_locked b seq idx h =
      (h.0, omega (arith, ap (λ (n : ℕ). n) (length-delete_idle_locked b seq), h.1))

  -- What `Set` stores.
  abbrev pub written : ParamBuffer A → ℤ → String → ℤ → Option A → ℤ → ParamValue A
  written b idx col row c seq =
      write_cell b.row_cap (pos_part row) c seq
        (value_or_zero (column (delete_idle_locked b seq) idx col))

  pub set_cell_cases :
      (b : ParamBuffer A) (idx : ℤ) (col : String) (row : ℤ) (c : Option A) (seq : ℤ)
      → (InTable b idx
          × (neg_part row ≡ 0)
          × (set_cell b idx col row c seq
              ≡ ok (store (delete_idle_locked b seq) idx col (written b idx col row c seq))))
        ⊎ (((¬ InTable b idx) × (set_cell b idx col row c seq ≡ err (invalid_index idx)))
            ⊎ (InTable b idx
                × (0 < neg_part row)
                × (set_cell b idx col row c seq ≡ err (invalid_row row))))
  unfolding set_cell
  set_cell_cases b idx col row c seq = ground (arith, validate_index_cases b idx)

  length-grow : (extra row : ℕ) (cells : List (Option A)) → row < length (grow extra row cells)
  unfolding grow
  length-grow extra row cells = ground (
    arith,
    length-copy (replicate (row + 1 + extra) none) cells,
    length-replicate {A = Option A} (row + 1 + extra) none,
  )

  length-grow-le :
      (extra row : ℕ) (cells : List (Option A)) → length cells ≤ length (grow extra row cells)
  unfolding grow
  length-grow-le extra row cells = ground (
    arith,
    length-copy (replicate (row + 1 + extra) none) cells,
    length-replicate {A = Option A} (row + 1 + extra) none,
  )

  get_or-grow :
      (extra row : ℕ) (cells : List (Option A)) (i : ℕ)
      → get_or (grow extra row cells) i none ≡ get_or cells i none
  unfolding grow
  get_or-grow extra row cells i = ground (arith, get_or-widened (row + 1 + extra) cells i)

  read_cell-write_cell_ne :
      (extra row : ℕ) (c : Option A) (seq : ℤ) (v : ParamValue A) (j : ℕ) (r : ℤ)
      → row ≢ j
      → j < length v.row
      → read_cell (write_cell extra row c seq v) (pos j) r
        ≡ ok (if leb_ℤ seq r then none else get_or v.row j none)
  unfolding read_cell write_cell
  read_cell-write_cell_ne extra row c seq v j r h l = ground (
    arith,
    length-grow-le extra row v.row,
    length-grow extra row v.row,
    length-set (grow extra row v.row) row c,
    get_or-set (grow extra row v.row) row j c none,
    get_or-grow extra row v.row j,
  )

  -- `Set` gives its seq to the whole column: a reader below that seq then sees the other cells of the
  -- column too, as they were, however old they are.
  pub get-set_cell_ne :
      (b b' : ParamBuffer A) (idx : ℤ) (col : String) (row : ℤ) (c : Option A) (seq : ℤ) (j : ℕ)
      (r : ℤ) (v : ParamValue A)
      → IsValid b
      → set_cell b idx col row c seq ≡ ok b'
      → survives b seq (column b idx col) ≡ some v
      → pos_part row ≢ j
      → j < length v.row
      → get b' idx col (pos j) r ≡ ok (if leb_ℤ seq r then none else get_or v.row j none)
  get-set_cell_ne b b' idx col row c seq j r v h e s ne l = ground (
    arith,
    set_cell_cases b idx col row c seq,
    InTable-delete_idle_locked b seq idx,
    lookup-delete_idle_locked b seq idx col (Distinct-columns b idx h),
    get-store (delete_idle_locked b seq) idx col (written b idx col row c seq) (pos j) r,
    read_cell-write_cell_ne b.row_cap (pos_part row) c seq v j r,
  )

  -- `Set` on one column leaves every other column of every plan as it was, or drops it as idle.
  pub column-set_cell_ne :
      (b b' : ParamBuffer A) (idx : ℤ) (col : String) (row : ℤ) (c : Option A) (seq jdx : ℤ)
      (other : String)
      → IsValid b
      → set_cell b idx col row c seq ≡ ok b'
      → InTable b jdx
      → (pos_part idx ≢ pos_part jdx) ⊎ (col ≢ other)
      → column b' jdx other ≡ survives b seq (column b jdx other)
  column-set_cell_ne b b' idx col row c seq jdx other h e k ne = ground (
    arith,
    set_cell_cases b idx col row c seq,
    InTable-delete_idle_locked b seq idx,
    InTable-delete_idle_locked b seq jdx,
    lookup-delete_idle_locked b seq jdx other (Distinct-columns b jdx h),
    column-store (delete_idle_locked b seq) idx col (written b idx col row c seq) jdx other,
  )
