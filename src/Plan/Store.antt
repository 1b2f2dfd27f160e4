-- ===== src/Plan/Store.antt =====
-- What the buffer of plan_buffer.go gives back of what was written.
use oncecall.Prelude.{
  ℕ, ◌+◌, ◌≤◌, ◌<◌, ◌≡◌, ◌≢◌, refl, Option, List, [], arith, ite, length, get_or, set, replicate,
  length-set, length-copy, length-replicate, get_or-set, get_or-copy, ℤ, String, str_dec, put,
  lookup-put,
}
use oncecall.Prelude.Outcome.{returned}
use oncecall.Plan.{Cell, ParamBuffer, zero_cell, column, resize, set_row, set_cell}

module _ {A : Type 0} where
  -- The cells of a column.
  abbrev pub cells_of : ParamBuffer A → ℕ → String → List (Cell A)
  cells_of b idx col = column col (get_or b.m idx [])

  abbrev pub made : Option A → ℤ → Cell A
  made data_ seq = record { data_ = data_; seq = seq }

  get_or-resize :
      (b : ParamBuffer A) (cells : List (Cell A)) (row : ℕ) (seq : ℤ) (j : ℕ)
      → j < row
      → j < length cells
      → get_or (resize b cells row seq) j zero_cell ≡ get_or cells j zero_cell
  unfolding resize
  get_or-resize b cells row seq j h k = ground (
    arith,
    length-replicate (length cells + b.row_cap) (zero_cell {A = A}),
    length-replicate (row + b.row_cap) (zero_cell {A = A}),
    get_or-copy (replicate (length cells + b.row_cap) (zero_cell {A = A})) cells j zero_cell,
    get_or-copy (replicate (row + b.row_cap) (zero_cell {A = A})) cells j zero_cell,
  )

  length-resize :
      (b : ParamBuffer A) (cells : List (Cell A)) (row : ℕ) (seq : ℤ)
      → row ≤ length cells
      → 0 < b.row_cap
      → row < length (resize b cells row seq)
  unfolding resize
  length-resize b cells row seq h k = ground (
    arith,
    length-replicate (length cells + b.row_cap) (zero_cell {A = A}),
    length-replicate (row + b.row_cap) (zero_cell {A = A}),
    length-copy (replicate (length cells + b.row_cap) (zero_cell {A = A})) cells,
    length-copy (replicate (row + b.row_cap) (zero_cell {A = A})) cells,
  )

  -- What a write of `data_` at `row` of `col` leaves.
  pub record Wrote (b b' : ParamBuffer A) (idx : ℕ) (col : String) (row : ℕ) (data_ : Option A)
      (seq : ℤ) : Type 0 where
    pub plans : length b'.m ≡ length b.m
    pub cap : b'.row_cap ≡ b.row_cap
    pub long : row < length (cells_of b' idx col)
    pub cell : get_or (cells_of b' idx col) row zero_cell ≡ made data_ seq
    pub above :
        (j : ℕ)
        → j < row
        → get_or (cells_of b' idx col) j zero_cell ≡ get_or (cells_of b idx col) j zero_cell
    pub others : (other : String) → col ≢ other → cells_of b' idx other ≡ cells_of b idx other

  put_column :
      (b : ParamBuffer A) (idx : ℕ) (col : String) (cells : List (Cell A)) (other : String)
      → idx < length b.m
      → cells_of
          (record b { m = set b.m idx (put str_dec col cells (get_or b.m idx [])) })
          idx
          other
        ≡ ite (str_dec col other) cells (cells_of b idx other)
  put_column b idx col cells other h = ground (
    arith,
    get_or-set b.m idx idx (put str_dec col cells (get_or b.m idx [])) [],
    lookup-put str_dec col other cells (get_or b.m idx []),
  )

  -- A write at a row that is not past the end of its column succeeds when the buffer has the plan and a
  -- positive capacity: the cell is there, the rows above and all other columns are as they were.
  pub set_cell-Wrote :
      {E : Type 0} (b : ParamBuffer A) (idx : ℕ) (col : String) (row : ℕ) (data_ : Option A)
      (seq : ℤ)
      → idx < length b.m
      → row ≤ length (cells_of b idx col)
      → 0 < b.row_cap
      → (b' : ParamBuffer A) × (set_cell {E = E} b idx col row data_ seq ≡ returned b')
        × Wrote b b' idx col row data_ seq
  unfolding set_cell set_row
  set_cell-Wrote b idx col row data_ seq h k g =
      let sized = resize b (cells_of b idx col) row seq in
      let room : row < length sized = length-resize b (cells_of b idx col) row seq k g in
      let cells = set sized row (made data_ seq) in
      let b' = record b { m = set b.m idx (put str_dec col cells (get_or b.m idx [])) } in
      let here : cells_of b' idx col ≡ cells = ground (arith, put_column b idx col cells col h) in
      (
        b',
        ground arith,
        record {
          plans = length-set b.m idx (put str_dec col cells (get_or b.m idx []));
          cap = refl;
          long = ground (arith, length-set sized row (made data_ seq));
          cell = ground (arith, get_or-set sized row row (made data_ seq) zero_cell room);
          above = λ j l. ground (
            arith,
            get_or-set sized row j (made data_ seq) zero_cell room,
            get_or-resize b (cells_of b idx col) row seq j l,
          );
          others = λ other ne. ground (arith, put_column b idx col cells other h);
        },
      )
