-- ===== src/Buffer/Invariant.antt =====
-- What holds of the buffer of plan_buffer.go between two calls, and that every call keeps it.
use oncecall.Prelude.{
  ℕ, zero, suc, ◌+◌, ◌<◌, ◌≡◌, refl, sym, Option, none, some, List, [], ◌∷◌, arith, length, get_or,
  set, replicate, ℤ, pos_part, String, str_dec, lookup, put, lookup-put, Distinct, length-replicate,
  get_or-take, get_or_past,
}
use oncecall.Buffer.{
  ParamValue, ParamBuffer, Columns, calculate_row_size, delete_idle_columns, delete_idle_table,
  delete_idle_locked, store, write_cell, column_of, table_column, store_columns,
  new_plan_param_buffer, fill_column,
}
use oncecall.Buffer.RowSize.{calculate_row_size_ext, get_or-padded, get_or-fill_column}
use oncecall.Buffer.Idle.{lookup-delete_idle_columns}

module _ {A : Type 0} where
  -- The stored size is the size of the stored cells.
  abbrev pub IsSized : ParamValue A → Type 0
  IsSized v = v.row_size ≡ calculate_row_size v.row

  abbrev pub ColumnsValid : Columns A → Type 0
  ColumnsValid [] = Unit
  ColumnsValid ((k, v) ∷ m) = (lookup str_dec k m ≡ none) × IsSized v × ColumnsValid m

  abbrev pub TableValid : List (Columns A) → Type 0
  TableValid [] = Unit
  TableValid (m ∷ ms) = ColumnsValid m × TableValid ms

  -- Every map has each column once, and every size is right.
  pub record IsValid (b : ParamBuffer A) : Type 0 where
    pub tables : TableValid b.table

  pub ColumnsValid-Distinct : (m : Columns A) → ColumnsValid m → Distinct str_dec m
  ColumnsValid-Distinct [] h = tt
  ColumnsValid-Distinct ((k, v) ∷ m) h = (h.0, ColumnsValid-Distinct m h.2)

  pub lookup-IsSized :
      (m : Columns A) (col : String) (v : ParamValue A)
      → ColumnsValid m
      → lookup str_dec col m ≡ some v
      → IsSized v
  unfolding lookup
  lookup-IsSized [] col v h e = cc
  lookup-IsSized ((k, w) ∷ m) col v h e = ground (arith, lookup-IsSized m col v)

  pub get_or-ColumnsValid :
      (ms : List (Columns A)) (i : ℕ) → TableValid ms → ColumnsValid (get_or ms i [])
  get_or-ColumnsValid [] i h = tt
  get_or-ColumnsValid (m ∷ ms) zero h = h.0
  get_or-ColumnsValid (m ∷ ms) (suc i) h = get_or-ColumnsValid ms i h.1

  put-ColumnsValid :
      (col : String) (v : ParamValue A) (m : Columns A)
      → IsSized v
      → ColumnsValid m
      → ColumnsValid (put str_dec col v m)
  unfolding put lookup
  put-ColumnsValid col v [] s h = (refl, s, tt)
  put-ColumnsValid col v ((k, w) ∷ m) s h =
      ground (arith, put-ColumnsValid col v m, lookup-put str_dec col k v m)

  set-TableValid :
      (ms : List (Columns A)) (i : ℕ) (m : Columns A)
      → ColumnsValid m
      → TableValid ms
      → TableValid (set ms i m)
  set-TableValid [] i m c h = tt
  set-TableValid (n ∷ ms) zero m c h = (c, h.1)
  set-TableValid (n ∷ ms) (suc i) m c h = (h.0, set-TableValid ms i m c h.1)

  delete_idle_columns-ColumnsValid :
      (idle seq : ℤ) (m : Columns A)
      → ColumnsValid m
      → ColumnsValid (delete_idle_columns idle seq m)
  unfolding delete_idle_columns
  delete_idle_columns-ColumnsValid idle seq [] h = tt
  delete_idle_columns-ColumnsValid idle seq ((k, v) ∷ m) h = ground (
    arith,
    delete_idle_columns-ColumnsValid idle seq m,
    lookup-delete_idle_columns idle seq k m (ColumnsValid-Distinct m h.2),
  )

  delete_idle_table-TableValid :
      (idle seq : ℤ) (ms : List (Columns A))
      → TableValid ms
      → TableValid (delete_idle_table idle seq ms)
  unfolding delete_idle_table
  delete_idle_table-TableValid idle seq [] h = tt
  delete_idle_table-TableValid idle seq (m ∷ ms) h = (
    delete_idle_columns-ColumnsValid idle seq m h.0,
    delete_idle_table-TableValid idle seq ms h.1,
  )

  pub delete_idle_locked-IsValid :
      (b : ParamBuffer A) (seq : ℤ) → IsValid b → IsValid (delete_idle_locked b seq)
  unfolding delete_idle_locked
  delete_idle_locked-IsValid b seq v =
      ground (arith, delete_idle_table-TableValid b.row_idle_seq seq b.table)

  pub store-IsValid :
      (b : ParamBuffer A) (idx : ℤ) (col : String) (v : ParamValue A)
      → IsSized v
      → IsValid b
      → IsValid (store b idx col v)
  store-IsValid b idx col v s h = record {
    tables =
        set-TableValid b.table (pos_part idx) _
          (put-ColumnsValid col v _ s (get_or-ColumnsValid b.table (pos_part idx) h.tables))
          h.tables;
  }

  pub write_cell-IsSized :
      (cap row : ℕ) (c : Option A) (seq : ℤ) (v : ParamValue A)
      → IsSized (write_cell cap row c seq v)
  unfolding write_cell
  write_cell-IsSized cap row c seq v = refl

  pub column_of-IsSized :
      (cap : ℕ) (data_ : List (Option A)) (seq : ℤ) → IsSized (column_of cap data_ seq)
  unfolding column_of
  column_of-IsSized cap data_ seq = sym (calculate_row_size_ext _ _ (get_or-padded cap data_))

  pub table_column-IsSized :
      (cap c : ℕ) (data_ : List (List (Option A))) (seq : ℤ)
      → IsSized (table_column cap c data_ seq)
  unfolding table_column
  table_column-IsSized cap c data_ seq = calculate_row_size_ext _ _ λ i. ground (
    arith,
    get_or-take (length data_) (fill_column (replicate (length data_ + cap) none) c data_) i none,
    get_or-fill_column (length data_ + cap) c data_ i,
    get_or_past data_ i [],
  )

  pub store_columns-IsValid :
      (b : ParamBuffer A) (idx : ℤ) (c : ℕ) (cols : List String) (data_ : List (List (Option A)))
      (seq : ℤ)
      → IsValid b
      → IsValid (store_columns b idx c cols data_ seq)
  unfolding store_columns
  store_columns-IsValid b idx c [] data_ seq h = h
  store_columns-IsValid b idx c (col ∷ cols) data_ seq h =
      store_columns-IsValid (store b idx col (table_column b.row_cap c data_ seq)) idx (suc c) cols
        data_ seq (store-IsValid b idx col _ (table_column-IsSized b.row_cap c data_ seq) h)

replicate-TableValid : (A : Type 0) (n : ℕ) → TableValid {A = A} (replicate n [])
replicate-TableValid A zero = tt
replicate-TableValid A (suc n) = (tt, replicate-TableValid A n)

-- A new buffer is valid, and has one map more than the plans it was made for.
pub new_plan_param_buffer-IsValid :
    (A : Type 0) (count cols rows idle : ℤ)
    → IsValid (new_plan_param_buffer {A = A} count cols rows idle)
      × (pos_part count < length (new_plan_param_buffer {A = A} count cols rows idle).table)
unfolding new_plan_param_buffer
new_plan_param_buffer-IsValid A count cols rows idle = (
  record { tables = replicate-TableValid A _ },
  ground (arith, length-replicate {A = Columns A} (pos_part count + 1) []),
)
