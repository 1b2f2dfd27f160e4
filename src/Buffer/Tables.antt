-- ===== src/Buffer/Tables.antt =====
-- SetColsData and SetTable of plan_buffer.go, read back.
use oncecall.Prelude.{
  ℕ, zero, suc, ◌+◌, ◌≤◌, ◌≡◌, ◌≢◌, refl, sym, ap, ◌∙◌, Option, none, some, List, [], ◌∷◌, arith,
  if◌then◌else◌, length, take, replicate, copy, length-replicate, ℤ, String, ok,
}
use oncecall.Buffer.{
  ParamBuffer, leb_ℤ, calculate_row_size, delete_idle_locked, column_of, set_cols_data,
  get_cols_data, read_cells,
}
use oncecall.Buffer.RowSize.{calculate_row_size_lem}
use oncecall.Buffer.Write.{validate_index_cases, get_cols_data-store, InTable-delete_idle_locked}

module _ {A : Type 0} where
  take-copy :
      (n : ℕ) (dst src : List A)
      → n ≤ length src
      → length src ≤ length dst
      → take n (copy dst src) ≡ take n src
  take-copy zero dst src h k = refl
  take-copy (suc n) [] [] h k = refl
  take-copy (suc n) [] (s ∷ src) h k = absurd (omega arith)
  take-copy (suc n) (d ∷ dst) [] h k = absurd (omega arith)
  take-copy (suc n) (d ∷ dst) (s ∷ src) h k =
      ap (◌∷◌ s) (take-copy n dst src (omega arith) (omega arith))

  copy_all : (dst src : List A) → length src ≡ length dst → copy dst src ≡ src
  copy_all [] [] h = refl
  copy_all [] (s ∷ src) h = absurd (omega arith)
  copy_all (d ∷ dst) [] h = absurd (omega arith)
  copy_all (d ∷ dst) (s ∷ src) h = ap (◌∷◌ s) (copy_all dst src (omega arith))

  length-take-eq : (n : ℕ) (xs : List A) → n ≤ length xs → length (take n xs) ≡ n
  length-take-eq zero xs h = refl
  length-take-eq (suc n) [] h = absurd (omega arith)
  length-take-eq (suc n) (x ∷ xs) h = ap suc (length-take-eq n xs (omega arith))

module _ {A : Type 0} where
  -- The slice without the nil cells at its end.
  abbrev pub trimmed : List (Option A) → List (Option A)
  trimmed data_ = take (calculate_row_size data_) data_

  read_cells-column_of :
      (extra : ℕ) (data_ : List (Option A)) (seq r : ℤ)
      → read_cells (column_of extra data_ seq) r
        ≡ (if leb_ℤ seq r then none else some (trimmed data_))
  unfolding read_cells column_of
  read_cells-column_of extra data_ seq r =
      let n = calculate_row_size data_ in
      let cells = copy (replicate (length data_ + extra) none) data_ in
      let within = (calculate_row_size_lem data_).0 in
      let same : take n cells ≡ take n data_ =
        take-copy n _ data_ within
          (omega (arith, length-replicate {A = Option A} (length data_ + extra) none)) in
      rw same (
        rw
          (copy_all (replicate n none) (take n data_)
            (length-take-eq n data_ within ∙ sym (length-replicate n none)))
          refl)

  -- A column that `SetColsData` wrote at `seq` is read back without its trailing nils by every reader
  -- whose own seq is smaller, and as the nil slice at any other seq.
  pub get_cols_data-set_cols_data :
      (b b' : ParamBuffer A) (idx : ℤ) (col : String) (data_ : List (Option A)) (seq r : ℤ)
      → set_cols_data b idx col data_ seq ≡ ok b'
      → get_cols_data b' idx col r ≡ ok (if leb_ℤ seq r then none else some (trimmed data_))
  unfolding set_cols_data
  get_cols_data-set_cols_data b b' idx col data_ seq r e = ground (
    arith,
    validate_index_cases b idx,
    InTable-delete_idle_locked b seq idx,
    get_cols_data-store (delete_idle_locked b seq) idx col (column_of b.row_cap data_ seq) r,
    read_cells-column_of b.row_cap data_ seq r,
  )

-- `col` does not stand in the list.
abbrev pub Absent : List String → String → Type 0
Absent [] col = Unit
Absent (x ∷ cols) col = (x ≢ col) × Absent cols col

-- `col` stands at `c`, and nowhere later.
abbrev pub LastAt : List String → ℕ → String → Type 0
LastAt [] c col = ⊥
LastAt (x ∷ cols) zero col = (x ≡ col) × Absent cols col
LastAt (x ∷ cols) (suc c) col = LastAt cols c col
