-- ===== src/Buffer/Size/Rows.antt =====
-- MaxRowSize of plan_buffer.go against what GetColsData returns.
use oncecall.Prelude.{
  ℕ, ◌≤◌, ◌≡◌, refl, sym, ◌∙◌, inl, inr, ◌⊎◌, Option, none, some, List, [], ◌∷◌, arith, true,
  length, take, replicate, copy, length-copy, length-replicate, ltb_ℤ, ℤ, String, str_dec, lookup,
  Distinct, ok, Option-cases,
}
use oncecall.Buffer.{
  ParamValue, ParamBuffer, Columns, columns, get_cols_data, read_cells, find_column,
}
use oncecall.Buffer.Size.{longer, longest_row, max_row_size_locked, max_row_size}
use oncecall.Buffer.Invariant.{IsValid}
use oncecall.Buffer.Write.{InTable, validate_index_cases, Distinct-columns}

module _ {A : Type 0} where
  le-longest_row : (seq : ℤ) (m : Columns A) (most : ℕ) → most ≤ longest_row seq m most
  unfolding longest_row
  le-longest_row seq [] most = omega arith
  le-longest_row seq ((k, v) ∷ m) most =
      let next = longer seq v most in
      let up : most ≤ next = ground arith in omega (arith, le-longest_row seq m next, up)

  longest_row_bound :
      (seq : ℤ) (m : Columns A) (most : ℕ) (col : String) (v : ParamValue A)
      → lookup str_dec col m ≡ some v
      → ltb_ℤ seq v.seq ≡ true
      → v.row_size ≤ longest_row seq m most
  unfolding longest_row lookup
  longest_row_bound seq [] most col v e f = cc
  longest_row_bound seq ((k, w) ∷ m) most col v e f =
      let next = longer seq w most in
      ground (arith, le-longest_row seq m next, longest_row_bound seq m next col v)

  longest_row_attained :
      (seq : ℤ) (m : Columns A) (most : ℕ)
      → Distinct str_dec m
      → (longest_row seq m most ≡ most)
        ⊎ ((col : String) × (v : ParamValue A) × (lookup str_dec col m ≡ some v)
            × (ltb_ℤ seq v.seq ≡ true)
            × (v.row_size ≡ longest_row seq m most))
  unfolding longest_row lookup
  longest_row_attained seq [] most h = inl refl
  longest_row_attained seq ((k, w) ∷ m) most h =
      let next = longer seq w most in
      elim (longest_row_attained seq m next h.1) [
        | inr (col, v, e, f, s) ↦ inr (col, v, ground arith, f, s)
        | inl e ↦ elim (next_cases seq w most) [
          | inl p ↦ inl (e ∙ p)
          | inr p ↦ inr (k, w, ground arith, p.0, sym (e ∙ p.1))
        ]
      ]
    where
      next_cases :
          (seq : ℤ) (w : ParamValue A) (most : ℕ)
          → (longer seq w most ≡ most)
            ⊎ ((ltb_ℤ seq w.seq ≡ true) × (longer seq w most ≡ w.row_size))
      next_cases seq w most = ground arith

  -- What a reader at `seq` gets of a column.
  get_cols_data_cases :
      (b : ParamBuffer A) (idx : ℤ) (col : String) (seq : ℤ) (cells : List (Option A))
      → InTable b idx
      → get_cols_data b idx col seq ≡ ok (some cells)
      → (v : ParamValue A) × (lookup str_dec col (columns b idx) ≡ some v)
        × (ltb_ℤ seq v.seq ≡ true)
        × (length cells ≡ v.row_size)
  unfolding get_cols_data find_column read_cells
  get_cols_data_cases b idx col seq cells h e =
      elim (Option-cases (lookup str_dec col (columns b idx))) [
        | inl n ↦ absurd (ground (arith, validate_index_cases b idx))
        | inr (v, p) ↦ (
          v,
          p,
          ground (arith, validate_index_cases b idx),
          ground (
            arith,
            validate_index_cases b idx,
            length-copy (replicate v.row_size none) (take v.row_size v.row),
            length-replicate {A = Option A} v.row_size none,
          ),
        )
      ]

  get_cols_data_fresh :
      (b : ParamBuffer A) (idx : ℤ) (col : String) (seq : ℤ) (v : ParamValue A)
      → InTable b idx
      → lookup str_dec col (columns b idx) ≡ some v
      → ltb_ℤ seq v.seq ≡ true
      → get_cols_data b idx col seq
        ≡ ok (some (copy (replicate v.row_size none) (take v.row_size v.row)))
  unfolding get_cols_data find_column read_cells
  get_cols_data_fresh b idx col seq v h e f = ground (arith, validate_index_cases b idx)

  -- The size reported for a plan is the length of the longest column that a reader at `seq` gets from
  -- GetColsData: none is longer, and unless the size is 0 one of them has just that length.
  pub max_row_size_lem :
      (b : ParamBuffer A) (idx seq : ℤ) (n : ℕ)
      → IsValid b
      → max_row_size b idx seq ≡ ok n
      → ((col : String) (cells : List (Option A))
          → get_cols_data b idx col seq ≡ ok (some cells)
          → length cells ≤ n)
        × ((n ≡ 0)
            ⊎ ((col : String) × (cells : List (Option A)) × (get_cols_data b idx col seq
                  ≡ ok (some cells))
                × (length cells ≡ n)))
  unfolding max_row_size max_row_size_locked
  max_row_size_lem b idx seq n v e =
      let k : InTable b idx = ground (arith, validate_index_cases b idx) in
      let top : longest_row seq (columns b idx) 0 ≡ n =
        ground (arith, validate_index_cases b idx) in
      (
        (λ col cells g.
            let (w, p, f, l) = get_cols_data_cases b idx col seq cells k g in
            omega (arith, longest_row_bound seq (columns b idx) 0 col w p f, top, l)),
        elim (longest_row_attained seq (columns b idx) 0 (Distinct-columns b idx v)) [
          | inl z ↦ inl (sym top ∙ z)
          | inr (col, w, p, f, s) ↦ inr (
            col,
            copy (replicate w.row_size none) (take w.row_size w.row),
            get_cols_data_fresh b idx col seq w k p f,
            length-copy (replicate w.row_size none) (take w.row_size w.row)
                ∙ length-replicate w.row_size none
                ∙ s
                ∙ top,
          )
        ],
      )
