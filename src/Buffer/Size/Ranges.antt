-- ===== src/Buffer/Size/Ranges.antt =====
-- MaxSize of plan_buffer.go over all plans.
use oncecall.Prelude.{
  ℕ, zero, suc, ◌≤◌, ◌<◌, ◌≡◌, refl, sym, ap, ◌∙◌, inl, inr, ◌⊎◌, List, [], ◌∷◌, arith, length,
  get_or, ℤ, pos, ok,
}
use oncecall.Buffer.{ParamBuffer, Columns}
use oncecall.Buffer.Size.{
  max_row_size_locked, max_row_size, max_col_size_locked, max_col_size, max_size_loop, upto,
  max_size,
}
use oncecall.Buffer.Write.{validate_index_cases}

module _ {A : Type 0} where
  le-max_size_loop :
      (seq : ℤ) (ms : List (Columns A)) (st : ℕ × ℕ)
      → (st.0 ≤ (max_size_loop seq ms st).0) × (st.1 ≤ (max_size_loop seq ms st).1)
  unfolding max_size_loop
  le-max_size_loop seq [] st = omega arith
  le-max_size_loop seq (m ∷ ms) (cols, rows) =
      let next : ℕ × ℕ =
        (upto cols (max_col_size_locked seq m), upto rows (max_row_size_locked seq m)) in
      let up : (cols ≤ next.0) × (rows ≤ next.1) = (ground arith, ground arith) in
      omega (arith, le-max_size_loop seq ms next, up)

  max_size_loop_bound :
      (seq : ℤ) (ms : List (Columns A)) (st : ℕ × ℕ) (i : ℕ)
      → i < length ms
      → (max_col_size_locked seq (get_or ms i []) ≤ (max_size_loop seq ms st).0)
        × (max_row_size_locked seq (get_or ms i []) ≤ (max_size_loop seq ms st).1)
  unfolding max_size_loop
  max_size_loop_bound seq [] st i h = absurd (omega arith)
  max_size_loop_bound seq (m ∷ ms) (cols, rows) zero h =
      let c = max_col_size_locked seq m in
      let r = max_row_size_locked seq m in
      let up : (c ≤ upto cols c) × (r ≤ upto rows r) = (ground arith, ground arith) in
      omega (arith, le-max_size_loop seq ms (upto cols c, upto rows r), up)
  max_size_loop_bound seq (m ∷ ms) (cols, rows) (suc i) h =
      max_size_loop_bound seq ms
        (upto cols (max_col_size_locked seq m), upto rows (max_row_size_locked seq m)) i
        (omega arith)

  -- Either value comes from the start or from one of the maps.
  max_size_loop_attained :
      (seq : ℤ) (ms : List (Columns A)) (st : ℕ × ℕ)
      → (((max_size_loop seq ms st).0 ≡ st.0)
          ⊎ ((i : ℕ) × (i < length ms)
              × (max_col_size_locked seq (get_or ms i []) ≡ (max_size_loop seq ms st).0)))
        × (((max_size_loop seq ms st).1 ≡ st.1)
            ⊎ ((i : ℕ) × (i < length ms)
                × (max_row_size_locked seq (get_or ms i []) ≡ (max_size_loop seq ms st).1)))
  unfolding max_size_loop
  max_size_loop_attained seq [] st = (inl refl, inl refl)
  max_size_loop_attained seq (m ∷ ms) (cols, rows) =
      let c = max_col_size_locked seq m in
      let r = max_row_size_locked seq m in
      let rest = max_size_loop_attained seq ms (upto cols c, upto rows r) in
      (
        elim rest.0 [
          | inr (i, h, e) ↦ inr (suc i, omega arith, e)
          | inl e ↦ elim (upto_cases cols c) [
            | inl p ↦ inl (e ∙ p)
            | inr p ↦ inr (zero, omega arith, sym (e ∙ p))
          ]
        ],
        elim rest.1 [
          | inr (i, h, e) ↦ inr (suc i, omega arith, e)
          | inl e ↦ elim (upto_cases rows r) [
            | inl p ↦ inl (e ∙ p)
            | inr p ↦ inr (zero, omega arith, sym (e ∙ p))
          ]
        ],
      )
    where
      upto_cases : (a b : ℕ) → (upto a b ≡ a) ⊎ (upto a b ≡ b)
      upto_cases a b = ground arith

  sizes_at :
      (b : ParamBuffer A) (i : ℕ) (seq : ℤ)
      → i < length b.table
      → (max_col_size b (pos i) seq ≡ ok (max_col_size_locked seq (get_or b.table i [])))
        × (max_row_size b (pos i) seq ≡ ok (max_row_size_locked seq (get_or b.table i [])))
  unfolding max_col_size max_row_size
  sizes_at b i seq h = (
    ground (arith, validate_index_cases b (pos i)),
    ground (arith, validate_index_cases b (pos i)),
  )

  -- `MaxSize` is the componentwise maximum of the sizes of the plans: no plan has more columns or rows,
  -- and unless a component is 0 some plan has just that size.
  pub max_size_lem :
      (b : ParamBuffer A) (seq : ℤ)
      → ((i : ℕ)
          → i < length b.table
          → (c : ℕ) × (r : ℕ) × (max_col_size b (pos i) seq ≡ ok c)
            × (max_row_size b (pos i) seq ≡ ok r)
            × (c ≤ (max_size b seq).0)
            × (r ≤ (max_size b seq).1))
        × (((max_size b seq).0 ≡ 0)
            ⊎ ((i : ℕ) × (i < length b.table)
                × (max_col_size b (pos i) seq ≡ ok (max_size b seq).0)))
        × (((max_size b seq).1 ≡ 0)
            ⊎ ((i : ℕ) × (i < length b.table)
                × (max_row_size b (pos i) seq ≡ ok (max_size b seq).1)))
  unfolding max_size
  max_size_lem b seq =
      let found = max_size_loop_attained seq b.table (0, 0) in
      (
        (λ i h. (
          max_col_size_locked seq (get_or b.table i []),
          max_row_size_locked seq (get_or b.table i []),
          (sizes_at b i seq h).0,
          (sizes_at b i seq h).1,
          (max_size_loop_bound seq b.table (0, 0) i h).0,
          (max_size_loop_bound seq b.table (0, 0) i h).1,
        )),
        elim found.0 [
          | inl z ↦ inl z
          | inr (i, h, e) ↦ inr (i, h, (sizes_at b i seq h).0 ∙ ap ok e)
        ],
        elim found.1 [
          | inl z ↦ inl z
          | inr (i, h, e) ↦ inr (i, h, (sizes_at b i seq h).1 ∙ ap ok e)
        ],
      )
