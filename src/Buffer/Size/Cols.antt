-- ===== src/Buffer/Size/Cols.antt =====
-- MaxColSize of plan_buffer.go: the columns of one write share a seq, and the size is that of the
-- largest such group that a reader sees.
use oncecall.Prelude.{
  ℕ, suc, ◌+◌, ◌≤◌, ◌<◌, ◌≡◌, refl, inl, inr, ◌⊎◌, ite, [], ◌∷◌, arith, true, false, ltb_ℤ, ℤ,
  ℤ-discrete, lookup, lookup-put, Dict,
}
use oncecall.Buffer.{ParamValue, Columns}
use oncecall.Buffer.Size.{count_or_zero, count_column, count_columns, max_col_size_locked}

module _ {A : Type 0} where
  -- How many columns carry the seq `s`.
  unfoldable pub number_at : ℤ → Columns A → ℕ
  number_at s [] = 0
  number_at s ((k, v) ∷ m) = let rest = number_at s m in ite (ℤ-discrete v.seq s) (suc rest) rest

abbrev count : ℤ → Dict ℤ ℕ → ℕ
count s counts = count_or_zero (lookup ℤ-discrete s counts)

-- `most` is the largest count so far.
record Peak (seq : ℤ) (st : Dict ℤ ℕ × ℕ) : Type 0 where
  bound : (s : ℤ) → ltb_ℤ seq s ≡ true → count s st.0 ≤ st.1
  attained : (st.1 ≡ 0) ⊎ ((s : ℤ) × (ltb_ℤ seq s ≡ true) × (count s st.0 ≡ st.1))

module _ {A : Type 0} where
  count-count_column :
      (seq : ℤ) (v : ParamValue A) (st : Dict ℤ ℕ × ℕ) (s : ℤ)
      → ltb_ℤ seq s ≡ true
      → count s (count_column seq v st).0
        ≡ ite (ℤ-discrete v.seq s) (suc (count s st.0)) (count s st.0)
  unfolding count_column
  count-count_column seq v st s h =
      ground (arith, lookup-put ℤ-discrete v.seq s (count v.seq st.0 + 1) st.0)

  most-count_column :
      (seq : ℤ) (v : ParamValue A) (st : Dict ℤ ℕ × ℕ)
      → ((ltb_ℤ seq v.seq ≡ false) × (count_column seq v st ≡ st))
        ⊎ ((ltb_ℤ seq v.seq ≡ true)
            × (((count_column seq v st).1 ≡ st.1) × (count v.seq st.0 + 1 ≤ st.1)
                ⊎ ((count_column seq v st).1 ≡ count v.seq st.0 + 1)
                  × (st.1 < count v.seq st.0 + 1)))
  unfolding count_column
  most-count_column seq v st = ground arith

  count_column-Peak :
      (seq : ℤ) (v : ParamValue A) (st : Dict ℤ ℕ × ℕ)
      → Peak seq st
      → Peak seq (count_column seq v st)
  count_column-Peak seq v st p = record {
    bound = λ s h.
        ground (arith, p.bound s h, count-count_column seq v st s h, most-count_column seq v st);
    attained = elim (most-count_column seq v st) [
      | inl (f, e) ↦ rw e p.attained
      | inr (t, inr (e, l)) ↦ inr (v.seq, t, ground (arith, count-count_column seq v st v.seq t))
      | inr (t, inl (e, l)) ↦ elim p.attained [
        | inl z ↦ absurd (omega arith)
        | inr (s, h, q) ↦ inr (s, h, ground (arith, count-count_column seq v st s h))
      ]
    ];
  }

  count_columns-Peak :
      (seq : ℤ) (m : Columns A) (st : Dict ℤ ℕ × ℕ)
      → Peak seq st
      → Peak seq (count_columns seq m st)
  unfolding count_columns
  count_columns-Peak seq [] st p = p
  count_columns-Peak seq ((k, v) ∷ m) st p =
      count_columns-Peak seq m (count_column seq v st) (count_column-Peak seq v st p)

  count-count_columns :
      (seq : ℤ) (m : Columns A) (st : Dict ℤ ℕ × ℕ) (s : ℤ)
      → ltb_ℤ seq s ≡ true
      → count s (count_columns seq m st).0 ≡ count s st.0 + number_at s m
  unfolding count_columns number_at
  count-count_columns seq [] st s h = omega arith
  count-count_columns seq ((k, v) ∷ m) st s h = ground (
    arith,
    count-count_columns seq m (count_column seq v st) s h,
    count-count_column seq v st s h,
  )

  -- The size is at least the number of columns of any one seq that a reader at `seq` sees, and unless
  -- it is 0 it is the number of columns of one such seq.
  pub max_col_size_locked_lem :
      (seq : ℤ) (m : Columns A)
      → ((s : ℤ) → ltb_ℤ seq s ≡ true → number_at s m ≤ max_col_size_locked seq m)
        × ((max_col_size_locked seq m ≡ 0)
            ⊎ ((s : ℤ) × (ltb_ℤ seq s ≡ true) × (number_at s m ≡ max_col_size_locked seq m)))
  unfolding max_col_size_locked lookup
  max_col_size_locked_lem seq m =
      let start : Peak seq ([], 0) = record { bound = λ s h. omega arith; attained = inl refl } in
      let p = count_columns-Peak seq m ([], 0) start in
      (
        (λ s h. omega (arith, p.bound s h, count-count_columns seq m ([], 0) s h)),
        elim p.attained [
          | inl z ↦ inl z
          | inr (s, h, q) ↦ inr (s, h, omega (arith, q, count-count_columns seq m ([], 0) s h))
        ],
      )
