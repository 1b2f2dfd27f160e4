-- ===== src/Buffer/Runs.antt =====
-- The writing calls of plan_buffer.go, one after another.
use oncecall.Prelude.{
  Result-cases, ◌≡◌, inl, inr, Option, List, [], ◌∷◌, arith, ℤ, pos_part, String, str_dec, lookup,
  ok, err, Result,
}
use oncecall.Buffer.{
  ParamBuffer, Error, delete_idle_locked, columns, write_cell, column_of, value_or_zero,
  new_plan_param_buffer, set_cell, set_cols_data, set_table,
}
use oncecall.Buffer.Invariant.{
  IsValid, delete_idle_locked-IsValid, store-IsValid, write_cell-IsSized, column_of-IsSized,
  store_columns-IsValid, new_plan_param_buffer-IsValid,
}

-- The calls that write.
pub data Write (A : Type 0) : Type 0 where
  cell : ℤ → String → ℤ → Option A → ℤ → Write A
  cols_data : ℤ → String → List (Option A) → ℤ → Write A
  whole_table : ℤ → List String → List (List (Option A)) → ℤ → Write A

module _ {A : Type 0} where
  pub write : ParamBuffer A → Write A → Result Error (ParamBuffer A)
  write b (cell idx col row c seq) = set_cell b idx col row c seq
  write b (cols_data idx col data_ seq) = set_cols_data b idx col data_ seq
  write b (whole_table idx cols data_ seq) = set_table b idx cols data_ seq

  write-IsValid :
      (b : ParamBuffer A) (w : Write A) (b' : ParamBuffer A)
      → IsValid b
      → write b w ≡ ok b'
      → IsValid b'
  unfolding write set_cell set_cols_data set_table
  write-IsValid b (cell idx col row c seq) b' h e =
      let d = delete_idle_locked-IsValid b seq h in
      ground (
        arith,
        store-IsValid (delete_idle_locked b seq) idx col
            (write_cell b.row_cap (pos_part row) c seq
              (value_or_zero (lookup str_dec col (columns (delete_idle_locked b seq) idx))))
            (write_cell-IsSized b.row_cap (pos_part row) c seq
              (value_or_zero (lookup str_dec col (columns (delete_idle_locked b seq) idx))))
            d,
      )
  write-IsValid b (cols_data idx col data_ seq) b' h e =
      let d = delete_idle_locked-IsValid b seq h in
      ground (
        arith,
        store-IsValid (delete_idle_locked b seq) idx col (column_of b.row_cap data_ seq)
            (column_of-IsSized b.row_cap data_ seq) d,
      )
  write-IsValid b (whole_table idx cols data_ seq) b' h e = ground (
    arith,
    store_columns-IsValid (delete_idle_locked b seq) idx 0 cols data_ seq
        (delete_idle_locked-IsValid b seq h),
  )

  -- A call that fails leaves the buffer as it was.
  abbrev after : ParamBuffer A → Result Error (ParamBuffer A) → ParamBuffer A
  after b (ok b') = b'
  after b (err e) = b

  pub run : ParamBuffer A → List (Write A) → ParamBuffer A
  run b [] = b
  run b (w ∷ ws) = run (after b (write b w)) ws

  run_from-IsValid : (b : ParamBuffer A) (ws : List (Write A)) → IsValid b → IsValid (run b ws)
  unfolding run
  run_from-IsValid b [] h = h
  run_from-IsValid b (w ∷ ws) h =
      run_from-IsValid (after b (write b w)) ws (elim (Result-cases (write b w)) [
        | inl (b', e) ↦ rw e (write-IsValid b w b' h e)
        | inr (x, e) ↦ rw e h
      ])

  -- After any calls on a new buffer, in any order and at any times, each map has each column once
  -- and every stored size is the size of the stored cells.
  pub run-IsValid :
      (count cols rows idle : ℤ) (ws : List (Write A))
      → IsValid (run (new_plan_param_buffer {A = A} count cols rows idle) ws)
  run-IsValid count cols rows idle ws =
      run_from-IsValid _ ws (new_plan_param_buffer-IsValid A count cols rows idle).0
