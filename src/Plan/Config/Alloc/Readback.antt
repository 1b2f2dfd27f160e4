-- ===== src/Plan/Config/Alloc/Readback.antt =====
-- The rows that allocCurrentDataToState (script_plan.go) stores are read back.
use oncecall.Prelude.{
  ℕ, zero, suc, ◌+◌, ◌<◌, ◌≡◌, refl, ◌∙◌, subst, Option, none, some, List, [], ◌∷◌, arith,
  if◌then◌else◌, length, get_elem?, get_or, ℤ, pos, ltb_ℤ, String,
}
use oncecall.Prelude.Outcome.{returned}
use oncecall.Plan.{ParamBuffer, zero_cell, get_row, get}
use oncecall.Plan.Store.{cells_of, made}
use oncecall.Plan.Config.{Rows}
use oncecall.Plan.Config.Alloc.{alloc_rows, alloc_current_data}
use oncecall.Plan.Config.Alloc.Row.{
  Separate, Rectangular, get_elem?-get_or, Long, Ready, RowWrote, alloc_row-RowWrote,
}

module _ {A : Type 0} (idx : ℕ) (seq : ℤ) where
  -- What the rows that were stored from row `n` on leave.
  record RowsWrote (b b' : ParamBuffer A) (n : ℕ) (cols : List String) (rows : Rows A)
      : Type 0 where
    cell :
        (i c : ℕ) (col : String)
        → i < length rows
        → get_elem? cols c ≡ some col
        → get_or (cells_of b' idx col) (n + i) zero_cell
          ≡ made (get_or (get_or rows i []) c none) seq
    long : Long idx seq b' (n + length rows) cols
    plans : idx < length b'.m
    above :
        (j : ℕ) (col : String)
        → j < n
        → get_or (cells_of b' idx col) j zero_cell ≡ get_or (cells_of b idx col) j zero_cell

  cons_cells :
      (b b1 b2 : ParamBuffer A) (n : ℕ) (cols : List String) (row : List (Option A)) (rows : Rows A)
      → RowWrote idx seq b b1 n cols row
      → RowsWrote b1 b2 (suc n) cols rows
      → (i c : ℕ) (col : String) → i < length (row ∷ rows)
      → get_elem? cols c ≡ some col
      → get_or (cells_of b2 idx col) (n + i) zero_cell
        ≡ made (get_or (get_or (row ∷ rows) i []) c none) seq
  cons_cells b b1 b2 n cols row rows w v zero c col l e =
      let z : n ≡ n + 0 = omega arith in
      subst (λ k. get_or (cells_of b2 idx col) k zero_cell ≡ made (get_or row c none) seq) z
        (v.above n col (omega arith) ∙ w.cell c col e)
  cons_cells b b1 b2 n cols row rows w v (suc i) c col l e =
      let z : suc n + i ≡ n + suc i = omega arith in
      subst
        (λ k.
          get_or (cells_of b2 idx col) k zero_cell ≡ made (get_or (get_or rows i []) c none) seq)
        z (v.cell i c col (omega arith) e)

  cons_RowsWrote :
      (b b1 b2 : ParamBuffer A) (n : ℕ) (cols : List String) (row : List (Option A)) (rows : Rows A)
      → RowWrote idx seq b b1 n cols row
      → RowsWrote b1 b2 (suc n) cols rows
      → RowsWrote b b2 n cols (row ∷ rows)
  cons_RowsWrote b b1 b2 n cols row rows w v = record {
    cell = cons_cells b b1 b2 n cols row rows w v;
    long = λ c col e. omega (arith, v.long c col e);
    plans = v.plans;
    above = λ j col l. v.above j col (omega arith) ∙ w.above j col l;
  }

  alloc_rows-RowsWrote :
      {E : Type 0} (b : ParamBuffer A) (n : ℕ) (cols : List String) (rows : Rows A)
      → Ready idx seq b
      → Separate cols
      → Rectangular (length cols) rows
      → Long idx seq b n cols
      → (b' : ParamBuffer A) × (alloc_rows {E = E} b idx n cols rows seq ≡ returned b')
        × RowsWrote b b' n cols rows
  unfolding alloc_rows
  alloc_rows-RowsWrote b n cols [] r s q k = (
    b,
    refl,
    record {
      cell = λ i c col l e. absurd (omega arith);
      long = λ c col e. omega (arith, k c col e);
      plans = r.0;
      above = λ j col l. refl;
    },
  )
  alloc_rows-RowsWrote {E} b n cols (row ∷ rows) r s q k =
      let (b1, e1, w) = alloc_row-RowWrote idx seq {E = E} b n cols row r s q.0 k in
      let (b2, e2, v) = alloc_rows-RowsWrote {E = E} b1 (suc n) cols rows w.ready s q.1 w.long in
      (b2, ground arith, cons_RowsWrote b b1 b2 n cols row rows w v)

  get-cells :
      {E : Type 0} (b : ParamBuffer A) (col : String) (i : ℕ) (data_ : Option A) (r : ℤ)
      → idx < length b.m
      → i < length (cells_of b idx col)
      → get_or (cells_of b idx col) i zero_cell ≡ made data_ seq
      → get {E = E} b (pos idx) col (pos i) r ≡ returned (if ltb_ℤ r seq then none else data_)
  unfolding get get_row
  get-cells b col i data_ r h l e =
      ground (arith, get_elem?-get_or (cells_of b idx col) i zero_cell l)

  from_zero :
      (b : ParamBuffer A) (rows : Rows A) (row : List (Option A)) (cols : List String)
      {b0 : ParamBuffer A}
      → RowsWrote b0 b 0 cols (row ∷ rows)
      → (i c : ℕ) (col : String) → i < length (row ∷ rows)
      → get_elem? cols c ≡ some col
      → get_or (cells_of b idx col) i zero_cell
        ≡ made (get_or (get_or (row ∷ rows) i []) c none) seq
  from_zero b rows row cols w i c col l k =
      let z : 0 + i ≡ i = omega arith in
      subst
        (λ j.
          get_or (cells_of b idx col) j zero_cell
          ≡ made (get_or (get_or (row ∷ rows) i []) c none) seq)
        z (w.cell i c col l k)

  -- Rows that all have one cell for each of the separate names are stored without an error or a panic,
  -- in a buffer that has the plan and a positive capacity: every cell is read back at its place, as nil
  -- by a reader whose seq is older.
  pub get-alloc_current_data :
      {E : Type 0} (b : ParamBuffer A) (rows : Rows A) (cols : List String)
      → idx < length b.m
      → 0 < b.row_cap
      → Separate cols
      → Rectangular (length cols) rows
      → (b' : ParamBuffer A) × (alloc_current_data {E = E} b idx rows cols seq ≡ returned b')
        × ((i c : ℕ) (col : String) (r : ℤ)
            → i < length rows
            → get_elem? cols c ≡ some col
            → get {E = E} b' (pos idx) col (pos i) r
              ≡ returned (if ltb_ℤ r seq then none else get_or (get_or rows i []) c none))
  unfolding alloc_current_data
  get-alloc_current_data b [] cols h g s q = (b, refl, λ i c col r l e. absurd (omega arith))
  get-alloc_current_data {E} b (row ∷ rows) cols h g s q =
      let (b', e, w) =
        alloc_rows-RowsWrote {E = E} b 0 cols (row ∷ rows) (h, g) s q (λ c col e. omega arith) in
      (
        b',
        ground arith,
        λ i c col r l k.
            get-cells b' col i (get_or (get_or (row ∷ rows) i []) c none) r w.plans
              (omega (arith, w.long c col k)) (from_zero b' rows row cols w i c col l k),
      )
