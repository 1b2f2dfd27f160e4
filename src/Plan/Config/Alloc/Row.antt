-- ===== src/Plan/Config/Alloc/Row.antt =====
-- One row of allocCurrentDataToState (script_plan.go) in the buffer.
use oncecall.Prelude.{
  ℕ, zero, suc, ◌≤◌, ◌<◌, ◌≡◌, ◌≢◌, refl, ◌∙◌, Option, none, some, List, [], ◌∷◌, arith, length,
  get_elem?, get_or, ℤ, String, str_dec,
}
use oncecall.Prelude.Outcome.{returned}
use oncecall.Plan.{ParamBuffer, zero_cell}
use oncecall.Plan.Store.{cells_of, made, Wrote, set_cell-Wrote}
use oncecall.Plan.Config.{Rows}
use oncecall.Plan.Config.Alloc.{alloc_row}

-- No name stands twice.
abbrev pub Absent : List String → String → Type 0
Absent [] col = Unit
Absent (x ∷ cols) col = (x ≢ col) × Absent cols col

abbrev pub Separate : List String → Type 0
Separate [] = Unit
Separate (x ∷ cols) = Absent cols x × Separate cols

abbrev pub Rectangular : {A : Type 0} → ℕ → Rows A → Type 0
Rectangular n [] = Unit
Rectangular n (row ∷ rows) = (length row ≡ n) × Rectangular n rows

Absent-get_elem? :
    (cols : List String) (col : String) (c : ℕ) (other : String)
    → Absent cols col
    → get_elem? cols c ≡ some other
    → col ≢ other
Absent-get_elem? [] col c other h e = cc
Absent-get_elem? (x ∷ cols) col zero other h e = λ p. h.0 (ground arith)
Absent-get_elem? (x ∷ cols) col (suc c) other h e = Absent-get_elem? cols col c other h.1 e

pub get_elem?-get_or :
    {B : Type 0} (xs : List B) (i : ℕ) (z : B)
    → i < length xs
    → get_elem? xs i ≡ some (get_or xs i z)
get_elem?-get_or [] i z h = absurd (omega arith)
get_elem?-get_or (x ∷ xs) zero z h = refl
get_elem?-get_or (x ∷ xs) (suc i) z h = get_elem?-get_or xs i z (omega arith)

module _ {A : Type 0} (idx : ℕ) (seq : ℤ) where
  -- The columns have their first `n` rows.
  abbrev pub Long : ParamBuffer A → ℕ → List String → Type 0
  Long b n cols =
      (c : ℕ) (col : String) → get_elem? cols c ≡ some col → n ≤ length (cells_of b idx col)

  abbrev pub Ready : ParamBuffer A → Type 0
  Ready b = (idx < length b.m) × (0 < b.row_cap)

  -- What a row that was stored leaves.
  pub record RowWrote (b b' : ParamBuffer A) (n : ℕ) (cols : List String) (row : List (Option A))
      : Type 0 where
    pub ready : Ready b'
    pub long : Long b' (suc n) cols
    pub cell :
        (c : ℕ) (col : String)
        → get_elem? cols c ≡ some col
        → get_or (cells_of b' idx col) n zero_cell ≡ made (get_or row c none) seq
    pub above :
        (j : ℕ) (col : String)
        → j < n
        → get_or (cells_of b' idx col) j zero_cell ≡ get_or (cells_of b idx col) j zero_cell
    pub others : (col : String) → Absent cols col → cells_of b' idx col ≡ cells_of b idx col

  cons-Long :
      (b b1 b2 : ParamBuffer A) (n : ℕ) (x : String) (cols : List String) (d : Option A)
      (row : List (Option A))
      → Absent cols x
      → Wrote b b1 idx x n d seq
      → RowWrote b1 b2 n cols row
      → Long b2 (suc n) (x ∷ cols)
  cons-Long b b1 b2 n x cols d row h w v zero col e = ground (arith, w.long, v.others x h)
  cons-Long b b1 b2 n x cols d row h w v (suc c) col e = v.long c col e

  cons_cell :
      (b b1 b2 : ParamBuffer A) (n : ℕ) (x : String) (cols : List String) (d : Option A)
      (row : List (Option A))
      → Absent cols x
      → Wrote b b1 idx x n d seq
      → RowWrote b1 b2 n cols row
      → (c : ℕ) (col : String) → get_elem? (x ∷ cols) c ≡ some col
      → get_or (cells_of b2 idx col) n zero_cell ≡ made (get_or (d ∷ row) c none) seq
  cons_cell b b1 b2 n x cols d row h w v zero col e = ground (arith, w.cell, v.others x h)
  cons_cell b b1 b2 n x cols d row h w v (suc c) col e = v.cell c col e

  -- The first cell of a row, then the rest of it.
  cons_RowWrote :
      (b b1 b2 : ParamBuffer A) (n : ℕ) (x : String) (cols : List String) (d : Option A)
      (row : List (Option A))
      → Absent cols x
      → Wrote b b1 idx x n d seq
      → RowWrote b1 b2 n cols row
      → RowWrote b b2 n (x ∷ cols) (d ∷ row)
  cons_RowWrote b b1 b2 n x cols d row h w v = record {
    ready = v.ready;
    long = cons-Long b b1 b2 n x cols d row h w v;
    cell = cons_cell b b1 b2 n x cols d row h w v;
    above = λ j col l. elim (str_dec x col) [
      | yes p ↦ ground (arith, v.above j col l, w.above j l)
      | no ne ↦ ground (arith, v.above j col l, w.others col ne)
    ];
    others = λ col a. v.others col a.1 ∙ w.others col a.0;
  }

  pub alloc_row-RowWrote :
      {E : Type 0} (b : ParamBuffer A) (n : ℕ) (cols : List String) (row : List (Option A))
      → Ready b
      → Separate cols
      → length row ≡ length cols
      → Long b n cols
      → (b' : ParamBuffer A) × (alloc_row {E = E} b idx n cols row seq ≡ returned b')
        × RowWrote b b' n cols row
  unfolding alloc_row
  alloc_row-RowWrote b n [] [] r s l k = (
    b,
    refl,
    record {
      ready = r;
      long = λ c col e. cc;
      cell = λ c col e. cc;
      above = λ j col h. refl;
      others = λ col h. refl;
    },
  )
  alloc_row-RowWrote b n [] (d ∷ row) r s l k = absurd (omega arith)
  alloc_row-RowWrote b n (x ∷ cols) [] r s l k = absurd (omega arith)
  alloc_row-RowWrote {E} b n (x ∷ cols) (d ∷ row) r s l k =
      let (b1, e1, w) = set_cell-Wrote {E = E} b idx x n d seq r.0 (k 0 x refl) r.1 in
      let keep = λ (c : ℕ) (col : String) (e : get_elem? cols c ≡ some col).
        w.others col (Absent-get_elem? cols x c col s.0 e) in
      let k1 : Long b1 n cols = λ c col e. ground (arith, keep c col e, k (suc c) col e) in
      let (b2, e2, v) =
        alloc_row-RowWrote {E = E} b1 n cols row
          (omega (arith, r.0, w.plans), omega (arith, r.1, w.cap)) s.1 (omega arith) k1 in
      (b2, ground arith, cons_RowWrote b b1 b2 n x cols d row s.0 w v)
