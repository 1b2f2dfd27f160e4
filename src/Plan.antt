-- ===== src/Plan.antt =====
-- cmd/oncecall_sync/plan: the plan of a script, which reads rows from some databases into a buffer and
-- writes parameters made of them to its own. Here the buffer (plan_buffer.go); below, script_plan.go.
pub mod Config
pub mod Store
use oncecall.Prelude.{
  ℕ, zero, suc, ◌%◌, ◌+◌, ◌*◌, Bool, true, false, Option, none, some, List, [], ◌∷◌, ltb, leb,
  if◌then◌else◌, length, get_elem?, get_or, set, copy, replicate, max, ℤ, pos, pos_part, neg_part,
  ltb_ℤ, i64, sub64, String, str_dec, Dict, lookup, put, ◌==◌,
}
use oncecall.Prelude.Outcome.{Outcome, returned, failed, panicked, ◌>>=◌}

pub record Cell (A : Type 0) : Type 0 where
  pub data_ : Option A
  pub seq : ℤ

abbrev pub Columns : Type 0 → Type 0
Columns A = Dict String (List (Cell A))

-- planParamBuffer; `row_cap` is not negative (a negative one panics in make).
pub record ParamBuffer (A : Type 0) : Type 0 where
  pub m : List (Columns A)
  pub row_cap : ℕ
  pub row_idle_sec : ℤ

-- The errors of the package; `source` is one that a connection or a VM gave.
pub data Error (E : Type 0) : Type 0 where
  source : E → Error E
  out_len overflow not_number not_setting sentinel not_matching : Error E

abbrev pub zero_cell : {A : Type 0} → Cell A
zero_cell = record { data_ = none; seq = pos 0 }

pub new_plan_param_buffer : {A : Type 0} → ℕ → ℕ → ℤ → ParamBuffer A
new_plan_param_buffer count row_init_cap row_idle_sec = record {
  m = replicate count [];
  row_cap = row_init_cap;
  row_idle_sec = row_idle_sec;
}

module _ {A : Type 0} where
  abbrev pub or_nil : Option (List (Cell A)) → List (Cell A)
  or_nil none = []
  or_nil (some cells) = cells

  abbrev pub column : String → Columns A → List (Cell A)
  column col m = or_nil (lookup str_dec col m)

  -- int64(time.Second * idle), where 60 stands for a setting that is not positive.
  abbrev pub idle_time : ParamBuffer A → ℤ
  idle_time b = i64 (
      (if ltb_ℤ (pos 0) b.row_idle_sec then pos_part b.row_idle_sec else 60)
      * 1000000000
      % 0x10000000000000000)

  -- The seq of planMap[col][len-1].
  abbrev pub last_seq : List (Cell A) → ℤ
  last_seq [] = pos 0
  last_seq (c ∷ []) = c.seq
  last_seq (c ∷ (d ∷ cells)) = last_seq (d ∷ cells)

  -- The column before the write: grown, cut when it is idle, or as it was.
  pub resize : ParamBuffer A → List (Cell A) → ℕ → ℤ → List (Cell A)
  resize b cells row seq =
      if leb (length cells) row
      then copy (replicate (length cells + b.row_cap) zero_cell) cells
      else if ltb_ℤ (idle_time b) (sub64 seq (last_seq cells))
      then copy (replicate (row + b.row_cap) zero_cell) cells
      else cells

  abbrev pub longest : Columns A → ℕ
  longest [] = 0
  longest ((col, cells) ∷ m) = max (length cells) (longest m)

module _ {E A : Type 0} where
  abbrev visible : ℤ → Option (Cell A) → Outcome (Error E) (Option A)
  visible seq none = panicked
  visible seq (some cell) = returned (if ltb_ℤ seq cell.seq then none else cell.data_)

  -- A negative index is not caught by the guard and panics at the slice.
  pub get_row : List (Cell A) → ℤ → ℤ → Outcome (Error E) (Option A)
  get_row cells row seq =
      if ltb_ℤ row (pos 0)
      then panicked
      else if leb (length cells) (pos_part row)
      then failed out_len
      else visible seq (get_elem? cells (pos_part row))

  pub get : ParamBuffer A → ℤ → String → ℤ → ℤ → Outcome (Error E) (Option A)
  unfolding get_row
  get b idx col row seq =
      if ltb_ℤ idx (pos 0)
      then panicked
      else if leb (length b.m) (pos_part idx)
      then returned none
      else get_row (column col (get_or b.m (pos_part idx) [])) row seq

  -- planMap[col][row] = …: an index past the end panics.
  pub set_row : List (Cell A) → ℕ → Option A → ℤ → Outcome (Error E) (List (Cell A))
  set_row cells row data_ seq =
      if ltb row (length cells)
      then returned (set cells row (record { data_ = data_; seq = seq }))
      else panicked

  -- The callers' `idx` and `row` are loop indexes.
  pub set_cell : ParamBuffer A → ℕ → String → ℕ → Option A → ℤ → Outcome (Error E) (ParamBuffer A)
  unfolding resize set_row
  set_cell b idx col row data_ seq =
      if leb (length b.m) idx
      then failed overflow
      else (set_row (resize b (column col (get_or b.m idx [])) row seq) row data_ seq >>= λ cells.
          returned (record b { m = set b.m idx (put str_dec col cells (get_or b.m idx [])) }))

  pub max_col_size : ParamBuffer A → ℕ → Outcome (Error E) ℕ
  max_col_size b idx =
      if leb (length b.m) idx then failed overflow else returned (length (get_or b.m idx []))

  pub max_row_size : ParamBuffer A → ℕ → Outcome (Error E) ℕ
  max_row_size b idx =
      if leb (length b.m) idx then failed overflow else returned (longest (get_or b.m idx []))

  -- The loop of maxSize over `n` plans from `idx` on.
  pub max_size_loop : ParamBuffer A → ℕ → ℕ → ℕ × ℕ → Outcome (Error E) (ℕ × ℕ)
  unfolding max_col_size max_row_size
  max_size_loop b idx zero best = returned best
  max_size_loop b idx (suc n) best = max_col_size b idx >>= λ c.
      max_row_size b idx >>= λ r. max_size_loop b (suc idx) n (max best.0 c, max best.1 r)

  pub max_size : ParamBuffer A → Outcome (Error E) (ℕ × ℕ)
  unfolding max_size_loop
  max_size b = max_size_loop b 0 (length b.m) (0, 0)
