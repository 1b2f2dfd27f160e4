-- ===== src/Plan/Config/Alloc.antt =====
-- allocCurrentDataToState of script_plan.go: the rows that were read go into the buffer.
pub mod Row
pub mod Readback
use oncecall.Prelude.{
  ℕ, zero, suc, ◌+◌, ◌≤◌, ◌<◌, ◌≡◌, ◌≢◌, refl, inl, inr, ◌⊎◌, sym, ap, ◌∙◌, subst, Bool, true,
  false, Option, none, some, List, [], ◌∷◌, arith, ltb, leb, ◌==◌, if◌then◌else◌, length, get_elem?,
  get_or, ℤ, pos, pos_part, neg_part, ltb_ℤ, String, str_dec,
}
use oncecall.Prelude.Outcome.{Outcome, returned, failed, panicked, ◌>>=◌}
use oncecall.Plan.{
  Cell, ParamBuffer, Error, not_matching, zero_cell, get_row, get, visible, set_cell,
}
use oncecall.Plan.Store.{cells_of, made, Wrote, set_cell-Wrote}
use oncecall.Plan.Config.{Rows}

module _ {E A : Type 0} where
  -- One row: a cell past the last name panics. `set` fails only for the plan's index, before anything is
  -- written, so that no half of a row stays behind an error.
  pub alloc_row :
      ParamBuffer A → ℕ → ℕ → List String → List (Option A) → ℤ → Outcome (Error E) (ParamBuffer A)
  alloc_row b idx row_idx cols [] seq = returned b
  alloc_row b idx row_idx [] (data_ ∷ row) seq = panicked
  alloc_row b idx row_idx (col ∷ cols) (data_ ∷ row) seq =
      set_cell b idx col row_idx data_ seq >>= λ b'. alloc_row b' idx row_idx cols row seq

  pub alloc_rows :
      ParamBuffer A → ℕ → ℕ → List String → Rows A → ℤ → Outcome (Error E) (ParamBuffer A)
  alloc_rows b idx row_idx cols [] seq = returned b
  alloc_rows b idx row_idx cols (row ∷ rows) seq =
      alloc_row b idx row_idx cols row seq >>= λ b'. alloc_rows b' idx (suc row_idx) cols rows seq

  -- Only the first row is compared with the names.
  pub alloc_current_data :
      ParamBuffer A → ℕ → Rows A → List String → ℤ → Outcome (Error E) (ParamBuffer A)
  unfolding alloc_rows
  alloc_current_data b idx [] cols seq = returned b
  alloc_current_data b idx (row ∷ rows) cols seq =
      if length row == length cols
      then alloc_rows b idx 0 cols (row ∷ rows) seq
      else failed not_matching
