-- ===== src/Fields/Count.antt =====
-- The three walks over a line of sh_conn.go see the same fields.
use oncecall.Prelude.{
  ℕ, zero, suc, ◌+◌, ◌-◌, ◌≡◌, refl, inl, inr, ◌⊎◌, Bool, false, not, List, [], ◌∷◌, ◌++◌, arith,
  length,
}
use oncecall.Fields.{
  Action, toggle, separate, keep, action, fields, split_line, fields_keep, split_line_keep_quote,
  count_loop, count_fields,
}

Action-cases : (a : Action) → (a ≡ toggle) ⊎ ((a ≡ separate) ⊎ (a ≡ keep))
Action-cases toggle = inl refl
Action-cases separate = inr (inl refl)
Action-cases keep = inr (inr refl)

module _ (sep : List ℕ) where
  count_loop_lem :
      (count skip : ℕ) (in_quote : Bool) (field kept line : List ℕ)
      → (count_loop sep count skip in_quote line + 1
          ≡ count + length (fields sep skip in_quote field line))
        × (count_loop sep count skip in_quote line + 1
            ≡ count + length (fields_keep sep skip in_quote kept line))
  unfolding count_loop fields fields_keep
  count_loop_lem count skip in_quote field kept [] = (omega arith, omega arith)
  count_loop_lem count (suc skip) in_quote field kept (b ∷ line) =
      count_loop_lem count skip in_quote field kept line
  count_loop_lem count zero in_quote field kept (b ∷ line) =
      elim (Action-cases (action sep in_quote b line)) [
        | inl t ↦ ground (arith, count_loop_lem count 0 (not in_quote) field (kept ++ b ∷ []) line)
        | inr (inl s) ↦
            ground (arith, count_loop_lem (suc count) (length sep - 1) in_quote [] [] line)
        | inr (inr k) ↦
            ground (arith, count_loop_lem count 0 in_quote (field ++ b ∷ []) (kept ++ b ∷ []) line)
      ]

  -- countFields is the number of fields that splitLine makes, and that splitLineKeepQuote makes: a row of
  -- that many cells has a place for each field.
  pub count_fields-split_line :
      (line : List ℕ)
      → (count_fields sep line ≡ length (split_line sep line))
        × (count_fields sep line ≡ length (split_line_keep_quote sep line))
  unfolding count_fields split_line split_line_keep_quote
  count_fields-split_line line = omega (arith, count_loop_lem 1 0 false [] [] line)
