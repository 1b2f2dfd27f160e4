-- ===== src/Fields.antt =====
-- connpool/internal/utils/sh_conn.go: how the answer of a shell is cut into fields. A line is the list of
-- its bytes; `skip` counts the bytes of a separator that the loop has still to pass (i += len(sep) - 1).
pub mod Count
pub mod Response
pub mod Tests
use oncecall.Prelude.{
  ℕ, zero, suc, ◌+◌, ◌-◌, Bool, true, false, ◌&&◌, not, List, [], ◌∷◌, ◌++◌, ◌==◌, if◌then◌else◌,
  length, Option, none, some, set, ltb, max, replicate, map,
}
use oncecall.Prelude.Partial.{◌>>=◌}

abbrev pub quote : ℕ
quote = 34

-- strings.HasPrefix
abbrev pub has_prefix : List ℕ → List ℕ → Bool
has_prefix line [] = true
has_prefix [] (s ∷ sep) = false
has_prefix (b ∷ line) (s ∷ sep) = b == s && has_prefix line sep

-- What a byte is, outside a separator.
pub data Action : Type 0 where
  toggle separate keep : Action

abbrev pub action : List ℕ → Bool → ℕ → List ℕ → Action
action sep in_quote b line =
    if b == quote
    then toggle
    else if not in_quote && has_prefix (b ∷ line) sep
    then separate
    else keep

module _ (sep : List ℕ) where
  -- The loop of splitLine: quotes are left out.
  pub fields : ℕ → Bool → List ℕ → List ℕ → List (List ℕ)
  fields skip in_quote field [] = field ∷ []
  fields (suc skip) in_quote field (b ∷ line) = fields skip in_quote field line
  fields zero in_quote field (b ∷ line) = elim (action sep in_quote b line) [
    | toggle ↦ fields 0 (not in_quote) field line
    | separate ↦ field ∷ fields (length sep - 1) in_quote [] line
    | keep ↦ fields 0 in_quote (field ++ b ∷ []) line
  ]

  pub split_line : List ℕ → List (List ℕ)
  unfolding fields
  split_line line = fields 0 false [] line

  -- The loop of splitLineKeepQuote.
  pub fields_keep : ℕ → Bool → List ℕ → List ℕ → List (List ℕ)
  fields_keep skip in_quote field [] = field ∷ []
  fields_keep (suc skip) in_quote field (b ∷ line) = fields_keep skip in_quote field line
  fields_keep zero in_quote field (b ∷ line) = elim (action sep in_quote b line) [
    | toggle ↦ fields_keep 0 (not in_quote) (field ++ b ∷ []) line
    | separate ↦ field ∷ fields_keep (length sep - 1) in_quote [] line
    | keep ↦ fields_keep 0 in_quote (field ++ b ∷ []) line
  ]

  pub split_line_keep_quote : List ℕ → List (List ℕ)
  unfolding fields_keep
  split_line_keep_quote line = fields_keep 0 false [] line

  -- The loop of countFields.
  pub count_loop : ℕ → ℕ → Bool → List ℕ → ℕ
  count_loop count skip in_quote [] = count
  count_loop count (suc skip) in_quote (b ∷ line) = count_loop count skip in_quote line
  count_loop count zero in_quote (b ∷ line) = elim (action sep in_quote b line) [
    | toggle ↦ count_loop count 0 (not in_quote) line
    | separate ↦ count_loop (suc count) (length sep - 1) in_quote line
    | keep ↦ count_loop count 0 in_quote line
  ]

  pub count_fields : List ℕ → ℕ
  unfolding count_loop
  count_fields line = count_loop 1 0 false line

-- The rows of a response; `none` is nil, and a call without a result panicked.
abbrev pub Rows : Type 0
Rows = List (List (Option (List ℕ)))

-- for dIdx, data := range … { res[idx][dIdx] = data }
pub fill : List (Option (List ℕ)) → ℕ → List (List ℕ) → Option (List (Option (List ℕ)))
fill row i [] = some row
fill row i (f ∷ fs) =
    let rest = fill (set row i (some f)) (suc i) fs in if ltb i (length row) then rest else none

-- The largest number of fields of a line.
pub max_fields : List ℕ → List (List ℕ) → ℕ
unfolding count_fields
max_fields sep [] = 0
max_fields sep (line ∷ lines) = max (count_fields sep line) (max_fields sep lines)

abbrev pub at_least_one : ℕ → ℕ
at_least_one zero = 1
at_least_one (suc n) = suc n

pub fill_rows : List ℕ → ℕ → List (List ℕ) → Option Rows
unfolding fill split_line
fill_rows sep n [] = some []
fill_rows sep n (line ∷ lines) = fill (replicate n none) 0 (split_line sep line) >>= λ row.
    fill_rows sep n lines >>= λ rows. some (row ∷ rows)

-- strconv.Itoa(idx + 1) for every row.
pub numbers : (ℕ → List ℕ) → ℕ → ℕ → List (List ℕ)
numbers itoa from zero = []
numbers itoa from (suc n) = itoa from ∷ numbers itoa (suc from) n

abbrev pub parse_lines : List ℕ → List (List ℕ) → Option Rows
parse_lines [] lines = some (map (λ line. some line ∷ []) lines)
parse_lines (s ∷ sep) lines = fill_rows (s ∷ sep) (at_least_one (max_fields (s ∷ sep) lines)) lines

-- ParseResponse; `itoa` is the text of a number.
pub parse_response : (ℕ → List ℕ) → List ℕ → List ℕ → List ℕ → Option (Rows × List (List ℕ))
unfolding split_line_keep_quote
parse_response itoa data_ newline sep =
    parse_lines sep (split_line_keep_quote newline data_) >>= λ rows.
    some (rows, numbers itoa 1 (length rows))
