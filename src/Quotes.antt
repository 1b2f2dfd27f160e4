-- ===== src/Quotes.antt =====
-- connpool/internal/utils/common.go: the split of a command line at the spaces outside its quotes. A
-- text is the list of its code points.
pub mod Words
pub mod Any
pub mod Tests
use oncecall.Prelude.{ℕ, Bool, true, false, ◌&&◌, not, List, [], ◌∷◌, ◌++◌, ◌==◌, if◌then◌else◌}

-- The variables of the loop.
pub record Scan : Type 0 where
  pub result : List (List ℕ)
  pub current : List ℕ
  pub in_double : Bool
  pub in_single : Bool

abbrev pub double_quote : ℕ
double_quote = 34

abbrev pub single_quote : ℕ
single_quote = 39

abbrev pub space : ℕ
space = 32

-- if len(current) > 0 { result = append(result, string(current)) }
abbrev pub flush : List (List ℕ) → List ℕ → List (List ℕ)
flush result [] = result
flush result (r ∷ current) = result ++ (r ∷ current) ∷ []

-- The switch; a quote inside quotes of the other kind, and a space inside quotes, are kept.
pub step : Scan → ℕ → Scan
step s r =
    if r == double_quote && not s.in_single
    then record s { in_double = not s.in_double }
    else if r == single_quote && not s.in_double
    then record s { in_single = not s.in_single }
    else if r == space && (not s.in_double && not s.in_single)
    then record s { result = flush s.result s.current; current = [] }
    else record s { current = s.current ++ r ∷ [] }

pub scan : Scan → List ℕ → Scan
unfolding step
scan s [] = s
scan s (r ∷ rest) = scan (step s r) rest

abbrev pub start : Scan
start = record { result = []; current = []; in_double = false; in_single = false }

-- SplitRespectQuotesStr
pub split_respect_quotes : List ℕ → List (List ℕ)
unfolding scan
split_respect_quotes text = let s = scan start text in flush s.result s.current
