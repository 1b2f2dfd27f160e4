-- ===== src/Quotes/Any.antt =====
-- connpool/internal/utils/common.go: SplitRespectQuotesAny, the second copy of the loop, whose words are
-- stored as `any`.
pub mod Agree
use oncecall.Prelude.{ℕ, Bool, true, false, ◌&&◌, not, List, [], ◌∷◌, ◌++◌, ◌==◌, if◌then◌else◌}
use oncecall.Quotes.{double_quote, single_quote, space}

module _ {A : Type 0} (any : List ℕ → A) where
  pub record ScanAny : Type 0 where
    pub result : List A
    pub current : List ℕ
    pub in_double : Bool
    pub in_single : Bool

  abbrev pub flush_any : List A → List ℕ → List A
  flush_any result [] = result
  flush_any result (r ∷ current) = result ++ any (r ∷ current) ∷ []

  pub step_any : ScanAny → ℕ → ScanAny
  step_any s r =
      if r == double_quote && not s.in_single
      then record s { in_double = not s.in_double }
      else if r == single_quote && not s.in_double
      then record s { in_single = not s.in_single }
      else if r == space && (not s.in_double && not s.in_single)
      then record s { result = flush_any s.result s.current; current = [] }
      else record s { current = s.current ++ r ∷ [] }

  pub scan_any : ScanAny → List ℕ → ScanAny
  unfolding step_any
  scan_any s [] = s
  scan_any s (r ∷ rest) = scan_any (step_any s r) rest

  abbrev pub start_any : ScanAny
  start_any = record { result = []; current = []; in_double = false; in_single = false }

  pub split_respect_quotes_any : List ℕ → List A
  unfolding scan_any
  split_respect_quotes_any text = let s = scan_any start_any text in flush_any s.result s.current
