-- ===== src/Quotes/Tests.antt =====
-- The split of common.go on one line.
use oncecall.Prelude.{◌≡◌, List, [], ◌∷◌, ℕ, arith}
use oncecall.Quotes.{split_respect_quotes}
use oncecall.Quotes.Words.{line, split_respect_quotes-line}

-- "a b" "c'"
abbrev words : List (List ℕ)
words = (97 ∷ 32 ∷ 98 ∷ []) ∷ (99 ∷ 39 ∷ []) ∷ []

split_respect_quotes-line_example : split_respect_quotes (line words) ≡ words
split_respect_quotes-line_example = split_respect_quotes-line words (
  ((λ e. cc), ((λ e. omega arith), ((λ e. omega arith), ((λ e. omega arith), tt)))),
  (((λ e. cc), ((λ e. omega arith), ((λ e. omega arith), tt))), tt),
)
