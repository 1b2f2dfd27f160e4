-- ===== src/Quotes/Any/Agree.antt =====
-- The two copies of the split in common.go agree.
use oncecall.Prelude.{ℕ, ◌≡◌, refl, sym, ap, ◌∙◌, List, [], ◌∷◌, ◌++◌, map, arith}
use oncecall.Quotes.{Scan, flush, step, scan, start, split_respect_quotes}
use oncecall.Quotes.Any.{ScanAny, flush_any, step_any, scan_any, split_respect_quotes_any}

module _ {A : Type 0} (any : List ℕ → A) where
  map-append : (xs ys : List (List ℕ)) → map any (xs ++ ys) ≡ map any xs ++ map any ys
  map-append [] ys = refl
  map-append (x ∷ xs) ys = ap (λ l. any x ∷ l) (map-append xs ys)

  flush_any-map :
      (result : List (List ℕ)) (current : List ℕ)
      → flush_any any (map any result) current ≡ map any (flush result current)
  flush_any-map result [] = refl
  flush_any-map result (r ∷ current) = sym (map-append result ((r ∷ current) ∷ []))

  abbrev boxed : Scan → ScanAny any
  boxed s = record {
    result = map any s.result;
    current = s.current;
    in_double = s.in_double;
    in_single = s.in_single;
  }

  step_any-boxed : (s : Scan) (r : ℕ) → step_any any (boxed s) r ≡ boxed (step s r)
  unfolding step_any step
  step_any-boxed s r = ground (arith, flush_any-map s.result s.current)

  scan_any-boxed : (s : Scan) (text : List ℕ) → scan_any any (boxed s) text ≡ boxed (scan s text)
  unfolding scan_any scan
  scan_any-boxed s [] = refl
  scan_any-boxed s (r ∷ text) =
      ap (λ t. scan_any any t text) (step_any-boxed s r) ∙ scan_any-boxed (step s r) text

  -- SplitRespectQuotesAny gives the words that SplitRespectQuotesStr gives, each as an `any`.
  pub split_respect_quotes_any-map :
      (text : List ℕ) → split_respect_quotes_any any text ≡ map any (split_respect_quotes text)
  unfolding split_respect_quotes_any split_respect_quotes
  split_respect_quotes_any-map text =
      ap (λ s. flush_any any s.result s.current) (scan_any-boxed start text)
      ∙ flush_any-map (scan start text).result (scan start text).current
