-- ===== src/Quotes/Words.antt =====
-- What the split of common.go makes of a line of quoted words.
use oncecall.Prelude.{
  ℕ, ◌≡◌, ◌≢◌, refl, sym, ap, ◌∙◌, Bool, true, false, List, [], ◌∷◌, ◌++◌, arith,
}
use oncecall.Quotes.{Scan, double_quote, space, flush, step, scan, split_respect_quotes}

append_assoc : {A : Type 0} (xs ys zs : List A) → (xs ++ ys) ++ zs ≡ xs ++ (ys ++ zs)
append_assoc [] ys zs = refl
append_assoc (x ∷ xs) ys zs = ap (λ l. x ∷ l) (append_assoc xs ys zs)

append_nil : {A : Type 0} (xs : List A) → xs ++ [] ≡ xs
append_nil [] = refl
append_nil (x ∷ xs) = ap (λ l. x ∷ l) (append_nil xs)

-- No double quote in the word.
abbrev pub Plain : List ℕ → Type 0
Plain [] = Unit
Plain (r ∷ w) = (r ≢ double_quote) × Plain w

abbrev pub AllPlain : List (List ℕ) → Type 0
AllPlain [] = Unit
AllPlain (w ∷ words) = ((w ≢ []) × Plain w) × AllPlain words

abbrev pub quote : List ℕ → List ℕ
quote w = double_quote ∷ (w ++ double_quote ∷ [])

-- The quoted words, a space after each.
abbrev pub line : List (List ℕ) → List ℕ
line [] = []
line (w ∷ words) = quote w ++ (space ∷ line words)

abbrev state : List (List ℕ) → List ℕ → Bool → Scan
state result current in_double = record {
  result = result;
  current = current;
  in_double = in_double;
  in_single = false;
}

step-plain :
    (result : List (List ℕ)) (current : List ℕ) (r : ℕ)
    → r ≢ double_quote
    → step (state result current true) r ≡ state result (current ++ r ∷ []) true
unfolding step
step-plain result current r h = ground arith

scan-word :
    (result : List (List ℕ)) (current w rest : List ℕ)
    → Plain w
    → scan (state result current true) (w ++ rest) ≡ scan (state result (current ++ w) true) rest
unfolding scan
scan-word result current [] rest h =
    ap (λ c. scan (state result c true) rest) (sym (append_nil current))
scan-word result current (r ∷ w) rest h =
    ap (λ s. scan s (w ++ rest)) (step-plain result current r h.0)
    ∙ scan-word result (current ++ r ∷ []) w rest h.1
    ∙ ap (λ c. scan (state result c true) rest) (append_assoc current (r ∷ []) w)

step-open :
    (result : List (List ℕ)) → step (state result [] false) double_quote ≡ state result [] true
unfolding step
step-open result = refl

step-close :
    (result : List (List ℕ)) (w : List ℕ)
    → step (state result w true) double_quote ≡ state result w false
unfolding step
step-close result w = refl

step-space :
    (result : List (List ℕ)) (w : List ℕ)
    → w ≢ []
    → step (state result w false) space ≡ state (result ++ w ∷ []) [] false
unfolding step
step-space result [] h = absurd (h refl)
step-space result (r ∷ w) h = refl

scan-quoted :
    (result : List (List ℕ)) (w rest : List ℕ)
    → w ≢ []
    → Plain w
    → scan (state result [] false) (quote w ++ (space ∷ rest))
      ≡ scan (state (result ++ w ∷ []) [] false) rest
unfolding scan
scan-quoted result w rest n h =
    ap (λ s. scan s ((w ++ double_quote ∷ []) ++ (space ∷ rest))) (step-open result)
    ∙ ap (scan (state result [] true)) (append_assoc w (double_quote ∷ []) (space ∷ rest))
    ∙ scan-word result [] w (double_quote ∷ (space ∷ rest)) h
    ∙ ap (λ s. scan s (space ∷ rest)) (step-close result w)
    ∙ ap (λ s. scan s rest) (step-space result w n)

scan-line :
    (result words : List (List ℕ))
    → AllPlain words
    → scan (state result [] false) (line words) ≡ state (result ++ words) [] false
unfolding scan
scan-line result [] h = ap (λ l. state l [] false) (sym (append_nil result))
scan-line result (w ∷ words) h =
    scan-quoted result w (line words) h.0.0 h.0.1
    ∙ scan-line (result ++ w ∷ []) words h.1
    ∙ ap (λ l. state l [] false) (append_assoc result (w ∷ []) words)

-- A line of words in double quotes, each followed by a space, is split into those words, spaces and
-- single quotes in them included, if none is empty or holds a double quote.
pub split_respect_quotes-line :
    (words : List (List ℕ)) → AllPlain words → split_respect_quotes (line words) ≡ words
unfolding split_respect_quotes
split_respect_quotes-line words h = ap (λ s. flush s.result s.current) (scan-line [] words h)
