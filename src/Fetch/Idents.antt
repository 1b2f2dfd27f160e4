-- ===== src/Fetch/Idents.antt =====
-- DBListIdent of entry/master/db_fetcher.go.
use oncecall.Prelude.{
  ◌≡◌, ◌≢◌, refl, ap, ◌∙◌, ◌↔◌, inl, inr, Option, none, some, List, [], ◌∷◌, map, length, arith,
  String,
}
use oncecall.Prelude.Outcome.{
  Outcome, returned, failed, panicked, ◌>>=◌, Outcome-cases, >>=-returned,
}
use oncecall.Plan.Config.{Rows}
use oncecall.Fetch.{
  Value, str, int, other, Manage, Error, row_length, not_matching, args_of, decoded,
}

-- The row that holds just an ident.
abbrev pub row_of : String → List (Option Value)
row_of s = some (str s) ∷ []

module _ {E : Type 0} where
  -- Here the message prints the cell, and nil is an error.
  abbrev shown : Option Value → Outcome (Error E) String
  shown none = failed not_matching
  shown (some (str s)) = returned s
  shown (some (int n)) = failed not_matching
  shown (some other) = failed not_matching

  -- The test of a row's length, and its one cell.
  pub ident_of : List (Option Value) → Outcome (Error E) String
  ident_of [] = failed (row_length 0)
  ident_of (cell ∷ []) = shown cell
  ident_of (cell ∷ more ∷ row) = failed (row_length (length (cell ∷ more ∷ row)))

  -- The loop over the rows.
  pub idents : Rows Value → Outcome (Error E) (List String)
  unfolding ident_of
  idents [] = returned []
  idents (row ∷ rows) = ident_of row >>= λ s. idents rows >>= λ l. returned (s ∷ l)

  pub db_list_ident : (x : Manage E) → String → x.W → Outcome (Error E) (List String) × x.W
  unfolding idents
  db_list_ident x query w = decoded idents (x.run_query (args_of query []) w)

  ident_of-row_of :
      (row : List (Option Value)) (s : String) → ident_of row ≡ returned s → row ≡ row_of s
  unfolding ident_of
  ident_of-row_of [] s h = cc
  ident_of-row_of (none ∷ []) s h = cc
  ident_of-row_of (some (str t) ∷ []) s h = cc
  ident_of-row_of (some (int n) ∷ []) s h = cc
  ident_of-row_of (some other ∷ []) s h = cc
  ident_of-row_of (cell ∷ more ∷ row) s h = cc

  idents-map : (l : List String) → idents (map row_of l) ≡ returned l
  unfolding idents ident_of
  idents-map [] = refl
  idents-map (s ∷ l) = rw (idents-map l)

  idents_only :
      (rows : Rows Value) (l : List String) → idents rows ≡ returned l → rows ≡ map row_of l
  unfolding idents
  idents_only [] l h = cc
  idents_only (row ∷ rows) l h =
      let (s, a, b) = >>=-returned (ident_of row) (λ t. idents rows >>= λ k. returned (t ∷ k)) h in
      let (k, c, d) = >>=-returned (idents rows) (λ k. returned (s ∷ k)) b in
      let p = ident_of-row_of row s a in let q = idents_only rows k c in cc

  ident_of_total : (row : List (Option Value)) → ident_of row ≢ panicked
  unfolding ident_of
  ident_of_total [] h = cc
  ident_of_total (none ∷ []) h = cc
  ident_of_total (some (str t) ∷ []) h = cc
  ident_of_total (some (int n) ∷ []) h = cc
  ident_of_total (some other ∷ []) h = cc
  ident_of_total (cell ∷ more ∷ row) h = cc

  idents_total : (rows : Rows Value) → idents rows ≢ panicked
  unfolding idents
  idents_total [] h = cc
  idents_total (row ∷ rows) h = elim (Outcome-cases (ident_of row)) [
    | inl (s, e) ↦ elim (Outcome-cases (idents rows)) [
      | inl (l, f) ↦ ground (arith, e, f)
      | inr (inl (x, f)) ↦ ground (arith, e, f)
      | inr (inr f) ↦ idents_total rows f
    ]
    | inr (inl (x, e)) ↦ ground (arith, e)
    | inr (inr e) ↦ ident_of_total row e
  ]

  -- Rows are read as a list of idents just when each of them holds one text, and the list is those
  -- texts in the order of the rows; no rows make the reading panic.
  pub idents_iff :
      (rows : Rows Value) (l : List String)
      → ((idents rows ≡ returned l) ↔ (rows ≡ map row_of l)) × (idents rows ≢ panicked)
  idents_iff rows l = ((idents_only rows l, λ p. ap idents p ∙ idents-map l), idents_total rows)
