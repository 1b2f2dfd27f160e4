-- ===== src/Fetch/Scripts.antt =====
-- Script of entry/syncd/db_fetcher.go, for any type of configurations; the TOML parser and MD5 are
-- parameters.
use oncecall.Prelude.{
  suc, ◌≡◌, refl, sym, ap, ◌∙◌, inl, inr, ite, Option, none, some, List, [], ◌∷◌, map, length,
  arith, String, Dict, lookup, put, str_dec, lookup-put,
}
use oncecall.Prelude.Outcome.{Outcome, returned, failed, ◌>>=◌, >>=-returned}
use oncecall.Prelude.Results.{Result, ok, err, Result-cases}
use oncecall.Plan.Config.{Rows}
use oncecall.Fetch.{
  Value, str, int, other, Manage, Error, row_length, not_parsed, args_of, text, decoded,
}

-- A script as the database keeps it, a name and a text, with its configuration.
abbrev pub Entry : Type 0 → Type 0
Entry C = String × String × C

abbrev pub row_of : {C : Type 0} → Entry C → List (Option Value)
row_of (name, content, c) = some (str name) ∷ some (str content) ∷ []

module _ {E C H : Type 0} (parse : String → Result E C) (md5 : String → H) where
  abbrev parsed : String → Result E C → Outcome (Error E) (H × C)
  parsed content (ok c) = returned (md5 content, c)
  parsed content (err e) = failed (not_parsed e)

  -- One row: its name, the hash of its text and what the parser makes of it.
  pub script_row : List (Option Value) → Outcome (Error E) (String × (H × C))
  script_row [] = failed (row_length 0)
  script_row (n ∷ []) = failed (row_length 1)
  script_row (n ∷ d ∷ []) = text n >>= λ name.
      text d >>= λ content. parsed content (parse content) >>= λ p. returned (name, p)
  script_row (n ∷ d ∷ x ∷ row) = failed (row_length (suc (suc (suc (length row)))))

  pub scripts : Rows Value → Dict String (H × C) → Outcome (Error E) (Dict String (H × C))
  unfolding script_row
  scripts [] ret = returned ret
  scripts (row ∷ rows) ret = script_row row >>= λ s. scripts rows (put str_dec s.0 s.1 ret)

  pub script :
      (x : Manage E) → String → String → x.W → Outcome (Error E) (Dict String (H × C)) × x.W
  unfolding scripts
  script x query sync_ident w =
      decoded (λ rows. scripts rows [])
        (x.run_query (args_of query ((some (str sync_ident) ∷ []) ∷ [])) w)

  abbrev pub Parsed : List (Entry C) → Type 0
  Parsed [] = Unit
  Parsed ((name, content, c) ∷ l) = (parse content ≡ ok c) × Parsed l

  -- What the last entry of a name says.
  abbrev pub latest : String → List (Entry C) → Option (H × C) → Option (H × C)
  latest k [] old = old
  latest k ((name, content, c) ∷ l) old =
      latest k l (ite (str_dec name k) (some (md5 content, c)) old)

  script_row-row_of :
      (row : List (Option Value)) (s : String × (H × C))
      → script_row row ≡ returned s
      → (name content : String) × (c : C) × (row ≡ row_of {C = C} (name, content, c))
        × (parse content ≡ ok c)
        × (s ≡ (name, (md5 content, c)))
  unfolding script_row
  script_row-row_of [] s h = cc
  script_row-row_of (n ∷ []) s h = cc
  script_row-row_of (some (str n) ∷ some (str d) ∷ []) s h = elim (Result-cases (parse d)) [
    | inl (c, e) ↦ (n, d, c, refl, e, ground (arith, e))
    | inr (x, e) ↦ ground (arith, e)
  ]
  script_row-row_of (some (str n) ∷ none ∷ []) s h = cc
  script_row-row_of (some (str n) ∷ some (int d) ∷ []) s h = cc
  script_row-row_of (some (str n) ∷ some other ∷ []) s h = cc
  script_row-row_of (some (int n) ∷ d ∷ []) s h = cc
  script_row-row_of (some other ∷ d ∷ []) s h = cc
  script_row-row_of (none ∷ d ∷ []) s h = cc
  script_row-row_of (n ∷ d ∷ x ∷ row) s h = cc

  pub scripts_made :
      (l : List (Entry C)) (ret : Dict String (H × C))
      → Parsed l
      → (d : Dict String (H × C)) × (scripts (map row_of l) ret ≡ returned d)
        × ((k : String) → lookup str_dec k d ≡ latest k l (lookup str_dec k ret))
  unfolding scripts script_row
  scripts_made [] ret h = (ret, refl, λ k. refl)
  scripts_made ((name, content, c) ∷ l) ret h =
      let (d, e, f) = scripts_made l (put str_dec name (md5 content, c) ret) h.1 in
      (
        d,
        ground (arith, e, h.0),
        λ k. f k ∙ ap (latest k l) (lookup-put str_dec name k (md5 content, c) ret),
      )

  pub scripts_only :
      (rows : Rows Value) (ret d : Dict String (H × C))
      → scripts rows ret ≡ returned d
      → (l : List (Entry C)) × (rows ≡ map row_of l) × Parsed l
  unfolding scripts
  scripts_only [] ret d h = ([], refl, tt)
  scripts_only (row ∷ rows) ret d h =
      let (s, a, b) =
        >>=-returned (script_row row) (λ s. scripts rows (put str_dec s.0 s.1 ret)) h in
      let (n, content, c, e, p, q) = script_row-row_of row s a in
      let (l, f, g) = scripts_only rows (put str_dec s.0 s.1 ret) d b in
      ((n, content, c) ∷ l, cc, (p, g))

  -- What Script returns is right, and it returns whatever it can: when the rows are made into scripts,
  -- each row holds the name and the text of a script that parses, and a name has the configuration and
  -- the hash of its last row, or nothing; and any rows of such scripts are made into some result.
  pub scripts-latest :
      (rows : Rows Value)
      → ((d : Dict String (H × C))
          → scripts rows [] ≡ returned d
          → (l : List (Entry C)) × (rows ≡ map row_of l)
            × Parsed l
            × ((k : String) → lookup str_dec k d ≡ latest k l none))
        × ((l : List (Entry C))
            → rows ≡ map row_of l
            → Parsed l
            → (d : Dict String (H × C)) × (scripts rows [] ≡ returned d))
  unfolding lookup
  scripts-latest rows = (
    λ d h.
        let (l, e, p) = scripts_only rows [] d h in
        let (d', f, g) = scripts_made l [] p in
        let same : d' ≡ d = cc in (l, e, p, λ k. ap (lookup str_dec k) (sym same) ∙ g k),
    λ l e p. let (d, f, g) = scripts_made l [] p in (d, ap (λ r. scripts r []) e ∙ f),
  )
