-- ===== src/Fetch/Tests.antt =====
-- The theorems of the two db_fetcher.go at a concrete database.
use oncecall.Prelude.{
  ℕ, ◌≡◌, ◌≢◌, refl, ◌↔◌, none, some, List, [], ◌∷◌, map, pos, String, Dict, lookup, str_dec,
}
use oncecall.Prelude.Outcome.{returned, panicked}
use oncecall.Prelude.Results.{Result, ok}
use oncecall.Plan.Config.{Rows}
use oncecall.Fetch.{Value, str, int, Manage, args_of}
use oncecall.Fetch.Idents.{row_of, idents, idents_iff}
use oncecall.Fetch.Conns.{ConnConfig, no_config, self, db_list}
use oncecall.Fetch.Conns.Never.{db_list_empty, self_never}
use oncecall.Fetch.Scripts.{scripts, Entry, row_of as script_cells, Parsed, latest, scripts-latest}

abbrev two : Rows Value
two = (some (str "a") ∷ []) ∷ (some (str "b") ∷ []) ∷ []

idents_iff_example :
    ((idents {E = ℕ} two ≡ returned ("a" ∷ "b" ∷ [])) ↔ (two ≡ map row_of ("a" ∷ "b" ∷ [])))
    × (idents {E = ℕ} two ≢ panicked)
idents_iff_example = idents_iff two ("a" ∷ "b" ∷ [])

-- A database with one row, whatever is asked.
abbrev database : Rows Value → Manage ℕ
database rows = record { W = ℕ; run_query = λ a w. (returned rows, w) }

empty_list : (db_list (database []) "list" 0).0 ≡ returned []
unfolding db_list
empty_list = refl

db_list_empty_example :
    (◌≡◌ {A = Dict String ConnConfig} [] [])
    × (((database []).run_query (args_of "list" []) 0).0 ≡ returned [])
db_list_empty_example = db_list_empty (database []) "list" 0 [] empty_list

abbrev own_row : Rows Value
own_row =
    (some (str "db")
      ∷ some (str "pg")
      ∷ some (str "host")
      ∷ some (str "main")
      ∷ some (str "me")
      ∷ some (str "pw")
      ∷ some (int (pos 4))
      ∷ [])
    ∷ []

self_never_example : (self (database own_row) "list" "db" 0).0 ≢ returned no_config
self_never_example = self_never (database own_row) "list" "db" 0 no_config (λ a v. refl)

abbrev parse : String → Result ℕ ℕ
parse content = ok 5

abbrev script_rows : Rows Value
script_rows = (some (str "s") ∷ some (str "x") ∷ []) ∷ (some (str "s") ∷ some (str "y") ∷ []) ∷ []

scripts-latest_example :
    ((d : Dict String (String × ℕ))
      → scripts parse (λ s. s) script_rows [] ≡ returned d
      → (l : List (Entry ℕ)) × (script_rows ≡ map (script_cells) l)
        × Parsed parse (λ s. s) l
        × ((k : String) → lookup str_dec k d ≡ latest parse (λ s. s) k l none))
    × ((l : List (Entry ℕ))
        → script_rows ≡ map (script_cells) l
        → Parsed parse (λ s. s) l
        → (d : Dict String (String × ℕ)) × (scripts parse (λ s. s) script_rows [] ≡ returned d))
scripts-latest_example = scripts-latest parse (λ s. s) script_rows
