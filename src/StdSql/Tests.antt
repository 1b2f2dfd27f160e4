-- ===== src/StdSql/Tests.antt =====
-- The theorems of std_sql_conn.go at concrete data.
use oncecall.Prelude.{
  ℕ, ◌≡◌, ◌≢◌, refl, ◌↔◌, true, false, none, some, Option, List, [], ◌∷◌, ◌++◌, map, Result, ok,
  err,
}
use oncecall.StdSql.{codes, Error}
use oncecall.StdSql.Execute.{Db, exec_rows, run_execute, run_execute_failed}
use oncecall.StdSql.Query.{Column, names_for, Supported, read, read_iff}

-- The data are the rows that were inserted; an empty one is refused.
abbrev insert : Option (List ℕ) → List (List ℕ) → Result ℕ (List (List ℕ))
insert none w = ok w
insert (some []) w = err 1
insert (some (a ∷ row)) w = ok ((a ∷ row) ∷ w)

abbrev db : Db ℕ ℕ
db = record {
  W = List (List ℕ);
  begin_tx = λ w. none;
  exec = λ query. insert;
  commit_fails = λ w. false;
}

abbrev good : List (List ℕ)
good = (1 ∷ []) ∷ (2 ∷ []) ∷ []

inserted : exec_rows db "q" good [] ≡ (none, (2 ∷ []) ∷ (1 ∷ []) ∷ [])
unfolding exec_rows
inserted = refl

run_execute_failed_example :
    (f : Error ℕ) × (run_execute db
        (record { query = "q"; args = some (good ++ [] ∷ (3 ∷ []) ∷ []); is_transaction = true })
        []
      ≡ (err f, (2 ∷ []) ∷ (1 ∷ []) ∷ []))
run_execute_failed_example =
    run_execute_failed db "q" good [] ((3 ∷ []) ∷ []) true [] ((2 ∷ []) ∷ (1 ∷ []) ∷ []) 1 inserted
      refl

abbrev columns : List Column
columns = record { name = "a"; database_type_name = codes "varchar(3)" } ∷ []

read_iff_example :
    (read {E = ℕ} {V = ℕ}
        (record { column_types = ok columns; scans = ok (1 ∷ []) ∷ []; ended = some 5 })
      ≡ ok ((1 ∷ []) ∷ [], "a" ∷ []))
    ↔ ((◌≡◌ {A = List (Result ℕ (List ℕ))} (ok (1 ∷ []) ∷ []) (map (λ r. ok r) ((1 ∷ []) ∷ [])))
        × (("a" ∷ []) ≡ names_for {V = ℕ} columns ((1 ∷ []) ∷ []))
        × (◌≢◌ {A = List (List ℕ)} ((1 ∷ []) ∷ []) [] → Supported columns))
read_iff_example = read_iff columns (ok (1 ∷ []) ∷ []) (some 5) ((1 ∷ []) ∷ []) ("a" ∷ [])
