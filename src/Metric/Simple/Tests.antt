-- ===== src/Metric/Simple/Tests.antt =====
-- The metrics of simple.go on concrete entries.
use oncecall.Prelude.{◌≡◌, ite, some, [], ◌∷◌, ℤ, pos, ◌+ℤ◌, str_dec}
use oncecall.Metric.{last_of}
use oncecall.Metric.Simple.{Metrics, assignments, delete_from_name, get}
use oncecall.Metric.Simple.Laws.{get-assignments, get-delete_from_name}

abbrev one : Metrics ℤ
one = some (("db", ("use", pos 3) ∷ []) ∷ [])

get-assignments_example :
    get (pos 0) ◌+ℤ◌ (assignments one "db" (("idle", pos 1) ∷ ("use", pos 2) ∷ [])) "db" "use"
    ≡ ite
        (str_dec "db" "db")
        (last_of "use" (("idle", pos 1) ∷ ("use", pos 2) ∷ []) (get (pos 0) ◌+ℤ◌ one "db" "use"))
        (get (pos 0) ◌+ℤ◌ one "db" "use")
get-assignments_example =
    get-assignments (pos 0) ◌+ℤ◌ one "db" (("idle", pos 1) ∷ ("use", pos 2) ∷ []) "db" "use"

get-delete_from_name_example :
    get (pos 0) ◌+ℤ◌ (delete_from_name one "db") "db" "use"
    ≡ ite (str_dec "db" "db") (pos 0) (get (pos 0) ◌+ℤ◌ one "db" "use")
get-delete_from_name_example = get-delete_from_name (pos 0) ◌+ℤ◌ one "db" "db" "use"
