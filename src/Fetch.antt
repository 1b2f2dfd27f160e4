-- ===== src/Fetch.antt =====
-- cmd/oncecall_sync/entry/master/db_fetcher.go and entry/syncd/db_fetcher.go: what the processes read from
-- the managing database. The database is a parameter.
pub mod Idents
pub mod Conns
pub mod Scripts
pub mod Tests
use oncecall.Prelude.{ℕ, zero, suc, false, Option, none, some, List, [], ◌∷◌, ℤ, String}
use oncecall.Prelude.Outcome.{Outcome, returned, failed, panicked}
use oncecall.Plan.Config.{Rows, Args}

-- The cells that matter; `none` is nil, and `other` any other dynamic type.
pub data Value : Type 0 where
  str : String → Value
  int : ℤ → Value
  other : Value

-- manage.ManageP: a query gives rows, and leaves the database in some state.
pub record Manage (E : Type 0) : Type 1 where
  pub W : Type 0
  pub run_query : Args Value → W → Outcome E (Rows Value) × W

pub data Error (E : Type 0) : Type 0 where
  db : E → Error E
  row_length : ℕ → Error E
  not_matching : Error E
  not_unique : Error E
  other_ident : String → Error E
  not_parsed : E → Error E

abbrev pub args_of : String → Rows Value → Args Value
args_of query args = record { query = query; args = args; is_transaction = false }

module _ {E : Type 0} where
  -- data[idx][col] of a row.
  abbrev pub at : List (Option Value) → ℕ → Outcome (Error E) (Option Value)
  at [] col = panicked
  at (cell ∷ row) zero = returned cell
  at (cell ∷ row) (suc col) = at row col

  -- data[idx][col].(string): for nil the message's reflect.ValueOf(nil).Type() panics.
  abbrev pub text : Option Value → Outcome (Error E) String
  text none = panicked
  text (some (str s)) = returned s
  text (some (int n)) = failed not_matching
  text (some other) = failed not_matching

  abbrev pub number : Option Value → Outcome (Error E) ℤ
  number none = panicked
  number (some (str s)) = failed not_matching
  number (some (int n)) = returned n
  number (some other) = failed not_matching

  -- A call of the database with its error wrapped, and what is made of its rows.
  abbrev pub decoded :
      {B W : Type 0}
      → (Rows Value → Outcome (Error E) B)
      → Outcome E (Rows Value) × W
      → Outcome (Error E) B × W
  decoded f (returned rows, w) = (f rows, w)
  decoded f (failed e, w) = (failed (db e), w)
  decoded f (panicked, w) = (panicked, w)
