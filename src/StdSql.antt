-- ===== src/StdSql.antt =====
-- connpool/internal/connection/std_sql_conn.go: stdSqlConn, a connection over database/sql, which is a
-- parameter. Names of column types are lists of ASCII codes.
pub mod Execute
pub mod Query
pub mod Tests
use Prim.Native.Char.{code}
use Prim.Native.String.{[] as empty_text, ◌∷◌ as ◌∷ₛ◌}
use oncecall.Prelude.{
  ℕ, ◌-◌, Bool, true, false, ◌&&◌, ◌||◌, Option, none, some, List, [], ◌∷◌, map, ◌==◌, leb, length,
  if◌then◌else◌, String, Result, ok, err,
}

pub codes : String → List ℕ
codes empty_text = []
codes (c ∷ₛ s) = code c ∷ codes s

-- strings.ToUpper
pub upper : List ℕ → List ℕ
upper [] = []
upper (c ∷ t) = (if leb 97 c && leb c 122 then c - 32 else c) ∷ upper t

abbrev same : List ℕ → List ℕ → Bool
same [] [] = true
same [] (d ∷ u) = false
same (c ∷ t) [] = false
same (c ∷ t) (d ∷ u) = (c == d) && same t u

abbrev starts_with : List ℕ → List ℕ → Bool
starts_with [] t = true
starts_with (d ∷ u) [] = false
starts_with (d ∷ u) (c ∷ t) = (d == c) && starts_with u t

-- strings.Contains(t, u)
abbrev contains_text : List ℕ → List ℕ → Bool
contains_text u [] = starts_with u []
contains_text u (c ∷ t) = starts_with u (c ∷ t) || contains_text u t

-- slices.Index(li, t) != -1
abbrev one_of : List String → List ℕ → Bool
one_of [] t = false
one_of (s ∷ li) t = same (codes s) t || one_of li t

abbrev part_of : List String → List ℕ → Bool
part_of [] t = false
part_of (s ∷ li) t = contains_text (codes s) t || part_of li t

pub is_type_text : List ℕ → Bool
unfolding codes upper
is_type_text t = part_of ("VARCHAR" ∷ "TEXT" ∷ "STRING" ∷ "VARCHAR" ∷ "BPCHAR" ∷ []) (upper t)

pub is_type_big_int : List ℕ → Bool
unfolding codes upper
is_type_big_int t = one_of ("INT8" ∷ "BIGINT" ∷ []) (upper t)

pub is_type_s_int : List ℕ → Bool
unfolding codes upper
is_type_s_int t = one_of ("INT" ∷ "INT2" ∷ "INT4" ∷ "INTEGER" ∷ []) (upper t)

pub is_type_double : List ℕ → Bool
unfolding codes upper
is_type_double t = one_of ("DOUBLE" ∷ "FLOAT" ∷ "FLOAT4" ∷ "FLOAT8" ∷ []) (upper t)

pub is_type_bytes : List ℕ → Bool
unfolding codes upper
is_type_bytes t = one_of ("BLOB" ∷ []) (upper t)

-- A row without values is nil; `none` for all is nil too, and not the same as no rows.
pub record SqlArgs (V : Type 0) : Type 0 where
  pub query : String
  pub args : Option (List (List V))
  pub is_transaction : Bool

pub data Error (E : Type 0) : Type 0 where
  begin_failed exec_failed query_failed column_failed scan_failed : E → Error E
  transaction_not_supported : Error E
  not_support_type : List ℕ → Error E
