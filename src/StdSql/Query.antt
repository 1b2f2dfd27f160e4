-- ===== src/StdSql/Query.antt =====
-- RunQuery of std_sql_conn.go.
use oncecall.Prelude.{
  ℕ, ◌≡◌, ◌≢◌, refl, sym, ap, ◌∙◌, inl, inr, ◌↔◌, Bool, true, ◌||◌, Bool-cases, Option, none, some,
  List, [], ◌∷◌, arith, map, if◌then◌else◌, String, Result, ok, err, Result-cases, reject, ◌>>=◌,
}
use oncecall.StdSql.{
  SqlArgs, Error, query_failed, column_failed, scan_failed, transaction_not_supported,
  not_support_type, is_type_text, is_type_big_int, is_type_s_int, is_type_double, is_type_bytes,
}

pub record Column : Type 0 where
  pub name : String
  pub database_type_name : List ℕ

-- sql.Rows: what ColumnTypes gives, and for each Next what Scan gives; Scan into an `any` overwrites the
-- value that is there. `ended` is what Err would tell after the last Next.
pub record Cursor (E V : Type 0) : Type 0 where
  pub column_types : Result E (List Column)
  pub scans : List (Result E (List V))
  pub ended : Option E

-- The chain of tests on a type.
pub supported : List ℕ → Bool
supported t =
    is_type_double t
    || (is_type_s_int t || (is_type_big_int t || (is_type_text t || is_type_bytes t)))

abbrev names_of : List Column → List String
names_of = map (λ c. c.name)

abbrev pub names_for : {V : Type 0} → List Column → List (List V) → List String
names_for cols [] = []
names_for cols (row ∷ rows) = names_of cols

abbrev columns_of : {E V : Type 0} → Cursor E V → Result (Error E) (List Column)
columns_of c = elim c.column_types [ ok cols ↦ ok cols | err e ↦ err (column_failed e) ]

-- Only the first row of the arguments is used.
abbrev param_of : {V : Type 0} → Option (List (List V)) → Option (List V)
param_of none = none
param_of (some []) = none
param_of (some (param ∷ rows)) = some param

abbrev pub Supported : List Column → Type 0
Supported [] = Unit
Supported (c ∷ cols) = (supported c.database_type_name ≡ true) × Supported cols

module _ {E : Type 0} where
  -- The loop over the columns.
  pub check_types : List Column → Result (Error E) (Unit {0})
  check_types [] = ok tt
  check_types (c ∷ cols) =
      let rest = check_types cols in
      if supported c.database_type_name then rest else err (not_support_type c.database_type_name)

  check_types_lem : (cols : List Column) → (check_types cols ≡ ok tt) ↔ Supported cols
  unfolding check_types
  check_types_lem [] = (λ h. tt, λ h. refl)
  check_types_lem (c ∷ cols) =
      let (a, b) = check_types_lem cols in
      elim (Bool-cases (supported c.database_type_name)) [
        | inl t ↦ (λ h. (t, a (ground (arith, t))), λ h. ground (arith, t, b h.1))
        | inr t ↦ (λ h. ground (arith, t), λ h. ground (arith, t, h.0))
      ]

module _ {E V : Type 0} where
  abbrev scanned : Result E (List V) → Result (Error E) (List V)
  scanned (ok row) = ok row
  scanned (err e) = err (scan_failed e)

  -- The loop over the rows; the error of the cursor is not looked at.
  pub read_rows : List Column → List (Result E (List V)) → Result (Error E) (List (List V))
  unfolding check_types
  read_rows cols [] = ok []
  read_rows cols (scan ∷ scans) = check_types cols >>= λ u.
      scanned scan >>= λ row. read_rows cols scans >>= λ rows. ok (row ∷ rows)

  pub read : Cursor E V → Result (Error E) (List (List V) × List String)
  unfolding read_rows
  read c =
      columns_of c >>= λ cols. read_rows cols c.scans >>= λ rows. ok (rows, names_for cols rows)

  abbrev opened : Result E (Cursor E V) → Result (Error E) (Cursor E V)
  opened (ok c) = ok c
  opened (err e) = err (query_failed e)

  pub run_query :
      (String → Option (List V) → Result E (Cursor E V))
      → SqlArgs V
      → Result (Error E) (List (List V) × List String)
  unfolding read
  run_query query_context arg = reject arg.is_transaction transaction_not_supported >>= λ u.
      opened (query_context arg.query (param_of arg.args)) >>= read

  read_rows-map :
      (cols : List Column) (rows : List (List V))
      → (rows ≢ [] → Supported cols)
      → read_rows cols (map (λ r. ok r) rows) ≡ ok rows
  unfolding read_rows
  read_rows-map cols [] h = refl
  read_rows-map cols (row ∷ rows) h =
      let s = h (λ e. cc) in
      ground (arith, (check_types_lem {E = E} cols).1 s, read_rows-map cols rows (λ n. s))

  read_rows_only :
      (cols : List Column) (scans : List (Result E (List V))) (rows : List (List V))
      → read_rows cols scans ≡ ok rows
      → (scans ≡ map (λ r. ok r) rows) × (rows ≢ [] → Supported cols)
  unfolding read_rows
  read_rows_only cols [] rows h = (ground arith, λ n. absurd (n (ground arith)))
  read_rows_only cols (scan ∷ scans) rows h = elim (Result-cases (check_types {E = E} cols)) [
    | inr (e, n) ↦ ground (arith, n)
    | inl (u, n) ↦ elim (Result-cases scan) [
      | inr (e, s) ↦ ground (arith, n, s)
      | inl (row, s) ↦ elim (Result-cases (read_rows cols scans)) [
        | inr (e, r) ↦ ground (arith, n, s, r)
        | inl (rest, r) ↦
            let (a, b) = read_rows_only cols scans rest r in
            let whole : rows ≡ row ∷ rest = ground (arith, n, s, r) in
            (cc, λ z. (check_types_lem {E = E} cols).0 n)
      ]
    ]
  ]

  -- What is read of a cursor whose columns are known: the rows are returned just when each was scanned,
  -- in their order, and, if there is any, when all types of the columns are supported; the names come
  -- with the first row. How the cursor ended does not matter.
  pub read_iff :
      (cols : List Column) (scans : List (Result E (List V))) (ended : Option E)
      (rows : List (List V)) (names : List String)
      → (read (record { column_types = ok cols; scans = scans; ended = ended }) ≡ ok (rows, names))
        ↔ ((scans ≡ map (λ r. ok r) rows)
            × (names ≡ names_for cols rows)
            × (rows ≢ [] → Supported cols))
  unfolding read
  read_iff cols scans ended rows names = (
    λ h. elim (Result-cases (read_rows cols scans)) [
      | inr (e, n) ↦ ground (arith, n)
      | inl (r, n) ↦
          let (a, b) = read_rows_only cols scans r n in
          let same : r ≡ rows = ground (arith, n) in
          let named : names_for cols r ≡ names = ground (arith, n) in
          (
            a ∙ ap (map (λ r. ok r)) same,
            sym named ∙ ap (names_for cols) same,
            λ z. b (λ q. z (sym same ∙ q)),
          )
    ],
    λ h.
        let r : read_rows cols scans ≡ ok rows =
          ap (read_rows cols) h.0 ∙ read_rows-map cols rows h.2 in
        ground (arith, r, h.1),
  )
