-- ===== src/StdSql/Execute.antt =====
-- RunExecute of std_sql_conn.go.
use oncecall.Prelude.{
  ◌≡◌, ap, inl, inr, Bool, Bool-cases, Option, none, some, Option-cases, List, [], ◌∷◌, ◌++◌, arith,
  if◌then◌else◌, String, Result, ok, err, Result-cases,
}
use oncecall.StdSql.{SqlArgs, Error, begin_failed, exec_failed}

-- sql.Conn: what BeginTx fails with, what a statement makes of the data, and whether a commit of the data
-- fails. A statement that fails changes nothing.
pub record Db (E V : Type 0) : Type 1 where
  pub W : Type 0
  pub begin_tx : W → Option E
  pub exec : String → Option (List V) → W → Result E W
  pub commit_fails : W → Bool

module _ {E V : Type 0} (x : Db E V) where
  open x use {W}

  -- The loop over the rows of arguments: the first error, and the data that it leaves.
  unfoldable pub exec_rows : String → List (List V) → W → Option E × W
  exec_rows query [] w = (none, w)
  exec_rows query (param ∷ rows) w = elim (x.exec query (some param) w) [
    | ok w' ↦ exec_rows query rows w'
    | err e ↦ (some e, w)
  ]

  abbrev exec_plain : W → Result E W → Option E × W
  exec_plain w (ok w') = (none, w')
  exec_plain w (err e) = (some e, w)

  pub exec_all : SqlArgs V → W → Option E × W
  unfolding exec_rows
  exec_all arg w = elim arg.args [
    | none ↦ exec_plain w (x.exec arg.query none w)
    | some rows ↦ exec_rows arg.query rows w
  ]

  -- The deferred end of the transaction on the data `w`; the error of Commit is dropped.
  abbrev end_tx : W → Option E × W → Result (Error E) (Unit {0}) × W
  end_tx w (some e, w') = (err (exec_failed e), w)
  end_tx w (none, w') = (ok tt, if x.commit_fails w' then w else w')

  abbrev plain : Option E × W → Result (Error E) (Unit {0}) × W
  plain (some e, w') = (err (exec_failed e), w')
  plain (none, w') = (ok tt, w')

  -- A transaction is made just when it is not asked for.
  pub run_execute : SqlArgs V → W → Result (Error E) (Unit {0}) × W
  unfolding exec_all
  run_execute arg w = if arg.is_transaction then plain (exec_all arg w) else elim (x.begin_tx w) [
    | some e ↦ (err (begin_failed e), w)
    | none ↦ end_tx w (exec_all arg w)
  ]

  exec_rows-append :
      (query : String) (good : List (List V)) (bad : List V) (rest : List (List V)) (w w' : W)
      (e : E)
      → exec_rows query good w ≡ (none, w')
      → x.exec query (some bad) w' ≡ err e
      → exec_rows query (good ++ bad ∷ rest) w ≡ (some e, w')
  unfolding exec_rows
  exec_rows-append query [] bad rest w w' e h k =
      let same : w ≡ w' = ap (λ r. r.1) h in ground (arith, k, same)
  exec_rows-append query (param ∷ good) bad rest w w' e h k =
      elim (Result-cases (x.exec query (some param) w)) [
        | inl (v, z) ↦
            ground (arith, z, exec_rows-append query good bad rest v w' e (ground (arith, z)) k)
        | inr (f, z) ↦ ground (arith, z)
      ]

  -- A batch in which a row fails after others that succeed reports an error. What the others did stays
  -- if IsTransaction is set, and is taken back, or was never begun, if it is not.
  pub run_execute_failed :
      (query : String) (good : List (List V)) (bad : List V) (rest : List (List V)) (flag : Bool)
      (w w' : W) (e : E)
      → exec_rows query good w ≡ (none, w')
      → x.exec query (some bad) w' ≡ err e
      → (f : Error E) × (run_execute
            (record { query = query; args = some (good ++ bad ∷ rest); is_transaction = flag })
            w
          ≡ (err f, if flag then w' else w))
  unfolding run_execute
  run_execute_failed query good bad rest flag w w' e h k =
      let r = exec_rows-append query good bad rest w w' e h k in
      elim (Bool-cases flag) [
        | inl t ↦ (exec_failed e, ground (arith, t, r))
        | inr t ↦ elim (Option-cases (x.begin_tx w)) [
          | inl n ↦ (exec_failed e, ground (arith, t, n, r))
          | inr (b, n) ↦ (begin_failed b, ground (arith, t, n))
        ]
      ]
