-- ===== src/Fetch/Conns/Never.antt =====
-- What the calls of entry/syncd/db_fetcher.go never return.
use oncecall.Prelude.{
  ◌≡◌, ◌≢◌, refl, ap, ◌∙◌, inl, inr, Option, some, List, [], ◌∷◌, arith, String, Dict, str_dec,
}
use oncecall.Prelude.Outcome.{Outcome, returned, failed, panicked, Outcome-cases}
use oncecall.Plan.Config.{Rows, Args}
use oncecall.Fetch.{Value, str, Manage, Error, args_of, text}
use oncecall.Fetch.Conns.{
  ConnConfig, parsing_conn_info, options, db_option, self_options, self_row, self, db_list_step,
  db_list_loop, db_list,
}

module _ {E : Type 0} where
  -- A row of less than three cells makes the parsing panic or fail.
  parsing_conn_info_short :
      (row : List (Option Value)) (info : String × ConnConfig)
      → parsing_conn_info {E = E} row ≡ returned info
      → (a b c : Option Value) × (rest : List (Option Value)) × (row ≡ a ∷ b ∷ c ∷ rest)
  unfolding parsing_conn_info
  parsing_conn_info_short [] info h = cc
  parsing_conn_info_short (a ∷ []) info h = ground (arith, Outcome-cases (text {E = E} a))
  parsing_conn_info_short (a ∷ b ∷ []) info h =
      ground (arith, Outcome-cases (text {E = E} a), Outcome-cases (text {E = E} b))
  parsing_conn_info_short (a ∷ b ∷ c ∷ rest) info h = (a, b, c, rest, refl)

  module _ (x : Manage E) (query : String) where
    open x use {W}

    db_list_step_never :
        (ret d : Dict String ConnConfig) (w : W) (row : List (Option Value))
        → (db_list_step x query ret w row).0 ≢ returned d
    unfolding db_list_step
    db_list_step_never ret d w [] h = cc
    db_list_step_never ret d w (a ∷ []) h =
        elim (Outcome-cases (parsing_conn_info {E = E} (a ∷ []))) [
          | inl (info, e) ↦ let (b, c, z, rest, p) = parsing_conn_info_short (a ∷ []) info e in cc
          | inr (inl (y, e)) ↦ ground (arith, e)
          | inr (inr e) ↦ ground (arith, e)
        ]
    db_list_step_never ret d w (a ∷ b ∷ row) h = cc

    db_list_loop_never :
        (rows : Rows Value) (o : Outcome (Error E) (Dict String ConnConfig) × W)
        (d : Dict String ConnConfig)
        → ((c : Dict String ConnConfig) → o.0 ≢ returned c)
        → (db_list_loop x query rows o).0 ≢ returned d
    unfolding db_list_loop
    db_list_loop_never [] o d n h = n d h
    db_list_loop_never (row ∷ rows) (returned r, w) d n h = n r refl
    db_list_loop_never (row ∷ rows) (failed e, w) d n h = cc
    db_list_loop_never (row ∷ rows) (panicked, w) d n h = cc

    -- When DBList returns, the database gave no rows and the list is empty: a row must have one cell,
    -- and the second is then read.
    pub db_list_empty :
        (w : W) (d : Dict String ConnConfig)
        → (db_list x query w).0 ≡ returned d
        → (d ≡ []) × ((x.run_query (args_of query []) w).0 ≡ returned [])
    unfolding db_list db_list_loop
    db_list_empty w d h = elim (Outcome-cases (x.run_query (args_of query []) w).0) [
      | inl ([], e) ↦ ground (arith, e)
      | inl (row ∷ rows, e) ↦
          let w1 = (x.run_query (args_of query []) w).1 in
          let k : (db_list_loop x query rows (db_list_step x query [] w1 row)).0 ≡ returned d =
            ground (arith, e) in
          absurd (
            db_list_loop_never rows (db_list_step x query [] w1 row) d
              (λ c. db_list_step_never [] c w1 row) k)
      | inr (inl (y, e)) ↦ ground (arith, e)
      | inr (inr e) ↦ ground (arith, e)
    ]

    abbrev ask : String → Args Value
    ask ident = args_of query ((some (str ident) ∷ []) ∷ [])

    db_option_never :
        (ident : String) (w : W) (a b c : Option Value) (row : List (Option Value))
        (d : Dict String (Option Value))
        → (x.run_query (ask ident) w).0 ≡ returned ((a ∷ b ∷ c ∷ row) ∷ [])
        → (db_option x query ident w).0 ≢ returned d
    unfolding db_option options
    db_option_never ident w a b c row d e h = ground (arith, e)

    self_options_never :
        (o : Outcome (Error E) (Dict String (Option Value)) × W) (c : ConnConfig)
        → ((d : Dict String (Option Value)) → o.0 ≢ returned d)
        → (self_options x query o).0 ≢ returned c
    self_options_never (returned d, w) c n h = n d refl
    self_options_never (failed e, w) c n h = cc
    self_options_never (panicked, w) c n h = cc

    self_row_never :
        (sync_ident : String) (w : W) (row : List (Option Value)) (c : ConnConfig)
        → (x.run_query (ask sync_ident) w).0 ≡ returned (row ∷ [])
        → (self_row x query sync_ident w (parsing_conn_info row)).0 ≢ returned c
    self_row_never sync_ident w row c e h = elim (Outcome-cases (parsing_conn_info {E = E} row)) [
      | inl (info, p) ↦
          let (a, b, z, rest, q) = parsing_conn_info_short row info p in
          elim (str_dec info.0 sync_ident) [
            | yes same ↦
                let r : (x.run_query (ask info.0) w).0 ≡ returned ((a ∷ b ∷ z ∷ rest) ∷ []) =
                  ap (λ s. (x.run_query (ask s) w).0) same ∙ e ∙ ap (λ s. returned (s ∷ [])) q in
                self_options_never (db_option x query info.0 w) c
                  (λ d. db_option_never info.0 w a b z rest d r) (ground (arith, p))
            | no other ↦ ground (arith, p)
          ]
      | inr (inl (y, p)) ↦ ground (arith, p)
      | inr (inr p) ↦ ground (arith, p)
    ]

    -- Self never returns on a database that gives the same rows when a query is made again: the one row
    -- must have seven cells, and the same row read as an option must have two.
    pub self_never :
        (sync_ident : String) (w : W) (c : ConnConfig)
        → ((a : Args Value) (v : W) → (x.run_query a (x.run_query a v).1).0 ≡ (x.run_query a v).0)
        → (self x query sync_ident w).0 ≢ returned c
    unfolding self
    self_never sync_ident w c same h =
        let w1 = (x.run_query (ask sync_ident) w).1 in
        elim (Outcome-cases (x.run_query (ask sync_ident) w).0) [
          | inl ([], e) ↦ ground (arith, e)
          | inl (row ∷ [], e) ↦
              self_row_never sync_ident w1 row c (same (ask sync_ident) w ∙ e) (ground (arith, e))
          | inl (row ∷ more ∷ rows, e) ↦ ground (arith, e)
          | inr (inl (y, e)) ↦ ground (arith, e)
          | inr (inr e) ↦ ground (arith, e)
        ]
