-- ===== src/Fetch/Conns.antt =====
-- Self, DBList and dbOption of entry/syncd/db_fetcher.go.
pub mod Never
use oncecall.Prelude.{
  ℕ, suc, Option, none, some, List, [], ◌∷◌, length, ℤ, pos, String, Dict, put, str_dec,
}
use oncecall.Prelude.Outcome.{Outcome, returned, failed, panicked, ◌>>=◌}
use oncecall.Plan.Config.{Rows}
use oncecall.Fetch.{
  Value, str, Manage, Error, row_length, not_unique, other_ident, args_of, at, text, number,
  decoded,
}

-- types.ConnConfig
pub record ConnConfig : Type 0 where
  pub db_type : String
  pub server : String
  pub name : String
  pub id : String
  pub password : String
  pub max_conn : ℤ
  pub option_map : Dict String (Option Value)

-- The zero value.
abbrev pub no_config : ConnConfig
no_config = record {
  db_type = "";
  server = "";
  name = "";
  id = "";
  password = "";
  max_conn = pos 0;
  option_map = [];
}

module _ {E : Type 0} where
  -- The ident and the configuration of a row; what a failed call has set is never read.
  unfoldable pub parsing_conn_info : List (Option Value) → Outcome (Error E) (String × ConnConfig)
  parsing_conn_info row = (at row 0 >>= text) >>= λ ident. (at row 1 >>= text) >>= λ db_type.
      (at row 2 >>= text) >>= λ server. (at row 3 >>= text) >>= λ name.
      (at row 4 >>= text) >>= λ id. (at row 5 >>= text) >>= λ password.
      (at row 6 >>= number) >>= λ max_conn. returned (
        ident,
        record {
          db_type = db_type;
          server = server;
          name = name;
          id = id;
          password = password;
          max_conn = max_conn;
          option_map = [];
        },
      )

  -- The loop of dbOption.
  unfoldable pub options :
      Rows Value → Dict String (Option Value) → Outcome (Error E) (Dict String (Option Value))
  options [] ret = returned ret
  options ([] ∷ rows) ret = failed (row_length 0)
  options ((k ∷ []) ∷ rows) ret = failed (row_length 1)
  options ((k ∷ v ∷ []) ∷ rows) ret = text k >>= λ key. options rows (put str_dec key v ret)
  options ((k ∷ v ∷ x ∷ row) ∷ rows) ret = failed (row_length (suc (suc (suc (length row)))))

  module _ (x : Manage E) (query : String) where
    open x use {W}

    -- `query` is Query.Sync.DbList, here as in the calls below.
    unfoldable pub db_option : String → W → Outcome (Error E) (Dict String (Option Value)) × W
    unfolding options
    db_option ident w =
        decoded (λ rows. options rows [])
          (x.run_query (args_of query ((some (str ident) ∷ []) ∷ [])) w)

    -- The configuration that Self returns has the options only.
    abbrev pub self_options :
        Outcome (Error E) (Dict String (Option Value)) × W → Outcome (Error E) ConnConfig × W
    self_options (returned opt, w) = (returned (record no_config { option_map = opt }), w)
    self_options (failed e, w) = (failed e, w)
    self_options (panicked, w) = (panicked, w)

    abbrev pub self_row :
        String → W → Outcome (Error E) (String × ConnConfig) → Outcome (Error E) ConnConfig × W
    self_row sync_ident w (failed e) = (failed e, w)
    self_row sync_ident w panicked = (panicked, w)
    self_row sync_ident w (returned (ident, info)) = elim (str_dec ident sync_ident) [
      | yes same ↦ self_options (db_option ident w)
      | no other ↦ (failed (other_ident ident), w)
    ]

    abbrev pub self_rows : String → W → Rows Value → Outcome (Error E) ConnConfig × W
    self_rows sync_ident w [] = (failed not_unique, w)
    self_rows sync_ident w (row ∷ []) = self_row sync_ident w (parsing_conn_info row)
    self_rows sync_ident w (row ∷ more ∷ rows) = (failed not_unique, w)

    abbrev pub self_after :
        String → Outcome (Error E) (Rows Value) × W → Outcome (Error E) ConnConfig × W
    self_after sync_ident (returned rows, w) = self_rows sync_ident w rows
    self_after sync_ident (failed e, w) = (failed e, w)
    self_after sync_ident (panicked, w) = (panicked, w)

    pub self : String → W → Outcome (Error E) ConnConfig × W
    unfolding parsing_conn_info db_option
    self sync_ident w =
        self_after sync_ident
          (decoded returned (x.run_query (args_of query ((some (str sync_ident) ∷ []) ∷ [])) w))

    abbrev pub with_options :
        Dict String ConnConfig
        → String × ConnConfig
        → Outcome (Error E) (Dict String (Option Value)) × W
        → Outcome (Error E) (Dict String ConnConfig) × W
    with_options ret (ident, info) (returned opt, w) =
        (returned (put str_dec ident (record info { option_map = opt }) ret), w)
    with_options ret info (failed e, w) = (failed e, w)
    with_options ret info (panicked, w) = (panicked, w)

    abbrev pub list_row :
        Dict String ConnConfig
        → W
        → Outcome (Error E) (String × ConnConfig)
        → Outcome (Error E) (Dict String ConnConfig) × W
    list_row ret w (returned info) = with_options ret info (db_option info.0 w)
    list_row ret w (failed e) = (failed e, w)
    list_row ret w panicked = (panicked, w)

    -- The body of the loop of DBList.
    unfoldable pub db_list_step :
        Dict String ConnConfig
        → W
        → List (Option Value)
        → Outcome (Error E) (Dict String ConnConfig) × W
    unfolding parsing_conn_info db_option
    db_list_step ret w [] = (failed (row_length 0), w)
    db_list_step ret w (cell ∷ []) = list_row ret w (parsing_conn_info (cell ∷ []))
    db_list_step ret w (cell ∷ more ∷ row) = (failed (row_length (suc (suc (length row)))), w)

    unfoldable pub db_list_loop :
        Rows Value
        → Outcome (Error E) (Dict String ConnConfig) × W
        → Outcome (Error E) (Dict String ConnConfig) × W
    unfolding db_list_step
    db_list_loop [] so_far = so_far
    db_list_loop (row ∷ rows) (returned ret, w) = db_list_loop rows (db_list_step ret w row)
    db_list_loop (row ∷ rows) (failed e, w) = (failed e, w)
    db_list_loop (row ∷ rows) (panicked, w) = (panicked, w)

    abbrev list_after :
        Outcome (Error E) (Rows Value) × W → Outcome (Error E) (Dict String ConnConfig) × W
    list_after (returned rows, w) = db_list_loop rows (returned [], w)
    list_after (failed e, w) = (failed e, w)
    list_after (panicked, w) = (panicked, w)

    unfoldable pub db_list : W → Outcome (Error E) (Dict String ConnConfig) × W
    unfolding db_list_loop
    db_list w = list_after (decoded returned (x.run_query (args_of query []) w))
