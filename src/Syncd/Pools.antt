-- ===== src/Syncd/Pools.antt =====
-- syncdResetDbList of entry/syncd.go, over the pools that package connpool makes.
pub mod Reach
use oncecall.Prelude.{
  ◌≡◌, ◌≢◌, refl, sym, ap, ◌∙◌, inl, inr, ◌⊎◌, Bool, true, false, ◌&&◌, Bool-cases, Option, none,
  some, List, [], ◌∷◌, arith, ite, String, str_dec, Dict, lookup, Distinct, Result, ok, err, is_ok,
  Result-cases, if◌then◌else◌,
}
use text.Mathlib.Text.{◌==◌}
use text.Mathlib.TextEquality.{eq_iff}
use oncecall.Fetch.Conns.{ConnConfig}
use oncecall.SharedState.{
  SharedState, not_exists, get_conn_pool, exists_conn_pool, push_conn_pool, Error as StateError,
}
use oncecall.SharedState.Pools.{exists_conn_pool-get_conn_pool, get_conn_pool-push_conn_pool}

-- connpool.NewConnPool and GetConfig of its pools.
pub record ConnPools (E : Type 0) : Type 1 where
  pub P : Type 0
  pub new_conn_pool : String → ConnConfig → Result E P
  pub get_config : P → ConnConfig
  pub get_config-new_conn_pool :
      (ident : String) (info : ConnConfig) (p : P)
      → new_conn_pool ident info ≡ ok p
      → get_config p ≡ info

-- The errors of a reset.
pub data ResetError (E : Type 0) : Type 0 where
  no_list no_pool : E → ResetError E
  no_conn_pool : StateError → ResetError E

abbrev same_place : ConnConfig → ConnConfig → Bool
same_place a b = (a.server == b.server) && (a.name == b.name)

module _ {E : Type 0} (x : ConnPools E) where
  open x use {P}

  abbrev replace :
      String → SharedState P → Result E P → Result (ResetError E) (Unit {0}) × SharedState P
  replace ident s (err e) = (err (no_pool e), s)
  replace ident s (ok p) = (ok tt, push_conn_pool s ident p)

  abbrev compared :
      String
      → ConnConfig
      → SharedState P
      → Result StateError P
      → Result (ResetError E) (Unit {0}) × SharedState P
  compared ident info s (err e) = (err (no_conn_pool e), s)
  compared ident info s (ok p) =
      if same_place (x.get_config p) info
      then (ok tt, s)
      else replace ident s (x.new_conn_pool ident info)

  -- The body of the loop.
  unfoldable pub reset_db :
      String → ConnConfig → SharedState P → Result (ResetError E) (Unit {0}) × SharedState P
  reset_db ident info s = compared ident info s (get_conn_pool s ident)

  unfoldable pub reset_db_loop :
      Dict String ConnConfig → SharedState P → Result (ResetError E) (Unit {0}) × SharedState P
  unfolding reset_db
  reset_db_loop [] s = (ok tt, s)
  reset_db_loop ((ident, info) ∷ list) s =
      let rest = reset_db_loop list (reset_db ident info s).1 in
      elim (reset_db ident info s).0 [ err e ↦ (err e, (reset_db ident info s).1) | ok done ↦ rest ]

  -- On what the fetcher gave.
  unfoldable pub reset_db_list :
      Result E (Dict String ConnConfig)
      → SharedState P
      → Result (ResetError E) (Unit {0}) × SharedState P
  unfolding reset_db_loop
  reset_db_list (err e) s = (err (no_list e), s)
  reset_db_list (ok list) s = reset_db_loop list s
