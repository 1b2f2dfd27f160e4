-- ===== src/PlanNew.antt =====
-- cmd/oncecall_sync/plan/new/plan_impl.go: PlanV1, over the buffer of the same package. Pools are known by
-- their idents.
pub mod Binds
pub mod Never
pub mod Tests
use oncecall.Prelude.{
  ℕ, zero, suc, ◌+◌, ◌-◌, Bool, true, false, not, Option, none, some, List, [], ◌∷◌, ◌++◌, length,
  set, leb, copy, replicate, if◌then◌else◌, ℤ, pos, pos_part, ltb_ℤ, String, str_dec, Dict, lookup,
  put, Result, ok, err, ◌>>=◌,
}
use oncecall.Prelude.Atoi.{atoi}
use oncecall.Prelude.Outcome.{Outcome, returned, failed, panicked}
use oncecall.Buffer.{ParamBuffer, get, Error as BufferError}
use oncecall.Plan.Config.{
  Fix, SelfInit, OtherInit, Init, ReadPlan, ScriptConfig, Args, Rows, Shared,
}

pub data PlanError (E : Type 0) : Type 0 where
  already_init : PlanError E
  no_pool : String → PlanError E
  conn : E → PlanError E
  wrong_position : PlanError E
  buffer : BufferError → PlanError E

pub record InitOption : Type 0 where
  pub row_buf_idle_time : ℤ
  pub cols_buf_alloc : ℤ
  pub row_buf_cap : ℤ

-- initVal; a nil map is none.
pub record PlanV1 : Type 0 where
  pub flag : Bool
  pub once_done : Bool
  pub use_conf : Option ScriptConfig
  pub read_conn_pool : List String
  pub read_conn_pool_index_map : Option (Dict String ℕ)
  pub sync_pool : Option String
  pub option : Option InitOption

abbrev pub zero_plan : PlanV1
zero_plan = record {
  flag = false;
  once_done = false;
  use_conf = none;
  read_conn_pool = [];
  read_conn_pool_index_map = none;
  sync_pool = none;
  option = none;
}

module _ {E A : Type 0} (x : Shared E A) where
  open x use {W}

  -- The loop of Init over the read plans; a store to a nil map panics.
  pub init_pools : List ReadPlan → PlanV1 → Outcome (PlanError E) (Unit {0}) × PlanV1
  init_pools [] p = (returned tt, p)
  init_pools (r ∷ reads) p =
      if x.has_pool r.read_ident
      then (elim p.read_conn_pool_index_map [
        | none ↦ (panicked, record p { read_conn_pool = p.read_conn_pool ++ r.read_ident ∷ [] })
        | some m ↦ init_pools reads (record p {
          read_conn_pool = p.read_conn_pool ++ r.read_ident ∷ [];
          read_conn_pool_index_map = some (put str_dec r.read_ident (length p.read_conn_pool) m);
        })
      ])
      else (failed (no_pool r.read_ident), p)

  abbrev finish_init :
      String
      → ScriptConfig
      → Option InitOption
      → Outcome (PlanError E) (Unit {0}) × PlanV1
      → Outcome (PlanError E) (Unit {0}) × PlanV1
  finish_init sync_ident conf option (failed e, p) = (failed e, p)
  finish_init sync_ident conf option (panicked, p) = (panicked, p)
  finish_init sync_ident conf option (returned u, p) =
      if x.has_pool sync_ident
      then (
        returned tt,
        record p {
          option = option;
          sync_pool = some sync_ident;
          use_conf = some conf;
          flag = true;
        },
      )
      else (failed (no_pool sync_ident), p)

  -- Init: only a plan that is initialised passes the guard.
  pub init :
      String → ScriptConfig → Option InitOption → PlanV1 → Outcome (PlanError E) (Unit {0}) × PlanV1
  unfolding init_pools
  init sync_ident conf option p =
      if p.flag
      then (if p.once_done
          then (returned tt, p)
          else finish_init sync_ident conf option
              (init_pools conf.read (record p { once_done = true })))
      else (failed already_init, p)

  abbrev pub Act : Type 0 → Type 0
  Act B = W → Outcome (PlanError E) B × W

  infixl 5 ◌>>◌
  abbrev then_do :
      {B C : Type 0} → (B → Act C) → Outcome (PlanError E) B × W → Outcome (PlanError E) C × W
  then_do f (returned b, w) = f b w
  then_do f (failed e, w) = (failed e, w)
  then_do f (panicked, w) = (panicked, w)

  abbrev ◌>>◌ : {B C : Type 0} → Act B → (B → Act C) → Act C
  (m >> f) w = then_do f (m w)

  abbrev from_conn : {B : Type 0} → Outcome E B × W → Outcome (PlanError E) B × W
  from_conn (returned b, w) = (returned b, w)
  from_conn (failed e, w) = (failed (conn e), w)
  from_conn (panicked, w) = (panicked, w)

  abbrev plain : String → Args A
  plain query = record { query = query; args = []; is_transaction = false }

  -- A call of a pool that is nil panics.
  abbrev query_on : Option String → String → Act (Rows A × List String)
  query_on none query w = (panicked, w)
  query_on (some ident) query w = from_conn (x.run_query ident (plain query) w)

  abbrev execute_on : Option String → String → Act (Unit {0})
  execute_on none query w = (panicked, w)
  execute_on (some ident) query w = from_conn (x.run_execute ident (plain query) w)

  abbrev done : Act (Unit {0})
  done w = (returned tt, w)

  abbrev unless_empty : {B : Type 0} → List B → Act (Unit {0}) → Act (Unit {0})
  unless_empty [] m = done
  unless_empty (b ∷ bs) m = m

  pub init_self_loop : Option String → List SelfInit → Act (Unit {0})
  init_self_loop pool [] = done
  init_self_loop pool (i ∷ rest) = query_on pool i.trigger_query >> λ ret.
      unless_empty ret.0 (execute_on pool i.query) >> λ u. init_self_loop pool rest

  pub execute_loop : Option String → List String → Act (Unit {0})
  execute_loop pool [] = done
  execute_loop pool (q ∷ queries) = execute_on pool q >> λ u. execute_loop pool queries

  -- readConnPool[pIdx] of an index of the map.
  abbrev pool_at : List String → ℕ → Option String
  pool_at [] i = none
  pool_at (p ∷ pools) zero = some p
  pool_at (p ∷ pools) (suc i) = pool_at pools i

  abbrev index_of : Option (Dict String ℕ) → String → Option ℕ
  index_of none k = none
  index_of (some m) k = lookup str_dec k m

  pub init_other_loop : PlanV1 → Dict String OtherInit → Act (Unit {0})
  unfolding execute_loop
  init_other_loop p [] = done
  init_other_loop p ((k, i) ∷ rest) = elim (index_of p.read_conn_pool_index_map k) [
    | none ↦ λ w. (failed (no_pool k), w)
    | some idx ↦ query_on (pool_at p.read_conn_pool idx) i.trigger_query >> λ ret.
        unless_empty ret.0 (execute_loop (pool_at p.read_conn_pool idx) i.query) >> λ u.
        init_other_loop p rest
  ]

  -- useConf.Init, where the zero configuration has none; a nil Init panics.
  abbrev init_of : PlanV1 → Option Init
  init_of p = elim p.use_conf [ none ↦ none | some conf ↦ conf.init ]

  -- `is_init` is isInitSelf of the plan's state, which nothing sets; isInitOther below likewise.
  pub init_self : Bool → PlanV1 → Act (Unit {0})
  unfolding init_self_loop
  init_self is_init p = if is_init then done else elim (init_of p) [
    | none ↦ λ w. (panicked, w)
    | some i ↦ init_self_loop p.sync_pool i.self
  ]

  pub init_other : Bool → PlanV1 → Act (Unit {0})
  unfolding init_other_loop
  init_other is_init p =
      if is_init
      then done
      else elim (init_of p) [ none ↦ λ w. (panicked, w) | some i ↦ init_other_loop p i.other ]

  -- Run, which reads and writes nothing.
  pub run : Bool → Bool → PlanV1 → Act (Unit {0})
  unfolding init_self init_other
  run is_init_self is_init_other p = init_self is_init_self p >> λ u. init_other is_init_other p

-- upsizeBindDataFn
pub upsize : {A : Type 0} → ℕ → List (Option A) → List (Option A)
upsize resize data_ =
    if leb resize (length data_) then data_ else copy (replicate resize none) data_

-- Atoi, and the test for a position below 1; positions count from 1.
pub position : {E : Type 0} → String → Result (PlanError E) ℕ
unfolding atoi
position key = elim (atoi key) [
  | none ↦ err wrong_position
  | some n ↦ if ltb_ℤ (pos 0) n then ok (pos_part n) else err wrong_position
]

module _ {E A : Type 0} where
  abbrev buffer_result : Result BufferError (Option A) → Result (PlanError E) (Option A)
  buffer_result (ok v) = ok v
  buffer_result (err e) = err (buffer e)

  -- The value of a position, read at seq 0.
  pub bound : (String → A) → ParamBuffer A → Fix → Result (PlanError E) (Option A)
  bound text b fix = elim fix.static_ [
    | some s ↦ ok (some (text s))
    | none ↦ elim fix.dynamic [
      | some d ↦ buffer_result (get b d.plan_idx d.col d.row (pos 0))
      | none ↦ ok none
    ]
  ]

  -- The loop of readRunFixBind.
  pub bind_loop :
      (String → A)
      → ParamBuffer A
      → Dict String Fix
      → List (Option A)
      → Result (PlanError E) (List (Option A))
  unfolding bound upsize position
  bind_loop text b [] data_ = ok data_
  bind_loop text b ((key, fix) ∷ rest) data_ = position key >>= λ n.
      bound text b fix >>= λ v. bind_loop text b rest (set (upsize n data_) (n - 1) v)

  -- readRunFixBind, on a bind that is there; without positions it gives the old data.
  pub read_run_fix_bind :
      (String → A)
      → ParamBuffer A
      → List (Option A)
      → Option (Dict String Fix)
      → Result (PlanError E) (List (Option A))
  unfolding bind_loop
  read_run_fix_bind text b old_data none = ok old_data
  read_run_fix_bind text b old_data (some []) = ok old_data
  read_run_fix_bind text b old_data (some (f ∷ fix)) =
      bind_loop text b (f ∷ fix) (replicate 10 none)
