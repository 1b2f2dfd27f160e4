-- ===== src/Plan/Config/Run.antt =====
-- init, runRead, runWrite and Run of script_plan.go.
pub mod Keeps
pub mod Marks
use oncecall.Prelude.{
  ℕ, zero, suc, Bool, true, false, ◌&&◌, Option, none, some, List, [], ◌∷◌, ltb, if◌then◌else◌,
  length, ℤ, String, Dict,
}
use oncecall.Prelude.Outcome.{Outcome, returned, failed, panicked}
use oncecall.Plan.{ParamBuffer, Error, source, not_setting}
use oncecall.Plan.Config.{
  SelfInit, OtherInit, Init, ReadPlan, SyncPlan, ScriptConfig, Rows, Args, Shared,
}
use oncecall.Plan.Config.Alloc.{alloc_current_data}
use oncecall.Plan.Config.Params.{make_read_plan_param, make_sync_plan_param}

-- The errors of a run.
pub data RunError (E : Type 0) : Type 0 where
  no_pool : String → RunError E
  conn : E → RunError E
  plan : Error E → RunError E

module _ {E A : Type 0} (x : Shared E A) (text : String → A) where
  open x use {W}

  -- PlanState (its `ref`, which all copies share, and `seq`), and what the calls work on.
  pub record State : Type 0 where
    pub is_init : Bool
    pub param_buffer : ParamBuffer A
    pub seq : ℤ
    pub world : W

  -- A step of a run: its outcome, and the state that it leaves, also when it fails.
  abbrev pub Act : Type 0 → Type 0
  Act B = State → Outcome (RunError E) B × State

  infixl 5 ◌>>=◌
  abbrev after :
      {B C : Type 0} → (B → Act C) → Outcome (RunError E) B × State → Outcome (RunError E) C × State
  after f (returned b, s) = f b s
  after f (failed e, s) = (failed e, s)
  after f (panicked, s) = (panicked, s)

  abbrev pub ◌>>=◌ : {B C : Type 0} → Act B → (B → Act C) → Act C
  (m >>= f) s = after f (m s)

  abbrev conn_result : {B : Type 0} → State → Outcome E B × W → Outcome (RunError E) B × State
  conn_result s (returned b, w) = (returned b, record s { world = w })
  conn_result s (failed e, w) = (failed (conn e), record s { world = w })
  conn_result s (panicked, w) = (panicked, record s { world = w })

  abbrev plan_result :
      {B : Type 0} → State → Outcome (Error E) B × W → Outcome (RunError E) B × State
  plan_result s (returned b, w) = (returned b, record s { world = w })
  plan_result s (failed e, w) = (failed (plan e), record s { world = w })
  plan_result s (panicked, w) = (panicked, record s { world = w })

  -- GetConnPool
  abbrev get_conn_pool : String → Act (Unit {0})
  get_conn_pool ident s = (if x.has_pool ident then returned tt else failed (no_pool ident), s)

  abbrev run_query : String → Args A → Act (Rows A × List String)
  run_query ident args s = conn_result s (x.run_query ident args s.world)

  abbrev run_execute : String → Args A → Act (Unit {0})
  run_execute ident args s = conn_result s (x.run_execute ident args s.world)

  abbrev plain : String → Args A
  plain query = record { query = query; args = []; is_transaction = false }

  abbrev done : Act (Unit {0})
  done s = (returned tt, s)

  abbrev not_empty : {B : Type 0} → List B → Bool
  not_empty [] = false
  not_empty (b ∷ bs) = true

  abbrev is_empty : {B : Type 0} → List B → Bool
  is_empty [] = true
  is_empty (b ∷ bs) = false

  -- The loop over Init.Self.
  pub init_self : String → List SelfInit → Act (Unit {0})
  init_self ident [] = done
  init_self ident (i ∷ rest) = run_query ident (plain i.trigger_query) >>= λ data_.
      (if is_empty data_.0 then done else run_execute ident (plain i.query)) >>= λ _.
      init_self ident rest

  pub execute_all : String → List String → Act (Unit {0})
  execute_all ident [] = done
  execute_all ident (q ∷ queries) = run_execute ident (plain q) >>= λ _. execute_all ident queries

  -- The loop over Init.Other.
  pub init_other : Dict String OtherInit → Act (Unit {0})
  unfolding execute_all
  init_other [] = done
  init_other ((ident, i) ∷ rest) = get_conn_pool ident >>= λ _.
      run_query ident (plain i.trigger_query) >>= λ data_.
      (if is_empty data_.0 then done else execute_all ident i.query) >>= λ _. init_other rest

  -- p.Init is read after the guard, so that a missing one panics.
  abbrev init_body : String → Option Init → Act (Unit {0})
  init_body ident none = λ s. (panicked, s)
  init_body ident (some i) = init_self ident i.self >>= λ _. init_other i.other

  abbrev skips : Option Init → Bool → Bool
  skips none is_init = is_init
  skips (some i) is_init = false

  pub init : ScriptConfig → String → Act (Unit {0})
  unfolding init_self init_other
  init config ident s =
      if skips config.init s.is_init
      then done s
      else (get_conn_pool ident >>= λ _. init_body ident config.init) s

  abbrev query_args : ReadPlan → Rows A → Args A
  query_args p param = record { query = p.query; args = param; is_transaction = p.tran }

  abbrev next_args : ReadPlan → String → Args A
  next_args p query = record { query = query; args = []; is_transaction = p.tran }

  -- The rows, their names, and whether the next plan is to run.
  pub get_read_plan_data : ReadPlan → Rows A → Act (Rows A × List String × Bool)
  get_read_plan_data p param = get_conn_pool p.read_ident >>= λ _.
      run_query p.read_ident (query_args p param) >>= λ ret. elim p.is_next [
        | none ↦ λ s. (returned (ret.0, ret.1, true), s)
        | some query ↦ run_query p.read_ident (next_args p query) >>= λ next.
            λ s. (returned (ret.0, ret.1, not_empty next.0), s)
      ]

  abbrev alloc_result :
      State → Outcome (Error E) (ParamBuffer A) → Outcome (RunError E) (Unit {0}) × State
  alloc_result s (returned b) = (returned tt, record s { param_buffer = b })
  alloc_result s (failed e) = (failed (plan e), s)
  alloc_result s panicked = (panicked, s)

  abbrev alloc_data : ℕ → Rows A → List String → ℤ → Act (Unit {0})
  alloc_data idx rows cols seq s =
      alloc_result s (alloc_current_data s.param_buffer idx rows cols seq)

  abbrev read_param : ℤ → ReadPlan → Rows A → Act (Rows A)
  read_param seq p prev s =
      plan_result s (make_read_plan_param x text s.param_buffer seq p prev s.world)

  -- The loop of runRead: prevData is never assigned, and the break under ctx.Done() leaves the select
  -- only.
  pub read_loop : ℤ → ℕ → List ReadPlan → Rows A → Act (Unit {0})
  unfolding get_read_plan_data
  read_loop seq idx [] prev = done
  read_loop seq idx (p ∷ plans) prev = read_param seq p prev >>= λ param.
      get_read_plan_data p param >>= λ ret. alloc_data idx ret.0 ret.1 seq >>= λ _.
      (let rest = read_loop seq (suc idx) plans prev in if ret.2 then rest else done)

  pub run_read : List ReadPlan → ℤ → Act (Rows A)
  unfolding read_loop
  run_read plans seq = read_loop seq 0 plans [] >>= λ _. λ s. (returned [], s)

  abbrev sync_param : ℤ → SyncPlan → Rows A → Act (Rows A)
  sync_param seq p prev s =
      plan_result s (make_sync_plan_param x text s.param_buffer seq p prev s.world)

  pub run_write : SyncPlan → String → Rows A → ℤ → Act (Unit {0})
  run_write p ident data_ seq = sync_param seq p data_ >>= λ param. get_conn_pool ident >>= λ _.
      run_execute ident (record { query = p.query; args = param; is_transaction = p.tran })

  abbrev set_init : Act (Unit {0})
  set_init s = (returned tt, record s { is_init = true })

  abbrev set_seq : ℤ → Act (Unit {0})
  set_seq seq s = (returned tt, record s { seq = seq })

  -- Run for the database `ident`; `current_seq` is the clock after the wait.
  pub run : ScriptConfig → String → ℤ → Act (Unit {0})
  unfolding init run_read run_write
  run config ident current_seq = init config ident >>= λ _. set_init >>= λ _.
      run_read config.read current_seq >>= λ data_.
      run_write config.sync ident data_ current_seq >>= λ _. set_seq current_seq
