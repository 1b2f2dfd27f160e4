-- ===== src/Plan/Config/Run/Keeps.antt =====
-- What a run of script_plan.go leaves in the plan's state, whether it succeeds, fails or panics.
use oncecall.Prelude.{
  ℕ, suc, ◌≡◌, refl, ◌∙◌, inl, inr, Bool, true, false, Bool-cases, Option, none, some, List, [],
  ◌∷◌, if◌then◌else◌, ℤ, String, Dict,
}
use oncecall.Prelude.Outcome.{Outcome, returned, failed, panicked}
use oncecall.Plan.{ParamBuffer, Error}
use oncecall.Plan.Config.{
  SelfInit, OtherInit, Init, ReadPlan, SyncPlan, ScriptConfig, Rows, Args, Shared,
}
use oncecall.Plan.Config.Alloc.{alloc_current_data}
use oncecall.Plan.Config.Params.{make_read_plan_param, make_sync_plan_param}
use oncecall.Plan.Config.Run.{
  RunError, State, Act, after, conn_result, plan_result, get_conn_pool, run_query, run_execute,
  plain, done, init_self, execute_all, init_other, init_body, skips, init, query_args, next_args,
  not_empty, is_empty, get_read_plan_data, alloc_result, alloc_data, read_param, read_loop,
  run_read, sync_param, run_write,
}

module _ {E A : Type 0} (x : Shared E A) (text : String → A) where
  open x use {W}

  -- The step leaves the two marks of the plan as they were.
  abbrev pub Keeps : {B : Type 0} → Act x text B → Type 0
  Keeps m = (s : State x text) → ((m s).1.seq ≡ s.seq) × ((m s).1.is_init ≡ s.is_init)

  after-Keeps :
      {B C : Type 0} (f : B → Act x text C) (r : Outcome (RunError E) B × State x text)
      → ((b : B) → Keeps (f b))
      → ((after x text f r).1.seq ≡ r.1.seq) × ((after x text f r).1.is_init ≡ r.1.is_init)
  after-Keeps f (returned b, s) h = h b s
  after-Keeps f (failed e, s) h = (refl, refl)
  after-Keeps f (panicked, s) h = (refl, refl)

  bind-Keeps :
      {B C : Type 0} (m : Act x text B) (f : B → Act x text C)
      → Keeps m
      → ((b : B) → Keeps (f b))
      → Keeps (λ s. after x text f (m s))
  bind-Keeps m f h k s = let l = after-Keeps f (m s) k in (l.0 ∙ (h s).0, l.1 ∙ (h s).1)

  conn-Keeps :
      {B : Type 0} (s : State x text) (r : Outcome E B × W)
      → ((conn_result x text s r).1.seq ≡ s.seq) × ((conn_result x text s r).1.is_init ≡ s.is_init)
  conn-Keeps s (returned b, w) = (refl, refl)
  conn-Keeps s (failed e, w) = (refl, refl)
  conn-Keeps s (panicked, w) = (refl, refl)

  plan-Keeps :
      {B : Type 0} (s : State x text) (r : Outcome (Error E) B × W)
      → ((plan_result x text s r).1.seq ≡ s.seq) × ((plan_result x text s r).1.is_init ≡ s.is_init)
  plan-Keeps s (returned b, w) = (refl, refl)
  plan-Keeps s (failed e, w) = (refl, refl)
  plan-Keeps s (panicked, w) = (refl, refl)

  if-Keeps :
      {B : Type 0} (c : Bool) (m n : Act x text B) → Keeps m → Keeps n → Keeps (if c then m else n)
  if-Keeps true m n h k = h
  if-Keeps false m n h k = k

  done-Keeps : Keeps (done x text)
  done-Keeps s = (refl, refl)

  query-Keeps : (ident : String) (args : Args A) → Keeps (run_query x text ident args)
  query-Keeps ident args s = conn-Keeps s (x.run_query ident args s.world)

  execute-Keeps : (ident : String) (args : Args A) → Keeps (run_execute x text ident args)
  execute-Keeps ident args s = conn-Keeps s (x.run_execute ident args s.world)

  init_self-Keeps : (ident : String) (l : List SelfInit) → Keeps (init_self x text ident l)
  unfolding init_self
  init_self-Keeps ident [] = done-Keeps
  init_self-Keeps ident (i ∷ rest) =
      bind-Keeps {B = Rows A × List String} (run_query x text ident (plain x text i.trigger_query))
        _ (query-Keeps ident (plain x text i.trigger_query))
        (λ data_.
          bind-Keeps {B = Unit {0}} _ _
            (if-Keeps (is_empty x text data_.0) (done x text)
              (run_execute x text ident (plain x text i.query)) done-Keeps
              (execute-Keeps ident (plain x text i.query)))
            (λ _. init_self-Keeps ident rest))

  execute_all-Keeps : (ident : String) (l : List String) → Keeps (execute_all x text ident l)
  unfolding execute_all
  execute_all-Keeps ident [] = done-Keeps
  execute_all-Keeps ident (q ∷ queries) =
      bind-Keeps {B = Unit {0}} (run_execute x text ident (plain x text q)) _
        (execute-Keeps ident (plain x text q)) (λ _. execute_all-Keeps ident queries)

  pool-Keeps : (ident : String) → Keeps (get_conn_pool x text ident)
  pool-Keeps ident s = (refl, refl)

  init_other-Keeps : (l : Dict String OtherInit) → Keeps (init_other x text l)
  unfolding init_other
  init_other-Keeps [] = done-Keeps
  init_other-Keeps ((ident, i) ∷ rest) =
      bind-Keeps {B = Unit {0}} (get_conn_pool x text ident) _ (pool-Keeps ident) (λ _.
        bind-Keeps {B = Rows A × List String}
          (run_query x text ident (plain x text i.trigger_query)) _
          (query-Keeps ident (plain x text i.trigger_query))
          (λ data_.
            bind-Keeps {B = Unit {0}} _ _
              (if-Keeps (is_empty x text data_.0) (done x text) (execute_all x text ident i.query)
                done-Keeps (execute_all-Keeps ident i.query))
              (λ _. init_other-Keeps rest)))

  init_body-Keeps : (ident : String) (i : Option Init) → Keeps (init_body x text ident i)
  init_body-Keeps ident none = λ s. (refl, refl)
  init_body-Keeps ident (some i) =
      bind-Keeps {B = Unit {0}} (init_self x text ident i.self) _ (init_self-Keeps ident i.self)
        (λ _. init_other-Keeps i.other)

  pub init-Keeps : (config : ScriptConfig) (ident : String) → Keeps (init x text config ident)
  unfolding init
  init-Keeps config ident s = elim (Bool-cases (skips x text config.init s.is_init)) [
    | inl e ↦ rw e (refl, refl)
    | inr e ↦ rw e (
        bind-Keeps {B = Unit {0}} (get_conn_pool x text ident) _ (pool-Keeps ident)
          (λ _. init_body-Keeps ident config.init) s)
  ]

  data-Keeps : (p : ReadPlan) (param : Rows A) → Keeps (get_read_plan_data x text p param)
  unfolding get_read_plan_data
  data-Keeps p param =
      bind-Keeps {B = Unit {0}} (get_conn_pool x text p.read_ident) _ (pool-Keeps p.read_ident)
        (λ _.
          bind-Keeps {B = Rows A × List String}
            (run_query x text p.read_ident (query_args x text p param)) _
            (query-Keeps p.read_ident (query_args x text p param))
            (λ ret.
              elim p.is_next
                as (λ o. Keeps (elim o [
                  | none ↦ λ s. (returned (ret.0, ret.1, true), s)
                  | some query ↦ λ s.
                      after x text
                        (λ (next : Rows A × List String).
                          λ s'. (returned (ret.0, ret.1, not_empty x text next.0), s'))
                        (run_query x text p.read_ident (next_args x text p query) s)
                ])) [
                  | none ↦ λ s. (refl, refl)
                  | some query ↦
                      bind-Keeps {B = Rows A × List String}
                        (run_query x text p.read_ident (next_args x text p query)) _
                        (query-Keeps p.read_ident (next_args x text p query))
                        (λ next s. (refl, refl))
                ]))

  alloc_result-Keeps :
      (s : State x text) (r : Outcome (Error E) (ParamBuffer A))
      → ((alloc_result x text s r).1.seq ≡ s.seq)
        × ((alloc_result x text s r).1.is_init ≡ s.is_init)
  alloc_result-Keeps s (returned b) = (refl, refl)
  alloc_result-Keeps s (failed e) = (refl, refl)
  alloc_result-Keeps s panicked = (refl, refl)

  alloc-Keeps :
      (idx : ℕ) (rows : Rows A) (cols : List String) (seq : ℤ)
      → Keeps (alloc_data x text idx rows cols seq)
  alloc-Keeps idx rows cols seq s =
      alloc_result-Keeps s (alloc_current_data s.param_buffer idx rows cols seq)

  read_loop-Keeps :
      (seq : ℤ) (idx : ℕ) (plans : List ReadPlan) (prev : Rows A)
      → Keeps (read_loop x text seq idx plans prev)
  unfolding read_loop
  read_loop-Keeps seq idx [] prev = done-Keeps
  read_loop-Keeps seq idx (p ∷ plans) prev =
      bind-Keeps {B = Rows A} (read_param x text seq p prev) _
        (λ s. plan-Keeps s (make_read_plan_param x text s.param_buffer seq p prev s.world))
        (λ param.
          bind-Keeps {B = Rows A × List String × Bool} (get_read_plan_data x text p param) _
            (data-Keeps p param)
            (λ ret.
              bind-Keeps {B = Unit {0}} (alloc_data x text idx ret.0 ret.1 seq) _
                (alloc-Keeps idx ret.0 ret.1 seq)
                (λ _.
                  if-Keeps ret.2 (read_loop x text seq (suc idx) plans prev) (done x text)
                    (read_loop-Keeps seq (suc idx) plans prev) done-Keeps)))

  pub run_read-Keeps : (plans : List ReadPlan) (seq : ℤ) → Keeps (run_read x text plans seq)
  unfolding run_read
  run_read-Keeps plans seq =
      bind-Keeps {B = Unit {0}} (read_loop x text seq 0 plans []) _ (read_loop-Keeps seq 0 plans [])
        (λ _ s. (refl, refl))

  pub run_write-Keeps :
      (p : SyncPlan) (ident : String) (data_ : Rows A) (seq : ℤ)
      → Keeps (run_write x text p ident data_ seq)
  unfolding run_write
  run_write-Keeps p ident data_ seq =
      bind-Keeps {B = Rows A} (sync_param x text seq p data_) _
        (λ s. plan-Keeps s (make_sync_plan_param x text s.param_buffer seq p data_ s.world))
        (λ param.
          bind-Keeps {B = Unit {0}} (get_conn_pool x text ident) _ (pool-Keeps ident)
            (λ _. execute-Keeps ident _))
