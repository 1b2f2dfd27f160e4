-- ===== src/Plan/Config/Tests.antt =====
-- The theorems of script_plan.go at a concrete script.
use Prim.Native.String.{len}
use oncecall.Prelude.{
  Bool, ℕ, suc, ◌≡◌, ◌≢◌, ◌<◌, refl, ap, ◌⊎◌, true, false, none, some, List, [], ◌∷◌, arith, length,
  get_elem?, get_or, if◌then◌else◌, ℤ, pos, ltb_ℤ, String,
}
use oncecall.Prelude.Outcome.{returned, failed, panicked}
use oncecall.Plan.{ParamBuffer, get}
use oncecall.Plan.Config.{Bind, SyncPlan, ScriptConfig, Rows, Shared}
use oncecall.Plan.Config.Alloc.{alloc_current_data}
use oncecall.Plan.Config.Alloc.Readback.{get-alloc_current_data}
use oncecall.Plan.Config.Run.{no_pool, State, run, init}
use oncecall.Plan.Config.Run.Marks.{run_marks, init_cases}

-- One database "db", whose queries give two rows, and which counts the calls.
abbrev two_rows : Rows ℕ
two_rows = (some 1 ∷ some 2 ∷ []) ∷ (some 3 ∷ none ∷ []) ∷ []

abbrev names : List String
names = "a" ∷ "bb" ∷ []

bb_a : ◌≢◌ {A = String} "bb" "a"
bb_a p = let q : ◌≡◌ {A = ℕ} 2 1 = ap len p in omega (arith, q)

abbrev shared : Shared ℕ ℕ
shared = record {
  W = ℕ;
  has_pool = λ ident. true;
  run_query = λ ident args w. (returned (two_rows, names), suc w);
  run_execute = λ ident args w. (returned tt, suc w);
  vm_do = λ conf rows w. (failed 0, suc w);
}

abbrev buffer : ParamBuffer ℕ
buffer = record { m = [] ∷ []; row_cap = 2; row_idle_sec = pos 0 }

get-alloc_current_data_example :
    (b' : ParamBuffer ℕ) × (alloc_current_data {E = ℕ} buffer 0 two_rows names (pos 5)
      ≡ returned b')
    × ((i c : ℕ) (col : String) (r : ℤ)
        → i < length two_rows
        → get_elem? names c ≡ some col
        → get {E = ℕ} b' (pos 0) col (pos i) r
          ≡ returned (if ltb_ℤ r (pos 5) then none else get_or (get_or two_rows i []) c none))
get-alloc_current_data_example =
    get-alloc_current_data 0 (pos 5) buffer two_rows names (omega arith) (omega arith)
      ((bb_a, tt), (tt, tt)) (refl, (refl, tt))

abbrev state : State shared (λ s. 0)
state = record { is_init = false; param_buffer = buffer; seq = pos 0; world = 0 }

-- A bind of the second column to a text.
abbrev bind : Bind
bind = record {
  fix = some (("1", record { dynamic = none; static_ = some "x" }) ∷ []);
  prev_vm = none;
  prev = false;
}

abbrev sync : SyncPlan
sync = record { bind = some bind; tran = false; query = "insert" }

abbrev config : ScriptConfig
config = record { init = none; read = []; sync = sync }

init_cases_example :
    ((false ≡ true) × (init shared (λ s. 0) config "db" state ≡ (returned tt, state)))
    ⊎ (((◌≡◌ {A = Bool} false false)
          × (◌≡◌ {A = Bool} true true)
          × (run shared (λ s. 0) config "db" (pos 7) state ≡ (panicked, state)))
        ⊎ ((◌≡◌ {A = Bool} false false)
            × (true ≡ false)
            × (run shared (λ s. 0) config "db" (pos 7) state ≡ (failed (no_pool "db"), state))))
init_cases_example = init_cases shared (λ s. 0) config "db" (pos 7) state refl

run_marks_example :
    (((run shared (λ s. 0) config "db" (pos 7) state).0 ≡ returned tt)
      × ((run shared (λ s. 0) config "db" (pos 7) state).1.seq ≡ pos 7)
      × ((run shared (λ s. 0) config "db" (pos 7) state).1.is_init ≡ true))
    ⊎ (((run shared (λ s. 0) config "db" (pos 7) state).0 ≢ returned tt)
        × ((run shared (λ s. 0) config "db" (pos 7) state).1.seq ≡ pos 0)
        × ((((init shared (λ s. 0) config "db" state).0 ≡ returned tt)
              × ((run shared (λ s. 0) config "db" (pos 7) state).1.is_init ≡ true))
            ⊎ (((init shared (λ s. 0) config "db" state).0 ≢ returned tt)
                × ((run shared (λ s. 0) config "db" (pos 7) state).1.is_init ≡ false))))
run_marks_example = run_marks shared (λ s. 0) config "db" (pos 7) state
