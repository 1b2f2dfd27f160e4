-- ===== src/PlanNew/Tests.antt =====
-- The theorems of plan_impl.go at a concrete plan.
use oncecall.Prelude.{
  ℕ, ◌≡◌, true, false, Option, none, some, List, [], ◌∷◌, pos, replicate, String,
}
use oncecall.Prelude.Outcome.{returned, failed, panicked}
use oncecall.Buffer.{ParamBuffer}
use oncecall.Plan.Config.{Fix, Shared}
use oncecall.PlanNew.{already_init, zero_plan, init, run}
use oncecall.PlanNew.Never.{Call, inits, run-inits}

abbrev shared : Shared ℕ ℕ
shared = record {
  W = ℕ;
  has_pool = λ ident. true;
  run_query = λ ident args w. (returned ([], []), w);
  run_execute = λ ident args w. (returned tt, w);
  vm_do = λ conf rows w. (failed 0, w);
}

abbrev call : Call shared
call = (
  "db",
  record { init = none; read = []; sync = record { bind = none; tran = false; query = "insert" } },
  none,
)

run-inits_example :
    ((init shared call.0 call.1 call.2 (inits shared (call ∷ []) zero_plan)).0
      ≡ failed already_init)
    × (run shared false true (inits shared (call ∷ []) zero_plan) 5 ≡ (panicked, 5))
run-inits_example = run-inits shared (call ∷ []) call true 5

abbrev buffer : ParamBuffer ℕ
buffer = record { table = []; row_cap = 0; row_idle_seq = pos 0 }

abbrev fix : String × Fix
fix = ("2", record { dynamic = none; static_ = some "x" })

abbrev row : List (Option ℕ)
row = none ∷ some 7 ∷ replicate 8 none
