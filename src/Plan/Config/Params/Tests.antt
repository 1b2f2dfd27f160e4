-- ===== src/Plan/Config/Params/Tests.antt =====
-- A matrix that makeSyncPlanParam of script_plan.go makes.
use oncecall.Prelude.{ℕ, true, false, none, some, [], ◌∷◌, pos}
use oncecall.Prelude.Outcome.{returned, failed}
use oncecall.Plan.{ParamBuffer}
use oncecall.Plan.Config.{Bind, SyncPlan, Shared}

abbrev bind : Bind
bind = record {
  fix = some (("1", record { dynamic = none; static_ = some "x" }) ∷ []);
  prev_vm = none;
  prev = false;
}

abbrev sync : SyncPlan
sync = record { bind = some bind; tran = false; query = "insert" }

abbrev shared : Shared ℕ ℕ
shared = record {
  W = ℕ;
  has_pool = λ ident. true;
  run_query = λ ident args w. (returned ([], []), w);
  run_execute = λ ident args w. (returned tt, w);
  vm_do = λ conf rows w. (failed 0, w);
}

-- One row of two columns.
abbrev filled : ParamBuffer ℕ
filled = record {
  m =
      (("a", record { data_ = some 1; seq = pos 5 } ∷ [])
        ∷ ("b", record { data_ = some 2; seq = pos 5 } ∷ [])
        ∷ [])
      ∷ [];
  row_cap = 2;
  row_idle_sec = pos 0;
}
