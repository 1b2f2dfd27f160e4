-- ===== src/SimplePool/Tests.antt =====
-- The pool of simple_pool.go and that of timeout_pool.go on one state.
use oncecall.Prelude.{◌≡◌, refl, true, false, none, some, [], ◌∷◌, ℕ, ℤ, pos, ok, ◌+ℤ◌}
use oncecall.Metric.{MetricExtension}
use oncecall.Metric.Simple.{Metrics}
use oncecall.Metric.Simple.Laws.{simple_metric_extension}
use oncecall.TimeoutPool.{Item, Config, Pool, open_chan}
use oncecall.TimeoutPool
use oncecall.TimeoutPool.Use
use oncecall.SimplePool
use oncecall.SimplePool.Forget.{forget, forget_config, forget_after}
use oncecall.SimplePool.Ending.{use_-forget}

abbrev x : MetricExtension ℤ
x = simple_metric_extension (pos 0) ◌+ℤ◌

abbrev float : ℤ → ℤ
float n = n

abbrev c : Config
c = record { name = "db"; max = pos 2; idle_timeout = pos 0 }

abbrev pool : Pool ℕ (Metrics ℤ)
pool = record {
  once_done = true;
  is_init = true;
  is_close = false;
  chan_pool = open_chan (record { data_ = some 1; last_use_time = pos 3 } ∷ []);
  use_cnt = pos 0;
  acc_err_cnt = pos 0;
  real_max_cnt = 2;
  metric = none;
  opened = 1 ∷ [];
  closed = [];
}

use_-forget_example :
    SimplePool.use_ x float (forget_config c) {E = ℕ} false (ok 9) (some 4) (forget pool)
    ≡ forget_after (TimeoutPool.Use.use_ x float c {E = ℕ} false 5 (ok 9) (some 4) 6 pool)
use_-forget_example = use_-forget x float c {E = ℕ} false 5 6 (ok 9) (some 4) pool refl
