-- ===== src/Factory/Tests.antt =====
-- The theorems of connpool/factory.go at a concrete pool.
use oncecall.Prelude.{
  ℕ, ◌≡◌, refl, false, none, some, [], arith, ℤ, pos, Result, ok, err, ◌>>=◌, ◌+ℤ◌,
}
use oncecall.Prelude.Partial.{◌>>=◌ as ◌>>?◌}
use oncecall.Metric.Simple.{Metrics}
use oncecall.Metric.Simple.Laws.{simple_metric_extension}
use oncecall.TimeoutPool.{Pool, Error}
use oncecall.TimeoutPool.Use.Shape.{Shape}
use oncecall.Plan.Config.{Args}
use oncecall.Fetch.Conns.{no_config}
use oncecall.Factory.{ConnPool, zero_pool, Around, Conn, run_execute, run_query}
use oncecall.Factory.Uses.{Kept, run_execute_returns, run_query-run_execute}

abbrev float : ℤ → ℤ
float n = n

-- Each connection is a number, and 7 fails.
abbrev conn : Conn ℕ ℕ ℕ
conn = record { execute = λ t arg. err t; query = λ t arg. ok ([], []) }

abbrev around : Around ℕ ℕ
around = record { done = false; second = 5; later = 6; gen = ok 7 }

abbrev pool : ConnPool ℕ ℕ (Metrics ℤ)
pool = record { ident = "db"; conf = no_config; conn_generator = 0; pool = zero_pool none }

pool-Shape : Shape pool.pool
pool-Shape = record {
  bounded = omega arith;
  stocked = tt;
  fresh = λ f. refl;
  live = λ n o. cc;
  dead = λ d. refl;
}

abbrev args : Args ℕ
args = record { query = "insert"; args = []; is_transaction = false }

run_execute_returns_example :
    (r : Result (Error ℕ) (Unit {0})) × (p' : Pool ℕ (Metrics ℤ)) × (run_execute
        (simple_metric_extension (pos 0) ◌+ℤ◌)
        float
        conn
        around
        pool
        args
      ≡ some (r, record pool { pool = p' }))
    × Kept (simple_metric_extension (pos 0) ◌+ℤ◌) float pool.pool p'
run_execute_returns_example =
    run_execute_returns (simple_metric_extension (pos 0) ◌+ℤ◌) float conn around pool args
      pool-Shape (λ e. cc)

run_query-run_execute_example :
    run_query (simple_metric_extension (pos 0) ◌+ℤ◌) float conn around pool args ≡ (
      run_execute (simple_metric_extension (pos 0) ◌+ℤ◌) float conn around pool args >>? λ a.
      some (a.0 >>= λ done. ok ([], []), a.1))
run_query-run_execute_example =
    run_query-run_execute (simple_metric_extension (pos 0) ◌+ℤ◌) float conn around pool args
