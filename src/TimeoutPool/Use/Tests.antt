-- ===== src/TimeoutPool/Use/Tests.antt =====
-- A run of the pool of timeout_pool.go, and its theorems at concrete inputs.
use oncecall.Prelude.{
  ℕ, ◌≡◌, refl, true, false, Option, none, some, [], ◌∷◌, arith, ℤ, pos, ok, ◌+ℤ◌,
}
use oncecall.Metric.{MetricExtension}
use oncecall.Metric.Simple.{Metrics}
use oncecall.Metric.Simple.Laws.{simple_metric_extension}
use oncecall.TimeoutPool.{
  Item, nil_chan, open_chan, Config, Pool, enter, acquire, close, report, report_use, drain,
  drain_chan, make_chan, init, generate, take_open, take, start, clock,
}
use oncecall.TimeoutPool.Use.{finish, send, push, put_back}
use oncecall.TimeoutPool.Use.Shape.{Shape}
use oncecall.TimeoutPool.Use.Steps.{Sys, Inv, enters, takes, gives, closes, Reach, here, next}
use oncecall.TimeoutPool.Use.Idle.{acquire_oldest}
use oncecall.TimeoutPool.Use.Runs.{Reach-Inv}
use oncecall.TimeoutPool.Use.Conserved.{Conserved}

abbrev x : MetricExtension ℤ
x = simple_metric_extension (pos 0) ◌+ℤ◌

abbrev float : ℤ → ℤ
float n = n

abbrev c : Config
c = record { name = "db"; max = pos 2; idle_timeout = pos 61000000000 }

abbrev fresh : Pool ℕ (Metrics ℤ)
fresh = record {
  once_done = false;
  is_init = false;
  is_close = false;
  chan_pool = nil_chan;
  use_cnt = pos 0;
  acc_err_cnt = pos 0;
  real_max_cnt = 0;
  metric = none;
  opened = [];
  closed = [];
}

-- The pool that a part leaves behind.
abbrev left : {A B : Type 0} → B → Option (A × B) → B
left b none = b
left b (some (a, b')) = b'

abbrev inited : Pool ℕ (Metrics ℤ)
inited = left fresh (enter x float c {E = ℕ} false fresh)

abbrev taken : Pool ℕ (Metrics ℤ)
taken = left inited (acquire x float c {E = ℕ} 5 (ok 7) inited)

abbrev shut : Pool ℕ (Metrics ℤ)
shut = left taken (close x float c {E = ℕ} taken)

abbrev seven : Item ℕ
seven = record { data_ = some 7; last_use_time = pos 0 }

abbrev given : Pool ℕ (Metrics ℤ)
given = left shut (finish x float c {E = ℕ} 6 none seven shut)

abbrev start_state : Sys ℕ (Metrics ℤ)
start_state = record { pool = fresh; held = []; dropped = [] }

start-Shape : Shape fresh
start-Shape = record {
  bounded = omega arith;
  stocked = tt;
  fresh = λ f. refl;
  live = λ n o. cc;
  dead = λ d. refl;
}

start-Inv : Inv start_state
start-Inv = record {
  shape = start-Shape;
  counted = refl;
  begun = λ n. absurd (n refl);
  whole = λ n. tt;
  kept = λ n. refl;
}

abbrev end_state : Sys ℕ (Metrics ℤ)
end_state = record { pool = given; held = []; dropped = seven ∷ [] }

-- A caller takes a connection, the pool is closed, the caller gives it back.
closed_run : Reach ℕ x float c start_state end_state
unfolding enter init make_chan report report_use acquire take take_open generate start close
    drain_chan drain finish put_back push send
closed_run =
    next {t = record { pool = shut; held = seven ∷ []; dropped = [] }}
      (next {t = record { pool = taken; held = seven ∷ []; dropped = [] }}
        (next {t = record { pool = inited; held = []; dropped = [] }}
          (next here (enters false (ok tt) inited refl refl))
          (takes 5 (ok 7) seven taken refl refl refl))
        (closes (ok tt) shut refl refl))
      (gives 6 none [] [] seven (ok tt) given refl refl refl)

Reach-Inv_example : Inv end_state
Reach-Inv_example = Reach-Inv ℕ x float c start-Inv closed_run

taken_eq : acquire x float c {E = ℕ} 5 (ok 7) inited ≡ some (ok seven, taken)
unfolding enter init make_chan report report_use acquire take take_open generate start
taken_eq = refl

-- Two idle connections, given back at seconds 58 and 3.
abbrev two_idle : Pool ℕ (Metrics ℤ)
two_idle = record fresh {
  once_done = true;
  chan_pool = open_chan (
      record { data_ = some 1; last_use_time = clock 58 }
      ∷ record { data_ = some 2; last_use_time = clock 3 }
      ∷ []);
  real_max_cnt = 2;
  opened = 2 ∷ 1 ∷ [];
}

two_idle-Shape : Shape two_idle
two_idle-Shape = record {
  bounded = omega arith;
  stocked = ((λ e. cc), ((λ e. cc), tt));
  fresh = λ f. cc;
  live = λ n o. refl;
  dead = λ d. cc;
}

acquire_oldest_example :
    acquire x float c {E = ℕ} 57 (ok 9) two_idle
    ≡ some (
      ok (record { data_ = some 1; last_use_time = clock 58 }),
      start x float c (record two_idle {
        chan_pool = open_chan (record { data_ = some 2; last_use_time = clock 3 } ∷ []);
      }),
    )
acquire_oldest_example =
    acquire_oldest x float c 57 (ok 9) (record { data_ = some 1; last_use_time = clock 58 })
      (record { data_ = some 2; last_use_time = clock 3 } ∷ []) two_idle (omega arith) (omega arith)
      ((58, refl, omega arith), ((3, refl, omega arith), tt)) refl
