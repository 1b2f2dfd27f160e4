-- ===== src/TimeoutPool/Use/Steps.antt =====
-- The pool of timeout_pool.go under any number of goroutines: each takes its steps, one at a time, in
-- any order, and `Close` may come between any two.
use oncecall.Prelude.{
  ℕ, ◌≡◌, ◌≢◌, Bool, true, false, Option, none, some, List, [], ◌∷◌, ◌++◌, length, ℤ, pos, Result,
  ok, err,
}
use oncecall.Metric.{MetricExtension}
use oncecall.TimeoutPool.{Item, Config, Pool, Error, enter, acquire, close}
use oncecall.TimeoutPool.Use.{finish}
use oncecall.TimeoutPool.Use.Shape.{Stocked, Shape}

-- The pool, the items that callers hold, and those that were given back to a closed pool.
pub record Sys (T M : Type 0) : Type 0 where
  pub pool : Pool T M
  pub held : List (Item T)
  pub dropped : List (Item T)

abbrev pub drop_if : {T : Type 0} → Bool → Item T → List (Item T) → List (Item T)
drop_if true item l = item ∷ l
drop_if false item l = l

-- Whether the item is dropped: no error, and the pool is closed.
abbrev pub drops : {E : Type 0} → Option E → Bool → Bool
drops none is_close = is_close
drops (some e) is_close = false

-- Between two steps.
pub record Inv {T M : Type 0} (s : Sys T M) : Type 0 where
  pub shape : Shape s.pool
  pub counted : s.pool.use_cnt ≡ pos (length s.held)
  pub begun : s.held ≢ [] → s.pool.once_done ≡ true
  pub whole : s.pool.is_close ≡ false → Stocked s.held
  pub kept : s.pool.is_close ≡ false → s.dropped ≡ []

module _ {T F : Type 0} (E : Type 0) (x : MetricExtension F) (float : ℤ → F) (c : Config) where
  open x use {M}

  pub data Step (s u : Sys T M) : Type 0 where
    enters :
        (done : Bool) (r : Result (Error E) (Unit {0})) (p : Pool T M)
        → enter x float c done s.pool ≡ some (r, p)
        → u ≡ record s { pool = p }
        → Step s u
    takes :
        (second : ℕ) (gen : Result E T) (item : Item T) (p : Pool T M)
        → s.pool.once_done ≡ true
        → acquire x float c second gen s.pool ≡ some (ok item, p)
        → u ≡ record s { pool = p; held = item ∷ s.held }
        → Step s u
    fails :
        (second : ℕ) (gen : Result E T) (e : Error E) (p : Pool T M)
        → s.pool.once_done ≡ true
        → acquire x float c second gen s.pool ≡ some (err e, p)
        → u ≡ record s { pool = p }
        → Step s u
    gives :
        (second : ℕ) (fault : Option E) (before after : List (Item T)) (item : Item T)
        (r : Result (Error E) (Unit {0})) (p : Pool T M)
        → s.held ≡ before ++ item ∷ after
        → finish x float c second fault item s.pool ≡ some (r, p)
        → u ≡ record {
          pool = p;
          held = before ++ after;
          dropped = drop_if (drops fault s.pool.is_close) item s.dropped;
        }
        → Step s u
    closes :
        (r : Result (Error E) (Unit {0})) (p : Pool T M)
        → close x float c s.pool ≡ some (r, p)
        → u ≡ record s { pool = p }
        → Step s u

  pub data Reach (s : Sys T M) : Sys T M → Type 0 where
    here : Reach s s
    next : {t u : Sys T M} → Reach s t → Step t u → Reach s u
