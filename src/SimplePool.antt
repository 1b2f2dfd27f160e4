-- ===== src/SimplePool.antt =====
-- extension/pool/simple_pool.go: SimplePoolExtension, the pool without timeouts. `Use` is taken apart as
-- that of the timeout pool is; its errors and its limits are the same types.
pub mod Forget
pub mod Taking
pub mod Ending
pub mod Tests
use oncecall.Prelude.{
  ℕ, ◌+◌, ◌*◌, Bool, true, false, ◌&&◌, not, Option, none, some, List, [], ◌∷◌, ◌++◌, ◌==◌,
  if◌then◌else◌, ltb, length, ℤ, pos, pos_part, neg_part, ltb_ℤ, ◌+ℤ◌, ◌-ℤ◌, String, Result, ok,
  err,
}
use oncecall.Prelude.Partial.{◌>>=◌}
use oncecall.Metric.{MetricExtension}
use oncecall.TimeoutPool.{
  Error, closed_error, canceled, gen_failed, use_failed, full_key, use_key, idle_key, acc_err_key,
}

-- The Go channel of items; `none` is the nil item.
pub data Chan (T : Type 0) : Type 0 where
  nil_chan : Chan T
  open_chan : List (Option T) → Chan T
  closed_chan : Chan T

pub record Config : Type 0 where
  pub name : String
  pub max : ℤ

-- `opened` and `closed` are the histories of the connections that Gen made and whose Close was called,
-- newest first.
pub record Pool (T M : Type 0) : Type 0 where
  pub once_done : Bool
  pub is_init : Bool
  pub is_close : Bool
  pub chan_pool : Chan T
  pub use_cnt : ℤ
  pub acc_err_cnt : ℤ
  pub real_max_cnt : ℕ
  pub metric : M
  pub opened : List T
  pub closed : List T

-- len(u.chanPool)
abbrev pub idle_cnt : {T : Type 0} → Chan T → ℕ
idle_cnt nil_chan = 0
idle_cnt (open_chan q) = length q
idle_cnt closed_chan = 0

module _ {T F : Type 0} (x : MetricExtension F) (float : ℤ → F) (c : Config) where
  open x use {M}

  -- item.Data.Close(): a nil connection panics.
  pub close_data : Option T → Pool T M → Option (Pool T M)
  close_data none p = none
  close_data (some t) p = some (record p { closed = t ∷ p.closed })

  pub report : String → ℤ → Pool T M → Pool T M
  report key n p = record p { metric = x.assignment p.metric c.name key (float n) }

  -- The two gauges that follow every change.
  pub report_use : Pool T M → Pool T M
  report_use p = record p {
    metric =
        x.assignments p.metric c.name
          ((idle_key, float (pos (idle_cnt p.chan_pool))) ∷ (use_key, float p.use_cnt) ∷ []);
  }

  pub report_fault : Pool T M → Pool T M
  report_fault p = record p {
    metric = x.assignments p.metric c.name (
        (idle_key, float (pos (idle_cnt p.chan_pool)))
        ∷ (use_key, float p.use_cnt)
        ∷ (acc_err_key, float p.acc_err_cnt)
        ∷ []);
  }

  pub count_err : Pool T M → Pool T M
  count_err p = record p { acc_err_cnt = p.acc_err_cnt +ℤ pos 1 }

  -- The loop of Close: every idle connection is closed.
  pub drain : List (Option T) → Pool T M → Option (Pool T M)
  drain [] p = some p
  drain (item ∷ q) p = close_data item p >>= drain q

  pub drain_chan : Chan T → Pool T M → Option (Pool T M)
  unfolding drain
  drain_chan nil_chan p = some p
  drain_chan (open_chan q) p = drain q p >>= λ p'. some (record p' { chan_pool = closed_chan })
  drain_chan closed_chan p = some p

  pub close : {E : Type 0} → Pool T M → Option (Result (Error E) (Unit {0}) × Pool T M)
  unfolding drain_chan
  close p =
      if p.is_close
      then some (err closed_error, p)
      else drain_chan p.chan_pool (record p { is_close = true }) >>= λ p'.
          some (ok tt, record p' { metric = x.delete_from_name p'.metric c.name })

  pub make_chan : Pool T M → Pool T M
  make_chan p = if p.once_done then p else record p {
    once_done = true;
    real_max_cnt = if ltb_ℤ (pos 0) c.max then pos_part c.max else 10;
    chan_pool = open_chan [];
  }

  pub init : Pool T M → Pool T M
  unfolding make_chan
  init p =
      if p.is_init
      then p
      else record (report full_key (pos (make_chan p).real_max_cnt) (make_chan p)) {
        is_init = true;
      }

  -- Use, up to the point where an item is wanted; `done` tells whether the context is done.
  pub enter : {E : Type 0} → Bool → Pool T M → Option (Result (Error E) (Unit {0}) × Pool T M)
  unfolding init
  enter {E} done p =
      if p.is_close
      then some (err closed_error, p)
      else if done
      then (close {E = E} p >>= λ r. some (err canceled, r.1))
      else some (ok tt, init p)

  -- u.gen() and the branch that calls it; `gen` is what the caller's Gen would return.
  pub generate : {E : Type 0} → Result E T → Pool T M → Result (Error E) (Option T) × Pool T M
  generate gen p = if p.is_close then (ok none, p) else elim gen [
    | ok t ↦ (ok (some t), record p { opened = t ∷ p.opened })
    | err e ↦ (err (gen_failed e), report acc_err_key (count_err p).acc_err_cnt (count_err p))
  ]

  -- The select: an item of the channel, or a new one. A closed channel yields the zero value at once.
  pub take : {E : Type 0} → Result E T → Pool T M → Result (Error E) (Option T) × Pool T M
  unfolding generate
  take gen p = elim p.chan_pool [
    | nil_chan ↦ generate gen p
    | open_chan [] ↦ generate gen p
    | open_chan (item ∷ q) ↦ (ok item, record p { chan_pool = open_chan q })
    | closed_chan ↦ (ok none, p)
  ]

  pub start : Pool T M → Pool T M
  unfolding report_use
  start p = report_use (record p { use_cnt = p.use_cnt +ℤ pos 1 })

  abbrev started :
      {E : Type 0} → Result (Error E) (Option T) × Pool T M → Result (Error E) (Option T) × Pool T M
  started (ok item, p) = (ok item, start p)
  started (err e, p) = (err e, p)

  pub acquire : {E : Type 0} → Result E T → Pool T M → Result (Error E) (Option T) × Pool T M
  unfolding take start
  acquire gen p = started (take gen p)

  -- The send blocks for ever on a nil channel and panics on a closed one.
  pub send : Option T → Chan T → Option (Chan T)
  send item nil_chan = none
  send item (open_chan q) = some (open_chan (q ++ item ∷ []))
  send item closed_chan = none

  abbrev with_chan : Pool T M → Option (Chan T) → Option (Pool T M)
  with_chan p none = none
  with_chan p (some ch) = some (record p { chan_pool = ch })

  abbrev pushed : Option (Pool T M) → Option (Pool T M)
  pushed none = none
  pushed (some p) = some (report_use p)

  -- Under chanPushLock.
  pub push : Option T → Pool T M → Option (Pool T M)
  unfolding send report_use
  push item p = pushed (
      if ltb (idle_cnt p.chan_pool) p.real_max_cnt
      then with_chan p (send item p.chan_pool)
      else close_data item p)

  pub put_back : Option T → Pool T M → Option (Pool T M)
  unfolding push
  put_back item p = if p.is_close then some p else push item p

  -- Use, from the return of the caller's function on: `none` is its nil error.
  pub finish :
      {E : Type 0}
      → Option E
      → Option T
      → Pool T M
      → Option (Result (Error E) (Unit {0}) × Pool T M)
  unfolding put_back report_use
  finish fault item p =
      let q = report_use (record p { use_cnt = p.use_cnt -ℤ pos 1 }) in
      elim fault [
        | none ↦ put_back item q >>= λ q'. some (ok tt, q')
        | some e ↦
            close_data item q >>= λ q'. some (err (use_failed e), report_fault (count_err q'))
      ]

  abbrev used :
      {E : Type 0}
      → Option E
      → Result (Error E) (Option T) × Pool T M
      → Option (Result (Error E) (Unit {0}) × Pool T M)
  used fault (ok item, p) = finish fault item p
  used fault (err e, p) = some (err e, p)

  abbrev entered :
      {E : Type 0}
      → Result E T
      → Option E
      → Result (Error E) (Unit {0}) × Pool T M
      → Option (Result (Error E) (Unit {0}) × Pool T M)
  entered gen fault (ok _, p) = used fault (acquire gen p)
  entered gen fault (err e, p) = some (err e, p)

  -- A whole `Use` with nothing in between.
  pub use_ :
      {E : Type 0}
      → Bool
      → Result E T
      → Option E
      → Pool T M
      → Option (Result (Error E) (Unit {0}) × Pool T M)
  unfolding enter acquire finish
  use_ done gen fault p = enter done p >>= entered gen fault
