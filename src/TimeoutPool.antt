-- ===== src/TimeoutPool.antt =====
-- extension/pool/timeout_pool.go: TimeoutPoolExtension, the pool of connections. `Use` is taken apart
-- at the points where other goroutines run: `enter`, `acquire`, the caller's function, `finish`.
pub mod Use
use oncecall.Prelude.{
  ℕ, ◌+◌, ◌*◌, Bool, true, false, ◌&&◌, not, Option, none, some, List, [], ◌∷◌, ◌==◌, if◌then◌else◌,
  length, ℤ, pos, pos_part, neg_part, ltb_ℤ, ◌+ℤ◌, ◌-ℤ◌, String, Result, ok, err,
}
use oncecall.Prelude.Partial.{◌>>=◌}
use oncecall.Metric.{MetricExtension}

-- `data_` is nil in the zero value.
pub record Item (T : Type 0) : Type 0 where
  pub data_ : Option T
  pub last_use_time : ℤ

-- The Go channel: nil before the first use; closed (and drained) by `Close`.
pub data Chan (T : Type 0) : Type 0 where
  nil_chan : Chan T
  open_chan : List (Item T) → Chan T
  closed_chan : Chan T

pub record Config : Type 0 where
  pub name : String
  pub max : ℤ
  pub idle_timeout : ℤ

-- `opened` and `closed` are the histories of the connections that Gen made and whose Close was called,
-- newest first.
pub record Pool (T M : Type 0) : Type 0 where
  pub once_done : Bool
  pub is_init : Bool
  pub is_close : Bool
  pub chan_pool : Chan T
  pub use_cnt : ℤ
  pub acc_err_cnt : ℤ
  pub real_max_cnt : ℕ
  pub metric : M
  pub opened : List T
  pub closed : List T

pub data Error (E : Type 0) : Type 0 where
  closed_error canceled : Error E
  gen_failed use_failed : E → Error E

abbrev pub zero_item : {T : Type 0} → Item T
zero_item = record { data_ = none; last_use_time = pos 0 }

-- len(u.chanPool)
abbrev pub idle_cnt : {T : Type 0} → Chan T → ℕ
idle_cnt nil_chan = 0
idle_cnt (open_chan q) = length q
idle_cnt closed_chan = 0

abbrev pub full_key : String
full_key = "full"

abbrev pub use_key : String
use_key = "use"

abbrev pub idle_key : String
idle_key = "idle"

abbrev pub acc_err_key : String
acc_err_key = "accErr"

-- time.Duration(time.Now().Second()) * time.Second: the second within the minute, 0 to 59.
abbrev pub clock : ℕ → ℤ
clock second = pos (second * 1000000000)

module _ (c : Config) where
  unfoldable pub expired : {T : Type 0} → ℕ → Item T → Bool
  expired second item =
      ltb_ℤ (pos 0) c.idle_timeout
      && (not (pos_part item.last_use_time == 0 && neg_part item.last_use_time == 0)
          && ltb_ℤ c.idle_timeout (clock second -ℤ item.last_use_time))

module _ {T F : Type 0} (x : MetricExtension F) (float : ℤ → F) (c : Config) where
  open x use {M}

  -- item.Data.Close(): a nil connection panics.
  unfoldable pub close_data : Option T → Pool T M → Option (Pool T M)
  close_data none p = none
  close_data (some t) p = some (record p { closed = t ∷ p.closed })

  unfoldable pub report : String → ℤ → Pool T M → Pool T M
  report key n p = record p { metric = x.assignment p.metric c.name key (float n) }

  -- The two gauges that follow every change.
  unfoldable pub report_use : Pool T M → Pool T M
  report_use p = record p {
    metric =
        x.assignments p.metric c.name
          ((idle_key, float (pos (idle_cnt p.chan_pool))) ∷ (use_key, float p.use_cnt) ∷ []);
  }

  unfoldable pub report_fault : Pool T M → Pool T M
  report_fault p = record p {
    metric = x.assignments p.metric c.name (
        (idle_key, float (pos (idle_cnt p.chan_pool)))
        ∷ (use_key, float p.use_cnt)
        ∷ (acc_err_key, float p.acc_err_cnt)
        ∷ []);
  }

  unfoldable pub count_err : Pool T M → Pool T M
  count_err p = record p { acc_err_cnt = p.acc_err_cnt +ℤ pos 1 }

  -- The loop of Close: every idle connection is closed.
  unfoldable pub drain : List (Item T) → Pool T M → Option (Pool T M)
  drain [] p = some p
  drain (item ∷ q) p = close_data item.data_ p >>= drain q

  unfoldable pub drain_chan : Chan T → Pool T M → Option (Pool T M)
  unfolding drain
  drain_chan nil_chan p = some p
  drain_chan (open_chan q) p = drain q p >>= λ p'. some (record p' { chan_pool = closed_chan })
  drain_chan closed_chan p = some p

  unfoldable pub close : {E : Type 0} → Pool T M → Option (Result (Error E) (Unit {0}) × Pool T M)
  unfolding drain_chan
  close p =
      if p.is_close
      then some (err closed_error, p)
      else drain_chan p.chan_pool (record p { is_close = true }) >>= λ p'.
          some (ok tt, record p' { metric = x.delete_from_name p'.metric c.name })

  unfoldable pub make_chan : Pool T M → Pool T M
  make_chan p = if p.once_done then p else record p {
    once_done = true;
    real_max_cnt = if ltb_ℤ (pos 0) c.max then pos_part c.max else 10;
    chan_pool = open_chan [];
  }

  unfoldable pub init : Pool T M → Pool T M
  unfolding make_chan
  init p =
      if p.is_init
      then p
      else record (report full_key (pos (make_chan p).real_max_cnt) (make_chan p)) {
        is_init = true;
      }

  -- Use, up to the point where an item is wanted; `done` tells whether the context is done.
  unfoldable pub enter :
      {E : Type 0} → Bool → Pool T M → Option (Result (Error E) (Unit {0}) × Pool T M)
  unfolding init
  enter {E} done p =
      if p.is_close
      then some (err closed_error, p)
      else if done
      then (close {E = E} p >>= λ r. some (err canceled, r.1))
      else some (ok tt, init p)

  -- u.gen() and the branch that calls it; `gen` is what the caller's Gen would return.
  unfoldable pub generate :
      {E : Type 0} → Result E T → Pool T M → Result (Error E) (Item T) × Pool T M
  generate gen p = if p.is_close then (ok zero_item, p) else elim gen [
    | ok t ↦
        (ok (record { data_ = some t; last_use_time = pos 0 }), record p { opened = t ∷ p.opened })
    | err e ↦ (err (gen_failed e), report acc_err_key (count_err p).acc_err_cnt (count_err p))
  ]

  -- getLoop, on the items of the channel.
  unfoldable pub take_open :
      {E : Type 0}
      → ℕ
      → Result E T
      → List (Item T)
      → Pool T M
      → Option (Result (Error E) (Item T) × Pool T M)
  take_open second gen [] p = some (generate gen (record p { chan_pool = open_chan [] }))
  take_open second gen (item ∷ q) p = elim (expired c second item) [
    | true ↦ close_data item.data_ (record p { chan_pool = open_chan q }) >>= λ p'.
        take_open second gen q (report idle_key (pos (length q)) p')
    | false ↦ some (ok item, record p { chan_pool = open_chan q })
  ]

  -- A closed channel yields the zero value at once.
  unfoldable pub take :
      {E : Type 0} → ℕ → Result E T → Pool T M → Option (Result (Error E) (Item T) × Pool T M)
  unfolding take_open
  take second gen p = elim p.chan_pool [
    | nil_chan ↦ some (generate gen p)
    | open_chan q ↦ take_open second gen q p
    | closed_chan ↦ some (ok zero_item, p)
  ]

  unfoldable pub start : Pool T M → Pool T M
  unfolding report_use
  start p = report_use (record p { use_cnt = p.use_cnt +ℤ pos 1 })

  abbrev started :
      {E : Type 0} → Result (Error E) (Item T) → Pool T M → Result (Error E) (Item T) × Pool T M
  started (ok item) p = (ok item, start p)
  started (err e) p = (err e, p)

  unfoldable pub acquire :
      {E : Type 0} → ℕ → Result E T → Pool T M → Option (Result (Error E) (Item T) × Pool T M)
  unfolding take start
  acquire second gen p = take second gen p >>= λ r. some (started r.0 r.1)
