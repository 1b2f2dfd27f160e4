-- ===== src/TimeoutPool/Use.antt =====
-- extension/pool/timeout_pool.go: the second half of `Use`, and the whole of it.
pub mod Idle
pub mod Books
pub mod Shape
pub mod Keeps
pub mod Closing
pub mod Entering
pub mod Giving
pub mod Steps
pub mod Runs
pub mod Gauges
pub mod Conserved
pub mod Tests
use oncecall.Prelude.{
  ℕ, Bool, Option, none, some, List, [], ◌∷◌, ◌++◌, ltb, if◌then◌else◌, ℤ, pos, ◌-ℤ◌, Result, ok,
  err,
}
use oncecall.Prelude.Partial.{◌>>=◌}
use oncecall.Metric.{MetricExtension}
use oncecall.TimeoutPool.{
  Item, Chan, nil_chan, open_chan, closed_chan, Config, Pool, Error, use_failed, idle_cnt, clock,
  close_data, report_use, report_fault, count_err, enter, acquire,
}

module _ {T F : Type 0} (x : MetricExtension F) (float : ℤ → F) (c : Config) where
  open x use {M}

  -- The send blocks for ever on a nil channel and panics on a closed one.
  unfoldable pub send : Item T → Chan T → Option (Chan T)
  send item nil_chan = none
  send item (open_chan q) = some (open_chan (q ++ item ∷ []))
  send item closed_chan = none

  abbrev with_chan : Pool T M → Option (Chan T) → Option (Pool T M)
  with_chan p none = none
  with_chan p (some ch) = some (record p { chan_pool = ch })

  abbrev pushed : Option (Pool T M) → Option (Pool T M)
  pushed none = none
  pushed (some p) = some (report_use x float c p)

  -- Under chanPushLock.
  unfoldable pub push : ℕ → Item T → Pool T M → Option (Pool T M)
  unfolding send report_use
  push second item p = pushed (
      if ltb (idle_cnt p.chan_pool) p.real_max_cnt
      then with_chan p (send (record item { last_use_time = clock second }) p.chan_pool)
      else close_data x float c item.data_ p)

  unfoldable pub put_back : ℕ → Item T → Pool T M → Option (Pool T M)
  unfolding push
  put_back second item p = if p.is_close then some p else push second item p

  -- Use, from the return of the caller's function on: `none` is its nil error.
  unfoldable pub finish :
      {E : Type 0}
      → ℕ
      → Option E
      → Item T
      → Pool T M
      → Option (Result (Error E) (Unit {0}) × Pool T M)
  unfolding put_back report_use
  finish second fault item p =
      let q = report_use x float c (record p { use_cnt = p.use_cnt -ℤ pos 1 }) in
      elim fault [
        | none ↦ put_back second item q >>= λ q'. some (ok tt, q')
        | some e ↦ close_data x float c item.data_ q >>= λ q'.
            some (err (use_failed e), report_fault x float c (count_err x float c q'))
      ]

  abbrev used :
      {E : Type 0}
      → ℕ
      → Option E
      → Result (Error E) (Item T)
      → Pool T M
      → Option (Result (Error E) (Unit {0}) × Pool T M)
  used second fault (ok item) p = finish second fault item p
  used second fault (err e) p = some (err e, p)

  abbrev entered :
      {E : Type 0}
      → ℕ
      → Result E T
      → Option E
      → ℕ
      → Result (Error E) (Unit {0})
      → Pool T M
      → Option (Result (Error E) (Unit {0}) × Pool T M)
  entered second gen fault later (err e) p = some (err e, p)
  entered second gen fault later (ok _) p =
      acquire x float c second gen p >>= λ r. used later fault r.0 r.1

  -- A whole `Use` with nothing in between: it takes the item at `second` and gives it back at `later`.
  unfoldable pub use_ :
      {E : Type 0}
      → Bool
      → ℕ
      → Result E T
      → Option E
      → ℕ
      → Pool T M
      → Option (Result (Error E) (Unit {0}) × Pool T M)
  unfolding enter acquire finish
  use_ done second gen fault later p =
      enter x float c done p >>= λ r. entered second gen fault later r.0 r.1
