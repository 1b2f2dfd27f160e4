-- ===== src/TimeoutPool/Use/Conserved.antt =====
-- Where the connections of timeout_pool.go are after any run of its callers.
use oncecall.Prelude.{◌+◌, ◌≡◌, ℤ}
use oncecall.Metric.{MetricExtension}
use oncecall.TimeoutPool.{Config}
use oncecall.TimeoutPool.Use.Books.{count, count_items, settled}
use oncecall.TimeoutPool.Use.Steps.{Sys}

module _ {T F : Type 0} (E : Type 0) (x : MetricExtension F) (float : ℤ → F) (c : Config)
    (dec : Discrete T) (t : T) where
  open x use {M}

  -- Every connection that Gen made is idle, closed, held by a caller or dropped, in one place only.
  abbrev pub Conserved : Sys T M → Type 0
  Conserved s =
      count dec t s.pool.opened
      ≡ settled dec t s.pool + (count_items dec t s.held + count_items dec t s.dropped)
