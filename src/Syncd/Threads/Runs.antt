-- ===== src/Syncd/Threads/Runs.antt =====
-- That every plan gets to run.
use oncecall.Prelude.{ℕ, ◌+◌, ◌≤◌, arith}
use oncecall.SharedState.{ThreadKey}
use oncecall.Syncd.Threads.{Threads, occurs, visit}
use oncecall.Syncd.Threads.Alone.{Alone}

module _ {P : Type 0} where
  abbrev goroutines : Threads P → ThreadKey → ℕ
  goroutines t k = occurs t.starting k + occurs t.running k

  visit_alive : (ik : ThreadKey) (t : Threads P) → Alone t → 1 ≤ goroutines (visit ik t) ik
  unfolding visit
  visit_alive ik t h = ground (arith, h.marked ik)
