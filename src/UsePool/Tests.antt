-- ===== src/UsePool/Tests.antt =====
-- A run of the pool of sync.go.
use oncecall.Prelude.{ℕ, false, [], pos}
use oncecall.UsePool.{UsePool, new_use_pool}
use oncecall.UsePool.Stats.{Sys}

abbrev start : Sys ℕ
start = record { pool = new_use_pool; held = [] }

abbrev one_used : UsePool ℕ
one_used = record {
  is_close = false;
  stat = record { full = pos 1; use_ = pos 1; idle = pos 0; acc_err = pos 0 };
  items = [];
  closed = [];
}
