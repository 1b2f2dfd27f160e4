-- ===== src/TimeoutPool/Use/Idle.antt =====
-- When timeout_pool.go takes an idle connection for too old.
use oncecall.Prelude.{
  ℕ, ◌+◌, ◌*◌, ◌≤◌, ◌<◌, ◌≡◌, ◌≢◌, ◌⊎◌, true, false, some, List, [], ◌∷◌, arith, ℤ, pos_part,
  Result, ok, -ℤ_parts,
}
use oncecall.Metric.{MetricExtension}
use oncecall.TimeoutPool.{
  Item, Config, Pool, open_chan, clock, expired, take_open, take, start, acquire,
}

-- Both times are seconds within a minute, so their difference is below 60 s. An item stamped at
-- `stamp` and looked at when the clock shows `second` is too old exactly when the timeout is on, the
-- stamp is not 0 and the clock shows more than the timeout above the stamp; once the clock has
-- passed a full minute it is not.
pub expired_lem :
    (c : Config) {T : Type 0} (second stamp : ℕ) (item : Item T)
    → item.last_use_time ≡ clock stamp
    → ((expired c second item ≡ true)
        × (0 < pos_part c.idle_timeout)
        × (stamp ≢ 0)
        × (stamp * 1000000000 + pos_part c.idle_timeout < second * 1000000000))
      ⊎ ((expired c second item ≡ false)
          × ((pos_part c.idle_timeout ≡ 0)
              ⊎ ((stamp ≡ 0)
                  ⊎ (second * 1000000000 ≤ stamp * 1000000000 + pos_part c.idle_timeout))))
unfolding expired
expired_lem c second stamp item h = ground (arith, -ℤ_parts (clock second) (clock stamp))

-- What put_back stamps: a second of the clock.
abbrev pub Stamped : {T : Type 0} → List (Item T) → Type 0
Stamped [] = Unit
Stamped (item ∷ q) = ((stamp : ℕ) × (item.last_use_time ≡ clock stamp) × (stamp < 60)) × Stamped q

module _ {T F : Type 0} (x : MetricExtension F) (float : ℤ → F) (c : Config) where
  open x use {M}

  -- With a timeout of 59 s or more, such as the 61 s that connpool sets, no idle connection is ever too
  -- old, whatever time has passed: `Use` gets the one that was given back first, and closes none.
  pub acquire_oldest :
      {E : Type 0} (second : ℕ) (gen : Result E T) (item : Item T) (q : List (Item T))
      (p : Pool T M)
      → 59000000000 ≤ pos_part c.idle_timeout
      → second < 60
      → Stamped (item ∷ q)
      → p.chan_pool ≡ open_chan (item ∷ q)
      → acquire x float c second gen p
        ≡ some (ok item, start x float c (record p { chan_pool = open_chan q }))
  unfolding acquire take take_open
  acquire_oldest second gen item q p h s ((stamp, e, l), _) k =
      ground (arith, expired_lem c second stamp item e)
