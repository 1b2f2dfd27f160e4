-- ===== src/UsePool/Stats.antt =====
-- That the counts of sync.go are those of the items, under any number of goroutines.
use oncecall.Prelude.{
  ℕ, ◌+◌, ◌≡◌, false, Option, some, List, ◌∷◌, ◌++◌, length, pos, Result, ok, err,
}
use oncecall.UsePool.{UsePool, Error, acquire, finish}

-- The pool, and the items that callers hold.
pub record Sys (T : Type 0) : Type 0 where
  pub pool : UsePool T
  pub held : List (Option T)

module _ {T : Type 0} where
  -- While the pool is open the counts are those of the items.
  pub record Counted (s : Sys T) : Type 0 where
    pub is_open : s.pool.is_close ≡ false
    pub full : s.pool.stat.full ≡ pos (length s.pool.items + length s.held)
    pub used : s.pool.stat.use_ ≡ pos (length s.held)
    pub idle : s.pool.stat.idle ≡ pos (length s.pool.items)

  pub data Step (E : Type 0) (s u : Sys T) : Type 0 where
    takes :
        (i : ℕ) (gen : Result E T) (d : Option T) (p : UsePool T)
        → acquire i gen s.pool ≡ (ok d, p)
        → u ≡ record { pool = p; held = d ∷ s.held }
        → Step E s u
    fails :
        (i : ℕ) (gen : Result E T) (e : Error E) (p : UsePool T)
        → acquire i gen s.pool ≡ (err e, p)
        → u ≡ record s { pool = p }
        → Step E s u
    gives :
        (fault : Option E) (before after : List (Option T)) (d : Option T)
        (r : Result (Error E) (Unit {0})) (p : UsePool T)
        → s.held ≡ before ++ d ∷ after
        → finish fault d s.pool ≡ some (r, p)
        → u ≡ record { pool = p; held = before ++ after }
        → Step E s u

  pub data Reach (E : Type 0) (s : Sys T) : Sys T → Type 0 where
    here : Reach E s s
    next : {t u : Sys T} → Reach E s t → Step E t u → Reach E s u
