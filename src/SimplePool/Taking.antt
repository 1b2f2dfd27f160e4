-- ===== src/SimplePool/Taking.antt =====
-- `Use` of simple_pool.go up to the caller's function, against timeout_pool.go.
use oncecall.Prelude.{
  ℕ, ◌≡◌, inl, inr, false, Bool-cases, some, Option-cases, Result-cases, [], ◌∷◌, arith, ℤ, pos,
  pos_part, ◌+ℤ◌, Result, ok, err,
}
use oncecall.Metric.{MetricExtension}
use oncecall.TimeoutPool
use oncecall.TimeoutPool.{Item, Error}
use oncecall.TimeoutPool.Use.Keeps.{Chan-cases}
use oncecall.SimplePool
use oncecall.SimplePool.Forget.{forget, forget_config, forget_item, forget_taken, report_use-forget}

module _ {T F : Type 0} (x : MetricExtension F) (float : ℤ → F) (c : TimeoutPool.Config) where
  open x use {M}

  start-forget :
      (p : TimeoutPool.Pool T M)
      → SimplePool.start x float (forget_config c) (forget p)
        ≡ forget (TimeoutPool.start x float c p)
  unfolding SimplePool.start TimeoutPool.start
  start-forget p = report_use-forget x float c (record p { use_cnt = p.use_cnt +ℤ pos 1 })

  generate-forget :
      {E : Type 0} (gen : Result E T) (p : TimeoutPool.Pool T M)
      → SimplePool.generate x float (forget_config c) gen (forget p) ≡ (
        forget_item (TimeoutPool.generate x float c gen p).0,
        forget (TimeoutPool.generate x float c gen p).1,
      )
  unfolding SimplePool.generate SimplePool.report SimplePool.count_err TimeoutPool.generate
      TimeoutPool.report TimeoutPool.count_err
  generate-forget gen p = elim (Bool-cases p.is_close) [
    | inl d ↦ ground arith
    | inr n ↦ elim (Result-cases gen) [ inl (t, k) ↦ ground arith | inr (e, k) ↦ ground arith ]
  ]

  fresh :
      (second : ℕ) (item : Item T)
      → pos_part c.idle_timeout ≡ 0
      → TimeoutPool.expired c second item ≡ false
  unfolding TimeoutPool.expired
  fresh second item h = ground arith

  take-forget :
      {E : Type 0} (second : ℕ) (gen : Result E T) (p : TimeoutPool.Pool T M)
      → pos_part c.idle_timeout ≡ 0
      → some (SimplePool.take x float (forget_config c) gen (forget p))
        ≡ forget_taken (TimeoutPool.take x float c second gen p)
  unfolding SimplePool.take TimeoutPool.take TimeoutPool.take_open
  take-forget second gen p h = elim (Chan-cases p.chan_pool) [
    | inl k ↦ ground (arith, generate-forget gen p)
    | inr (inl ([], k)) ↦
        ground (arith, generate-forget gen (record p { chan_pool = TimeoutPool.open_chan [] }))
    | inr (inl (item ∷ q, k)) ↦ ground (arith, fresh second item h)
    | inr (inr k) ↦ ground arith
  ]

  -- Acquisition, where the timeout is off.
  pub acquire-forget :
      {E : Type 0} (second : ℕ) (gen : Result E T) (p : TimeoutPool.Pool T M)
      → pos_part c.idle_timeout ≡ 0
      → some (SimplePool.acquire x float (forget_config c) gen (forget p))
        ≡ forget_taken (TimeoutPool.acquire x float c second gen p)
  unfolding SimplePool.acquire TimeoutPool.acquire
  acquire-forget second gen p h = elim (Option-cases (TimeoutPool.take x float c second gen p)) [
    | inl n ↦ absurd (ground (arith, take-forget second gen p h))
    | inr ((ok item, q), k) ↦ ground (arith, take-forget second gen p h, start-forget q)
    | inr ((err e, q), k) ↦ ground (arith, take-forget second gen p h)
  ]
