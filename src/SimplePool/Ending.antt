-- ===== src/SimplePool/Ending.antt =====
-- Close, the entry and the end of `Use` of simple_pool.go, against timeout_pool.go.
use oncecall.Prelude.{
  ℕ, ◌≡◌, inl, inr, Bool, true, Bool-cases, Option, none, some, Option-cases, List, [], ◌∷◌, ◌++◌,
  arith, ltb, ℤ, pos, pos_part, ◌-ℤ◌, Result, ok, err,
}
use oncecall.Metric.{MetricExtension}
use oncecall.TimeoutPool
use oncecall.TimeoutPool.Use
use oncecall.TimeoutPool.{Item, Error}
use oncecall.TimeoutPool.Use.Keeps.{Chan-cases}
use oncecall.SimplePool
use oncecall.SimplePool.Forget.{
  forget_items, forget, forget_config, forget_after, forget_pool, forget_items-append,
  idle_cnt-forget, report_use-forget,
}
use oncecall.SimplePool.Taking.{acquire-forget}

module _ {T F : Type 0} (x : MetricExtension F) (float : ℤ → F) (c : TimeoutPool.Config) where
  open x use {M}

  drain-forget :
      (q : List (Item T)) (p p' : TimeoutPool.Pool T M)
      → TimeoutPool.drain x float c q p ≡ some p'
      → SimplePool.drain x float (forget_config c) (forget_items q) (forget p) ≡ some (forget p')
  unfolding SimplePool.drain SimplePool.close_data TimeoutPool.drain TimeoutPool.close_data
  drain-forget [] p p' e = ground arith
  drain-forget (item ∷ q) p p' e = elim (Option-cases item.data_) [
    | inl n ↦ absurd (ground arith)
    | inr (u, k) ↦ ground (arith, drain-forget q (record p { closed = u ∷ p.closed }) p')
  ]

  drain_panics :
      (q : List (Item T)) (p : TimeoutPool.Pool T M)
      → TimeoutPool.drain x float c q p ≡ none
      → SimplePool.drain x float (forget_config c) (forget_items q) (forget p) ≡ none
  unfolding SimplePool.drain SimplePool.close_data TimeoutPool.drain TimeoutPool.close_data
  drain_panics [] p e = cc
  drain_panics (item ∷ q) p e = elim (Option-cases item.data_) [
    | inl n ↦ ground arith
    | inr (u, k) ↦ ground (arith, drain_panics q (record p { closed = u ∷ p.closed }))
  ]

  -- Close, panics included.
  pub close-forget :
      {E : Type 0} (p : TimeoutPool.Pool T M)
      → SimplePool.close x float (forget_config c) {E = E} (forget p)
        ≡ forget_after (TimeoutPool.close x float c {E = E} p)
  unfolding SimplePool.close SimplePool.drain_chan TimeoutPool.close TimeoutPool.drain_chan
  close-forget p = elim (Bool-cases p.is_close) [
    | inl d ↦ ground arith
    | inr n ↦ elim (Chan-cases p.chan_pool) [
      | inl k ↦ ground arith
      | inr (inr k) ↦ ground arith
      | inr (inl (q, k)) ↦
          let s = record p { is_close = true } in
          elim (Option-cases (TimeoutPool.drain x float c q s)) [
            | inl e ↦ ground (arith, drain_panics q s e)
            | inr (p1, e) ↦ ground (arith, drain-forget q s p1 e)
          ]
    ]
  ]

  init-forget :
      (p : TimeoutPool.Pool T M)
      → SimplePool.init x float (forget_config c) (forget p) ≡ forget (TimeoutPool.init x float c p)
  unfolding SimplePool.init SimplePool.make_chan SimplePool.report TimeoutPool.init
      TimeoutPool.make_chan TimeoutPool.report
  init-forget p = elim (Bool-cases p.is_init) [
    | inl d ↦ ground arith
    | inr n ↦ elim (Bool-cases p.once_done) [ inl d ↦ ground arith | inr k ↦ ground arith ]
  ]

  -- The entry of `Use`.
  pub enter-forget :
      {E : Type 0} (done : Bool) (p : TimeoutPool.Pool T M)
      → SimplePool.enter x float (forget_config c) {E = E} done (forget p)
        ≡ forget_after (TimeoutPool.enter x float c {E = E} done p)
  unfolding SimplePool.enter TimeoutPool.enter
  enter-forget {E} done p = elim (Bool-cases p.is_close) [
    | inl d ↦ ground arith
    | inr n ↦ elim (Bool-cases done) [
      | inr k ↦ ground (arith, init-forget p)
      | inl k ↦ elim (Option-cases (TimeoutPool.close x float c {E = E} p)) [
        | inl e ↦ ground (arith, close-forget {E = E} p)
        | inr (r, e) ↦ ground (arith, close-forget {E = E} p)
      ]
    ]
  ]

  push-forget :
      (second : ℕ) (item : Item T) (p : TimeoutPool.Pool T M)
      → SimplePool.push x float (forget_config c) item.data_ (forget p)
        ≡ forget_pool (TimeoutPool.Use.push x float c second item p)
  unfolding SimplePool.push SimplePool.send SimplePool.close_data TimeoutPool.Use.push
      TimeoutPool.Use.send TimeoutPool.close_data
  push-forget second item p =
      elim (Bool-cases (ltb (TimeoutPool.idle_cnt p.chan_pool) p.real_max_cnt)) [
        | inr full ↦ elim (Option-cases item.data_) [
          | inl n ↦ ground (arith, idle_cnt-forget p.chan_pool)
          | inr (u, k) ↦ ground (
            arith,
            idle_cnt-forget p.chan_pool,
            report_use-forget x float c (record p { closed = u ∷ p.closed }),
          )
        ]
        | inl room ↦ elim (Chan-cases p.chan_pool) [
          | inl k ↦ ground (arith, idle_cnt-forget p.chan_pool)
          | inr (inr k) ↦ ground (arith, idle_cnt-forget p.chan_pool)
          | inr (inl (q, k)) ↦
              let stamped = record item { last_use_time = TimeoutPool.clock second } in
              ground (
                arith,
                idle_cnt-forget p.chan_pool,
                forget_items-append q (stamped ∷ []),
                report_use-forget x float c
                    (record p { chan_pool = TimeoutPool.open_chan (q ++ stamped ∷ []) }),
              )
        ]
      ]

  count_fault-forget :
      (p : TimeoutPool.Pool T M)
      → SimplePool.report_fault x float
          (forget_config c)
          (SimplePool.count_err x float (forget_config c) (forget p))
        ≡ forget (TimeoutPool.report_fault x float c (TimeoutPool.count_err x float c p))
  unfolding SimplePool.report_fault SimplePool.count_err TimeoutPool.report_fault
      TimeoutPool.count_err
  count_fault-forget p = ground (arith, idle_cnt-forget p.chan_pool)

  -- The end of `Use`, panics included.
  pub finish-forget :
      {E : Type 0} (second : ℕ) (fault : Option E) (item : Item T) (p : TimeoutPool.Pool T M)
      → SimplePool.finish x float (forget_config c) fault item.data_ (forget p)
        ≡ forget_after (TimeoutPool.Use.finish x float c second fault item p)
  unfolding SimplePool.finish SimplePool.put_back SimplePool.close_data TimeoutPool.Use.finish
      TimeoutPool.Use.put_back TimeoutPool.close_data
  finish-forget second none item p =
      let q = record p { use_cnt = p.use_cnt -ℤ pos 1 } in
      let r = TimeoutPool.report_use x float c q in
      elim (Bool-cases r.is_close) [
        | inl d ↦ ground (arith, report_use-forget x float c q)
        | inr n ↦ elim (Option-cases (TimeoutPool.Use.push x float c second item r)) [
          | inl k ↦ ground (arith, report_use-forget x float c q, push-forget second item r)
          | inr (p', k) ↦ ground (arith, report_use-forget x float c q, push-forget second item r)
        ]
      ]
  finish-forget second (some e) item p =
      let q = record p { use_cnt = p.use_cnt -ℤ pos 1 } in
      let r = TimeoutPool.report_use x float c q in
      elim (Option-cases item.data_) [
        | inl n ↦ ground (arith, report_use-forget x float c q)
        | inr (u, k) ↦ ground (
          arith,
          report_use-forget x float c q,
          count_fault-forget (record r { closed = u ∷ r.closed }),
        )
      ]

  -- With the timeout off, a whole `Use` of the simple pool returns what that of the timeout pool returns,
  -- and leaves the same pool, once the stamps of the items are forgotten; it panics when the other does.
  pub use_-forget :
      {E : Type 0} (done : Bool) (second later : ℕ) (gen : Result E T) (fault : Option E)
      (p : TimeoutPool.Pool T M)
      → pos_part c.idle_timeout ≡ 0
      → SimplePool.use_ x float (forget_config c) done gen fault (forget p)
        ≡ forget_after (TimeoutPool.Use.use_ x float c done second gen fault later p)
  unfolding SimplePool.use_ TimeoutPool.Use.use_
  use_-forget {E} done second later gen fault p h =
      elim (Option-cases (TimeoutPool.enter x float c {E = E} done p)) [
        | inl n ↦ ground (arith, enter-forget {E = E} done p)
        | inr ((err e, q), k) ↦ ground (arith, enter-forget {E = E} done p)
        | inr ((ok u, q), k) ↦ elim (Option-cases (TimeoutPool.acquire x float c second gen q)) [
          | inl n ↦ absurd (ground (arith, acquire-forget x float c second gen q h))
          | inr ((err e, r), l) ↦
              ground (arith, enter-forget {E = E} done p, acquire-forget x float c second gen q h)
          | inr ((ok item, r), l) ↦ ground (
            arith,
            enter-forget {E = E} done p,
            acquire-forget x float c second gen q h,
            finish-forget later fault item r,
          )
        ]
      ]
