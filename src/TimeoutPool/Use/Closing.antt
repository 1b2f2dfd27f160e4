-- ===== src/TimeoutPool/Use/Closing.antt =====
-- `Close` of timeout_pool.go.
use oncecall.Prelude.{
  ◌≡◌, refl, ap, inl, inr, true, some, List, [], ◌∷◌, arith, subst, Bool-cases, Option-cases, ℤ,
  Result, ok, err,
}
use oncecall.Metric.{MetricExtension}
use oncecall.TimeoutPool.{
  Item, closed_error, closed_chan, Config, Pool, Error, close_data, drain, drain_chan, close,
}
use oncecall.TimeoutPool.Use.Books.{queue}
use oncecall.TimeoutPool.Use.Shape.{Stocked, Shape, Same}
use oncecall.TimeoutPool.Use.Keeps.{Chan-cases}

module _ {T F : Type 0} (x : MetricExtension F) (float : ℤ → F) (c : Config) where
  open x use {M}

  drain-Same :
      (q : List (Item T)) (p : Pool T M)
      → Stocked q
      → (p' : Pool T M) × (drain x float c q p ≡ some p') × Same p p' × (p'.chan_pool ≡ p.chan_pool)
  unfolding drain close_data
  drain-Same [] p h = (
    p,
    refl,
    record { once_done = refl; real_max_cnt = refl; use_cnt = refl; is_close = refl },
    refl,
  )
  drain-Same (item ∷ q) p h = elim (Option-cases item.data_) [
    | inl n ↦ absurd (h.0 n)
    | inr (u, d) ↦
        let (p', e, s, k) = drain-Same q (record p { closed = u ∷ p.closed }) h.1 in
        (
          p',
          ground arith,
          record {
            once_done = s.once_done;
            real_max_cnt = s.real_max_cnt;
            use_cnt = s.use_cnt;
            is_close = s.is_close;
          },
          k,
        )
  ]

  -- What closing does to the pool.
  pub record Closes (p p' : Pool T M) : Type 0 where
    pub shape : Shape p'
    pub once_done : p'.once_done ≡ p.once_done
    pub use_cnt : p'.use_cnt ≡ p.use_cnt
    pub is_close : p'.is_close ≡ true
    pub empty : queue p'.chan_pool ≡ []

  -- On a pool of the right shape Close never panics; afterwards the pool is closed and nothing is idle.
  pub close-Closes :
      {E : Type 0} (p : Pool T M)
      → Shape p
      → (r : Result (Error E) (Unit {0})) × (p' : Pool T M) × (close x float c p ≡ some (r, p'))
        × Closes p p'
  unfolding close drain_chan
  close-Closes {E} p h = elim (Bool-cases p.is_close) [
    | inl d ↦ (
      err closed_error,
      p,
      ground arith,
      record { shape = h; once_done = refl; use_cnt = refl; is_close = d; empty = h.dead d },
    )
    | inr n ↦ elim (Chan-cases p.chan_pool) [
      | inl k ↦ (
        ok tt,
        record p { is_close = true; metric = x.delete_from_name p.metric c.name },
        ground arith,
        record {
          shape = record {
            bounded = h.bounded;
            stocked = h.stocked;
            fresh = h.fresh;
            live = λ f o. cc;
            dead = λ d. ap queue k;
          };
          once_done = refl;
          use_cnt = refl;
          is_close = refl;
          empty = ap queue k;
        },
      )
      | inr (inr k) ↦ (
        ok tt,
        record p { is_close = true; metric = x.delete_from_name p.metric c.name },
        ground arith,
        record {
          shape = record {
            bounded = h.bounded;
            stocked = h.stocked;
            fresh = h.fresh;
            live = λ f o. cc;
            dead = λ d. ap queue k;
          };
          once_done = refl;
          use_cnt = refl;
          is_close = refl;
          empty = ap queue k;
        },
      )
      | inr (inl (q, k)) ↦
          let (p', e, s, ch) =
            drain-Same q (record p { is_close = true }) (subst Stocked (ap queue k) h.stocked) in
          (
            ok tt,
            record p' { chan_pool = closed_chan; metric = x.delete_from_name p'.metric c.name },
            ground arith,
            record {
              shape = record {
                bounded = omega arith;
                stocked = tt;
                fresh = λ f. ground (arith, h.fresh, s.once_done);
                live = λ f o. ground (arith, s.is_close);
                dead = λ d. refl;
              };
              once_done = s.once_done;
              use_cnt = s.use_cnt;
              is_close = s.is_close;
              empty = refl;
            },
          )
    ]
  ]
