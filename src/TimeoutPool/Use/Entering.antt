-- ===== src/TimeoutPool/Use/Entering.antt =====
-- The start of `Use` in timeout_pool.go.
use oncecall.Prelude.{
  ◌≡◌, refl, sym, ◌∙◌, inl, inr, Bool, true, false, some, [], arith, if◌then◌else◌, pos_part, ltb_ℤ,
  subst, Bool-cases, ℤ, pos, Result, ok, err,
}
use oncecall.Metric.{MetricExtension}
use oncecall.TimeoutPool.{
  full_key, closed_error, canceled, open_chan, Config, Pool, Error, report, make_chan, init, enter,
}
use oncecall.TimeoutPool.Use.Shape.{Shape}
use oncecall.TimeoutPool.Use.Closing.{close-Closes}

module _ {T F : Type 0} (x : MetricExtension F) (float : ℤ → F) (c : Config) where
  open x use {M}

  -- What entering does to the pool.
  pub record Enters {E : Type 0} (p p' : Pool T M) (r : Result (Error E) (Unit {0})) : Type 0 where
    pub shape : Shape p'
    pub use_cnt : p'.use_cnt ≡ p.use_cnt
    pub once_done : p.once_done ≡ true → p'.once_done ≡ true
    pub is_close : p.is_close ≡ true → p'.is_close ≡ true
    pub admitted : r ≡ ok tt → p'.is_close ≡ false

  make_chan-Shape : (p : Pool T M) → Shape p → Shape (make_chan x float c p)
  unfolding make_chan
  make_chan-Shape p h = elim (Bool-cases p.once_done) [
    | inl d ↦ let e : make_chan x float c p ≡ p = ground arith in subst Shape (sym e) h
    | inr n ↦
        let made = record p {
          once_done = true;
          real_max_cnt = if ltb_ℤ (pos 0) c.max then pos_part c.max else 10;
          chan_pool = open_chan [];
        } in
        let e : make_chan x float c p ≡ made = ground arith in
        let s : Shape made = record {
          bounded = omega arith;
          stocked = tt;
          fresh = λ f. cc;
          live = λ f o. refl;
          dead = λ d. refl;
        } in
        subst Shape (sym e) s
  ]

  init-Shape : (p : Pool T M) → Shape p → Shape (init x float c p)
  unfolding init report
  init-Shape p h = elim (Bool-cases p.is_init) [
    | inl d ↦ let e : init x float c p ≡ p = ground arith in subst Shape (sym e) h
    | inr n ↦
        let q = make_chan x float c p in
        let s = make_chan-Shape p h in
        let made = record (report x float c full_key (pos q.real_max_cnt) q) { is_init = true } in
        let e : init x float c p ≡ made = ground arith in
        let t : Shape made = record {
          bounded = s.bounded;
          stocked = s.stocked;
          fresh = s.fresh;
          live = s.live;
          dead = s.dead;
        } in
        subst Shape (sym e) t
  ]

  init_fields :
      (p : Pool T M)
      → ((init x float c p).use_cnt ≡ p.use_cnt)
        × ((init x float c p).is_close ≡ p.is_close)
        × (p.once_done ≡ true → (init x float c p).once_done ≡ true)
  unfolding init make_chan report
  init_fields p = ground arith

  -- Entering never panics on a pool of the right shape, and lets nobody in once the pool is closed.
  pub enter-Enters :
      {E : Type 0} (done : Bool) (p : Pool T M)
      → Shape p
      → (r : Result (Error E) (Unit {0})) × (p' : Pool T M) × (enter x float c done p
          ≡ some (r, p'))
        × Enters p p' r
  unfolding enter
  enter-Enters {E} done p h = elim (Bool-cases p.is_close) [
    | inl d ↦ (
      err closed_error,
      p,
      ground arith,
      record {
        shape = h;
        use_cnt = refl;
        once_done = λ o. o;
        is_close = λ k. k;
        admitted = λ e. cc;
      },
    )
    | inr n ↦ elim (Bool-cases done) [
      | inl d ↦
          let (r, p', e, k) = close-Closes x float c {E = E} p h in
          (
            err canceled,
            p',
            ground arith,
            record {
              shape = k.shape;
              use_cnt = k.use_cnt;
              once_done = λ o. k.once_done ∙ o;
              is_close = λ _. k.is_close;
              admitted = λ q. cc;
            },
          )
      | inr g ↦ (
        ok tt,
        init x float c p,
        ground arith,
        record {
          shape = init-Shape p h;
          use_cnt = (init_fields p).0;
          once_done = (init_fields p).2;
          is_close = λ k. (init_fields p).1 ∙ k;
          admitted = λ q. (init_fields p).1 ∙ n;
        },
      )
    ]
  ]
