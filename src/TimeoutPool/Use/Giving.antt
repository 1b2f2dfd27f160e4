-- ===== src/TimeoutPool/Use/Giving.antt =====
-- The end of `Use` in timeout_pool.go: the item is given back, or closed.
use oncecall.Prelude.{
  ℕ, ◌≡◌, refl, inl, inr, ◌⊎◌, true, false, Option, none, some, [], ◌∷◌, ◌++◌, arith, ltb,
  Bool-cases, Option-cases, length-append, ℤ, pos, ◌-ℤ◌, Result, ok, err,
}
use oncecall.Metric.{MetricExtension}
use oncecall.TimeoutPool.{
  Item, use_failed, open_chan, Config, Pool, Error, idle_cnt, clock, close_data, report_use,
  report_fault, count_err,
}
use oncecall.TimeoutPool.Use.{send, push, put_back, finish}
use oncecall.TimeoutPool.Use.Books.{queue}
use oncecall.TimeoutPool.Use.Shape.{Whole, Stocked-append, Shape}

module _ {T F : Type 0} (x : MetricExtension F) (float : ℤ → F) (c : Config) where
  open x use {M}

  -- What giving back does to the pool.
  pub record Finishes (p p' : Pool T M) : Type 0 where
    pub shape : Shape p'
    pub use_cnt : p'.use_cnt ≡ p.use_cnt -ℤ pos 1
    pub once_done : p'.once_done ≡ p.once_done
    pub is_close : p'.is_close ≡ p.is_close

  push-Finishes :
      (second : ℕ) (item : Item T) (p : Pool T M)
      → Shape p
      → p.is_close ≡ false
      → p.once_done ≡ true
      → Whole item
      → (p' : Pool T M) × (push x float c second item p ≡ some p')
        × Shape p'
        × (p'.use_cnt ≡ p.use_cnt)
        × (p'.once_done ≡ p.once_done)
        × (p'.is_close ≡ p.is_close)
  unfolding push send close_data report_use
  push-Finishes second item p h n o w =
      let q = queue p.chan_pool in
      let k : p.chan_pool ≡ open_chan q = h.live n o in
      elim (Bool-cases (ltb (idle_cnt p.chan_pool) p.real_max_cnt)) [
        | inl room ↦
            let stamped = record item { last_use_time = clock second } in
            (
              report_use x float c (record p { chan_pool = open_chan (q ++ stamped ∷ []) }),
              ground arith,
              record {
                bounded = ground (arith, length-append q (stamped ∷ []));
                stocked = Stocked-append q stamped h.stocked w;
                fresh = λ f. cc;
                live = λ f o'. refl;
                dead = λ d. cc;
              },
              refl,
              refl,
              refl,
            )
        | inr full ↦ elim (Option-cases item.data_) [
          | inl d ↦ absurd (w d)
          | inr (u, d) ↦ (
            report_use x float c (record p { closed = u ∷ p.closed }),
            ground arith,
            record {
              bounded = h.bounded;
              stocked = h.stocked;
              fresh = h.fresh;
              live = h.live;
              dead = h.dead;
            },
            refl,
            refl,
            refl,
          )
        ]
      ]

  -- Giving back never panics on a pool of the right shape, unless the caller reports an error on the nil
  -- connection, which `Use` hands out only after the pool was closed; it counts one item less in use.
  pub finish-Finishes :
      {E : Type 0} (second : ℕ) (fault : Option E) (item : Item T) (p : Pool T M)
      → Shape p
      → p.once_done ≡ true
      → (Whole item ⊎ ((p.is_close ≡ true) × (fault ≡ none)))
      → (r : Result (Error E) (Unit {0})) × (p' : Pool T M) × (finish x float c second fault item p
          ≡ some (r, p'))
        × Finishes p p'
  unfolding finish put_back report_use close_data report_fault count_err
  finish-Finishes second none item p h o w =
      let q = report_use x float c (record p { use_cnt = p.use_cnt -ℤ pos 1 }) in
      let hq : Shape q = record {
        bounded = h.bounded;
        stocked = h.stocked;
        fresh = h.fresh;
        live = h.live;
        dead = h.dead;
      } in
      elim (Bool-cases p.is_close) [
        | inl d ↦ (
          ok tt,
          q,
          ground arith,
          record { shape = hq; use_cnt = refl; once_done = refl; is_close = refl },
        )
        | inr n ↦
            let whole : Whole item = elim w [ inl k ↦ k | inr (d, _) ↦ cc ] in
            let (p', e, s, u, v, k) = push-Finishes second item q hq n o whole in
            (
              ok tt,
              p',
              ground arith,
              record { shape = s; use_cnt = u; once_done = v; is_close = k },
            )
      ]
  finish-Finishes second (some e) item p h o w = elim (Option-cases item.data_) [
    | inl n ↦ absurd (elim w [ inl k ↦ k n | inr (d, f) ↦ cc ])
    | inr (u, d) ↦ (
      err (use_failed e),
      report_fault x float c (
          count_err x float c
            (record (report_use x float c (record p { use_cnt = p.use_cnt -ℤ pos 1 })) {
              closed = u ∷ p.closed;
            })),
      ground arith,
      record {
        shape = record {
          bounded = h.bounded;
          stocked = h.stocked;
          fresh = h.fresh;
          live = h.live;
          dead = h.dead;
        };
        use_cnt = refl;
        once_done = refl;
        is_close = refl;
      },
    )
  ]

  -- A caller that reports an error on the nil connection panics.
  pub finish_nil :
      {E : Type 0} (second : ℕ) (e : E) (item : Item T) (p : Pool T M)
      → item.data_ ≡ none
      → finish x float c second (some e) item p ≡ none
  unfolding finish close_data
  finish_nil second e item p h = ground arith
