-- ===== src/TimeoutPool/Use/Shape.antt =====
-- What holds of the state of timeout_pool.go between two atomic parts of its calls, and that no part
-- panics where it holds.
use oncecall.Prelude.{
  ℕ, ◌≤◌, ◌≡◌, ◌≢◌, refl, ap, inl, inr, true, false, none, some, List, [], ◌∷◌, ◌++◌, arith,
  Bool-cases, Option-cases, length, ℤ, pos, Result, ok, String, String,
}
use oncecall.Metric.{MetricExtension}
use oncecall.TimeoutPool.{
  Item, nil_chan, open_chan, Config, Pool, Error, idle_key, expired, close_data, report, count_err,
  generate, take_open,
}
use oncecall.TimeoutPool.Use.Books.{queue}

abbrev pub Whole : {T : Type 0} → Item T → Type 0
Whole item = item.data_ ≢ none

abbrev pub Stocked : {T : Type 0} → List (Item T) → Type 0
Stocked [] = Unit
Stocked (item ∷ q) = Whole item × Stocked q

pub Stocked-append :
    {T : Type 0} (q : List (Item T)) (item : Item T)
    → Stocked q
    → Whole item
    → Stocked (q ++ item ∷ [])
Stocked-append [] item h w = (w, tt)
Stocked-append (i ∷ q) item h w = (h.0, Stocked-append q item h.1 w)

pub record Shape {T M : Type 0} (p : Pool T M) : Type 0 where
  pub bounded : length (queue p.chan_pool) ≤ p.real_max_cnt
  pub stocked : Stocked (queue p.chan_pool)
  pub fresh : p.once_done ≡ false → p.chan_pool ≡ nil_chan
  pub live : p.is_close ≡ false → p.once_done ≡ true → p.chan_pool ≡ open_chan (queue p.chan_pool)
  pub dead : p.is_close ≡ true → queue p.chan_pool ≡ []

-- The fields that taking and closing leave alone.
pub record Same {T M : Type 0} (p p' : Pool T M) : Type 0 where
  pub once_done : p'.once_done ≡ p.once_done
  pub real_max_cnt : p'.real_max_cnt ≡ p.real_max_cnt
  pub use_cnt : p'.use_cnt ≡ p.use_cnt
  pub is_close : p'.is_close ≡ p.is_close

module _ {T F : Type 0} (x : MetricExtension F) (float : ℤ → F) (c : Config) where
  open x use {M}

  -- What taking from an open channel returns.
  pub record Takes {E : Type 0} (q : List (Item T)) (p p' : Pool T M)
      (r : Result (Error E) (Item T)) : Type 0 where
    pub same : Same p p'
    pub shrinks : length (queue p'.chan_pool) ≤ length q
    pub stocked : Stocked (queue p'.chan_pool)
    pub still_open : p'.chan_pool ≡ open_chan (queue p'.chan_pool)
    pub whole : (item : Item T) → r ≡ ok item → p.is_close ≡ false → Whole item

  report-Same : (key : String) (n : ℤ) (p : Pool T M) → Same p (report x float c key n p)
  unfolding report
  report-Same key n p = ground arith

  closing :
      {E : Type 0} (second : ℕ) (gen : Result E T) (item : Item T) (q : List (Item T))
      (p : Pool T M) (u : T) (r : Result (Error E) (Item T)) (p' : Pool T M)
      → expired c second item ≡ true
      → item.data_ ≡ some u
      → take_open x float c second gen q (
          report x float c idle_key
            (pos (length q))
            (record p { chan_pool = open_chan q; closed = u ∷ p.closed }))
        ≡ some (r, p')
      → take_open x float c second gen (item ∷ q) p ≡ some (r, p')
  unfolding take_open close_data
  closing second gen item q p u r p' old d e = ground arith

  pub generate-Same :
      {E : Type 0} (gen : Result E T) (p : Pool T M)
      → Same p (generate x float c gen p).1 × ((generate x float c gen p).1.chan_pool ≡ p.chan_pool)
  unfolding generate report count_err
  generate-Same gen p = ground arith

  pub generate-Whole :
      {E : Type 0} (gen : Result E T) (p : Pool T M) (item : Item T)
      → (generate x float c gen p).0 ≡ ok item
      → p.is_close ≡ false
      → Whole item
  unfolding generate report count_err
  generate-Whole gen p item e h = ground arith

  pub take_open-Takes :
      {E : Type 0} (second : ℕ) (gen : Result E T) (q : List (Item T)) (p : Pool T M)
      → Stocked q
      → (r : Result (Error E) (Item T)) × (p' : Pool T M) × (take_open x float c second gen q p
          ≡ some (r, p'))
        × Takes q p p' r
  unfolding take_open
  take_open-Takes second gen [] p h =
      let s = record p { chan_pool = open_chan [] } in
      let (same, ch) = generate-Same gen s in
      (
        _,
        _,
        refl,
        record {
          same = record {
            once_done = same.once_done;
            real_max_cnt = same.real_max_cnt;
            use_cnt = same.use_cnt;
            is_close = same.is_close;
          };
          shrinks = omega (arith, ap (λ k. length (queue k)) ch);
          stocked = rw ch tt;
          still_open = rw ch refl;
          whole = λ item e n. generate-Whole gen s item e n;
        },
      )
  take_open-Takes second gen (item ∷ q) p h = elim (Bool-cases (expired c second item)) [
    | inr fresh ↦ (
      ok item,
      record p { chan_pool = open_chan q },
      ground arith,
      record {
        same = record { once_done = refl; real_max_cnt = refl; use_cnt = refl; is_close = refl };
        shrinks = omega arith;
        stocked = h.1;
        still_open = refl;
        whole = λ i e n. ground arith;
      },
    )
    | inl old ↦ elim (Option-cases item.data_) [
      | inl n ↦ absurd (h.0 n)
      | inr (u, d) ↦
          let s =
            report x float c idle_key (pos (length q))
              (record p { chan_pool = open_chan q; closed = u ∷ p.closed }) in
          let (r, p', e, t) = take_open-Takes second gen q s h.1 in
          (
            r,
            p',
            closing second gen item q p u r p' old d e,
            record {
              same = ground (
                arith,
                t.same,
                report-Same idle_key (pos (length q))
                    (record p { chan_pool = open_chan q; closed = u ∷ p.closed }),
              );
              shrinks = omega (arith, t.shrinks);
              stocked = t.stocked;
              still_open = t.still_open;
              whole = λ i k n. t.whole i k (
                  ground (
                    arith,
                    report-Same idle_key (pos (length q))
                        (record p { chan_pool = open_chan q; closed = u ∷ p.closed }),
                  ));
            },
          )
    ]
  ]
