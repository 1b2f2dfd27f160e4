-- ===== src/TimeoutPool/Use/Keeps.antt =====
-- No part of timeout_pool.go panics on a pool of the right shape, and each keeps the shape.
use oncecall.Prelude.{
  ℕ, ◌≡◌, refl, ap, ◌∙◌, inl, inr, ◌⊎◌, false, some, List, arith, Result-cases, subst, Bool-cases,
  length, ℤ, pos, ◌+ℤ◌, Result, ok, err,
}
use oncecall.Metric.{MetricExtension}
use oncecall.TimeoutPool.{
  Item, Chan, nil_chan, open_chan, closed_chan, Config, Pool, Error, zero_item, report_use,
  generate, take, start, acquire,
}
use oncecall.TimeoutPool.Use.Books.{queue}
use oncecall.TimeoutPool.Use.Shape.{
  Whole, Stocked, Shape, Same, Takes, take_open-Takes, generate-Same, generate-Whole,
}

pub Chan-cases :
    {T : Type 0} (ch : Chan T)
    → (ch ≡ nil_chan) ⊎ (((q : List (Item T)) × (ch ≡ open_chan q)) ⊎ (ch ≡ closed_chan))
Chan-cases nil_chan = inl refl
Chan-cases (open_chan q) = inr (inl (q, refl))
Chan-cases closed_chan = inr (inr refl)

module _ {T F : Type 0} (x : MetricExtension F) (float : ℤ → F) (c : Config) where
  open x use {M}

  -- What acquiring does to the pool.
  pub record Acquires {E : Type 0} (p p' : Pool T M) (r : Result (Error E) (Item T)) : Type 0 where
    pub shape : Shape p'
    pub once_done : p'.once_done ≡ p.once_done
    pub is_close : p'.is_close ≡ p.is_close
    pub taken : (item : Item T) → r ≡ ok item → p'.use_cnt ≡ p.use_cnt +ℤ pos 1
    pub refused : (e : Error E) → r ≡ err e → p'.use_cnt ≡ p.use_cnt
    pub whole : (item : Item T) → r ≡ ok item → p.is_close ≡ false → Whole item

  record Taken {E : Type 0} (p p' : Pool T M) (r : Result (Error E) (Item T)) : Type 0 where
    same : Same p p'
    shape : Shape p'
    whole : (item : Item T) → r ≡ ok item → p.is_close ≡ false → Whole item

  open_Taken :
      {E : Type 0} (q : List (Item T)) (p p' : Pool T M) (r : Result (Error E) (Item T))
      → Shape p
      → p.chan_pool ≡ open_chan q
      → Takes x float c q p p' r
      → Taken p p' r
  open_Taken q p p' r h e t = record {
    same = t.same;
    shape = record {
      bounded =
          omega (arith, t.shrinks, t.same.real_max_cnt, h.bounded, ap (λ k. length (queue k)) e);
      stocked = t.stocked;
      fresh = λ f. absurd (ground (arith, h.fresh, t.same.once_done));
      live = λ n o. t.still_open;
      dead = λ d. ground (arith, t.shrinks, h.dead, t.same.is_close);
    };
    whole = t.whole;
  }

  take-Taken :
      {E : Type 0} (second : ℕ) (gen : Result E T) (p : Pool T M)
      → Shape p
      → (r : Result (Error E) (Item T)) × (p' : Pool T M) × (take x float c second gen p
          ≡ some (r, p'))
        × Taken p p' r
  unfolding take
  take-Taken second gen p h = elim (Chan-cases p.chan_pool) [
    | inl n ↦
        let (same, ch) = generate-Same x float c gen p in
        (
          (generate x float c gen p).0,
          (generate x float c gen p).1,
          ground arith,
          record {
            same = same;
            shape = record {
              bounded = ground (arith, h.bounded);
              stocked = rw (ch, n) tt;
              fresh = λ f. ch ∙ n;
              live = λ k o. ground (arith, h.live);
              dead = λ d. ground arith;
            };
            whole = generate-Whole x float c gen p;
          },
        )
    | inr (inl (q, o)) ↦
        let stocked : Stocked q = subst Stocked (ap queue o) h.stocked in
        let (r, p', e, t) = take_open-Takes x float c second gen q p stocked in
        (r, p', ground arith, open_Taken q p p' r h o t)
    | inr (inr k) ↦ (
      ok zero_item,
      p,
      ground arith,
      record {
        same = record { once_done = refl; real_max_cnt = refl; use_cnt = refl; is_close = refl };
        shape = h;
        whole = λ item e n. ground (arith, h.live, h.fresh, Bool-cases p.once_done);
      },
    )
  ]

  -- On a pool of the right shape, acquiring never panics; it keeps the shape, counts the item in use if
  -- and only if there is one, and hands out nil only if the pool was closed meanwhile.
  pub acquire-Acquires :
      {E : Type 0} (second : ℕ) (gen : Result E T) (p : Pool T M)
      → Shape p
      → (r : Result (Error E) (Item T)) × (p' : Pool T M) × (acquire x float c second gen p
          ≡ some (r, p'))
        × Acquires p p' r
  unfolding acquire start report_use
  acquire-Acquires second gen p h =
      let (r, p', e, t) = take-Taken second gen p h in
      elim (Result-cases r) [
        | inl (item, k) ↦ (
          ok item,
          start x float c p',
          ground arith,
          record {
            shape = record {
              bounded = t.shape.bounded;
              stocked = t.shape.stocked;
              fresh = t.shape.fresh;
              live = t.shape.live;
              dead = t.shape.dead;
            };
            once_done = t.same.once_done;
            is_close = t.same.is_close;
            taken = λ i q. ap (λ n. n +ℤ pos 1) t.same.use_cnt;
            refused = λ f q. cc;
            whole = λ i q n. t.whole i (k ∙ q) n;
          },
        )
        | inr (f, k) ↦ (
          err f,
          p',
          ground arith,
          record {
            shape = t.shape;
            once_done = t.same.once_done;
            is_close = t.same.is_close;
            taken = λ i q. cc;
            refused = λ g q. t.same.use_cnt;
            whole = λ i q n. cc;
          },
        )
      ]
