-- ===== src/TimeoutPool/Use/Runs.antt =====
-- What holds of the pool of timeout_pool.go after any run of its callers.
use oncecall.Prelude.{
  ℕ, suc, ◌≡◌, refl, ap, sym, ◌∙◌, subst, inl, inr, ◌⊎◌, Bool, true, false, Bool-cases, Option,
  none, some, List, [], ◌∷◌, ◌++◌, arith, length, length-append, ℤ, pos, ◌+ℤ◌, ◌-ℤ◌, Result, ok,
  err,
}
use oncecall.Metric.{MetricExtension}
use oncecall.TimeoutPool.{Item, Config, Pool, Error, enter, acquire, close}
use oncecall.TimeoutPool.Use.{finish}
use oncecall.TimeoutPool.Use.Shape.{Whole, Stocked}
use oncecall.TimeoutPool.Use.Keeps.{acquire-Acquires}
use oncecall.TimeoutPool.Use.Closing.{close-Closes}
use oncecall.TimeoutPool.Use.Entering.{enter-Enters}
use oncecall.TimeoutPool.Use.Giving.{finish_nil, finish-Finishes}
use oncecall.TimeoutPool.Use.Steps.{
  Sys, drop_if, drops, Inv, Step, enters, takes, fails, gives, closes, Reach, here, next,
}

Stocked-split :
    {T : Type 0} (before after : List (Item T)) (item : Item T)
    → Stocked (before ++ item ∷ after)
    → Whole item × Stocked (before ++ after)
Stocked-split [] after item h = h
Stocked-split (i ∷ before) after item h =
    let rest = Stocked-split before after item h.1 in (rest.0, (h.0, rest.1))

length-split :
    {T : Type 0} (before after : List T) (item : T)
    → length (before ++ item ∷ after) ≡ suc (length (before ++ after))
length-split before after item =
    omega (arith, length-append before (item ∷ after), length-append before after)

plus_one : (n : ℕ) → pos n +ℤ pos 1 ≡ pos (suc n)
unfolding ◌+ℤ◌
plus_one n = ground arith

minus_one : (n : ℕ) → pos (suc n) -ℤ pos 1 ≡ pos n
unfolding ◌-ℤ◌
minus_one n = ground arith

module _ {T F : Type 0} (E : Type 0) (x : MetricExtension F) (float : ℤ → F) (c : Config) where
  open x use {M}

  enters-Inv :
      (done : Bool) (s : Sys T M) (r : Result (Error E) (Unit {0})) (p : Pool T M)
      → Inv s
      → enter x float c done s.pool ≡ some (r, p)
      → Inv (record s { pool = p })
  enters-Inv done s r p h e =
      let (r1, p1, e1, k) = enter-Enters x float c {E = E} done s.pool h.shape in
      let same : p1 ≡ p = cc in
      subst (λ q. Inv (record s { pool = q })) same
        (record {
          shape = k.shape;
          counted = k.use_cnt ∙ h.counted;
          begun = λ n. k.once_done (h.begun n);
          whole = λ n. h.whole (ground (arith, k.is_close, Bool-cases s.pool.is_close));
          kept = λ n. h.kept (ground (arith, k.is_close, Bool-cases s.pool.is_close));
        })

  closes-Inv :
      (s : Sys T M) (r : Result (Error E) (Unit {0})) (p : Pool T M)
      → Inv s
      → close x float c s.pool ≡ some (r, p)
      → Inv (record s { pool = p })
  closes-Inv s r p h e =
      let (r1, p1, e1, k) = close-Closes x float c {E = E} s.pool h.shape in
      let same : p1 ≡ p = cc in
      subst (λ q. Inv (record s { pool = q })) same
        (record {
          shape = k.shape;
          counted = k.use_cnt ∙ h.counted;
          begun = λ n. k.once_done ∙ h.begun n;
          whole = λ n. ground (arith, k.is_close);
          kept = λ n. ground (arith, k.is_close);
        })

  takes-Inv :
      (second : ℕ) (gen : Result E T) (s : Sys T M) (item : Item T) (p : Pool T M)
      → Inv s
      → s.pool.once_done ≡ true
      → acquire x float c second gen s.pool ≡ some (ok item, p)
      → Inv (record s { pool = p; held = item ∷ s.held })
  takes-Inv second gen s item p h o e =
      let (r1, p1, e1, k) = acquire-Acquires x float c second gen s.pool h.shape in
      let same : p1 ≡ p = cc in
      let result : r1 ≡ ok item = cc in
      subst (λ q. Inv (record s { pool = q; held = item ∷ s.held })) same
        (record {
          shape = k.shape;
          counted = k.taken item result ∙ ap (λ n. n +ℤ pos 1) h.counted ∙ plus_one (length s.held);
          begun = λ n. k.once_done ∙ o;
          whole = λ n. (k.whole item result (sym k.is_close ∙ n), h.whole (sym k.is_close ∙ n));
          kept = λ n. h.kept (sym k.is_close ∙ n);
        })

  fails-Inv :
      (second : ℕ) (gen : Result E T) (s : Sys T M) (f : Error E) (p : Pool T M)
      → Inv s
      → acquire x float c second gen s.pool ≡ some (err f, p)
      → Inv (record s { pool = p })
  fails-Inv second gen s f p h e =
      let (r1, p1, e1, k) = acquire-Acquires x float c second gen s.pool h.shape in
      let same : p1 ≡ p = cc in
      let result : r1 ≡ err f = cc in
      subst (λ q. Inv (record s { pool = q })) same
        (record {
          shape = k.shape;
          counted = k.refused f result ∙ h.counted;
          begun = λ n. k.once_done ∙ h.begun n;
          whole = λ n. h.whole (sym k.is_close ∙ n);
          kept = λ n. h.kept (sym k.is_close ∙ n);
        })

  -- What a give-back that did not panic tells of the item.
  gives_ready :
      (second : ℕ) (fault : Option E) (before after : List (Item T)) (item : Item T) (s : Sys T M)
      (r : Result (Error E) (Unit {0})) (p : Pool T M)
      → Inv s
      → s.held ≡ before ++ item ∷ after
      → finish x float c second fault item s.pool ≡ some (r, p)
      → Whole item ⊎ ((s.pool.is_close ≡ true) × (fault ≡ none))
  gives_ready second none before after item s r p h q e = elim (Bool-cases s.pool.is_close) [
    | inl d ↦ inr (d, refl)
    | inr n ↦ inl (Stocked-split before after item (subst Stocked q (h.whole n))).0
  ]
  gives_ready second (some f) before after item s r p h q e =
      inl (λ n. absurd (ground (arith, finish_nil x float c second f item s.pool n)))

  drop_kept :
      (item : Item T) (fault : Option E) (is_close : Bool) (l : List (Item T))
      → is_close ≡ false
      → drop_if (drops fault is_close) item l ≡ l
  drop_kept item none is_close l n = ground arith
  drop_kept item (some e) is_close l n = refl

  gives-Inv :
      (second : ℕ) (fault : Option E) (before after : List (Item T)) (item : Item T) (s : Sys T M)
      (r : Result (Error E) (Unit {0})) (p : Pool T M)
      → Inv s
      → s.held ≡ before ++ item ∷ after
      → finish x float c second fault item s.pool ≡ some (r, p)
      → Inv (record {
        pool = p;
        held = before ++ after;
        dropped = drop_if (drops fault s.pool.is_close) item s.dropped;
      })
  gives-Inv second fault before after item s r p h q e =
      let begun : s.pool.once_done ≡ true =
        h.begun
          (λ n. absurd (ground (arith, length-split before after item, ap length (sym q ∙ n)))) in
      let (r1, p1, e1, k) =
        finish-Finishes x float c second fault item s.pool h.shape begun
          (gives_ready second fault before after item s r p h q e) in
      let same : p1 ≡ p = cc in
      subst
        (λ u. Inv (record {
          pool = u;
          held = before ++ after;
          dropped = drop_if (drops fault s.pool.is_close) item s.dropped;
        }))
        same
        (record {
          shape = k.shape;
          counted =
              k.use_cnt
              ∙ ap (λ n. n -ℤ pos 1)
                  (h.counted ∙ ap pos (ap length q ∙ length-split before after item))
              ∙ minus_one (length (before ++ after));
          begun = λ n. k.once_done ∙ begun;
          whole = λ n.
              (Stocked-split before after item (subst Stocked q (h.whole (sym k.is_close ∙ n)))).1;
          kept = λ n.
              drop_kept item fault s.pool.is_close s.dropped (sym k.is_close ∙ n)
              ∙ h.kept (sym k.is_close ∙ n);
        })

  pub Step-Inv : {s u : Sys T M} → Step E x float c s u → Inv s → Inv u
  Step-Inv {s} (enters done r p e q) h = subst Inv (sym q) (enters-Inv done s r p h e)
  Step-Inv {s} (takes second gen item p o e q) h =
      subst Inv (sym q) (takes-Inv second gen s item p h o e)
  Step-Inv {s} (fails second gen f p o e q) h = subst Inv (sym q) (fails-Inv second gen s f p h e)
  Step-Inv {s} (gives second fault before after item r p k e q) h =
      subst Inv (sym q) (gives-Inv second fault before after item s r p h k e)
  Step-Inv {s} (closes r p e q) h = subst Inv (sym q) (closes-Inv s r p h e)

  -- In every run the idle connections never exceed the limit, the use count is the number of items that
  -- callers hold, and while the pool is open nobody holds nil and nothing was dropped.
  pub Reach-Inv : {s u : Sys T M} → Inv s → Reach E x float c s u → Inv u
  Reach-Inv h here = h
  Reach-Inv h (next r st) = Step-Inv st (Reach-Inv h r)
