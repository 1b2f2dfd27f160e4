-- ===== src/TimeoutPool/Use/Gauges.antt =====
-- The gauges that `Use` of timeout_pool.go reports.
use oncecall.Prelude.{
  ℕ, ◌≡◌, refl, inl, inr, subst, ite, ◌∙◌, some, [], ◌∷◌, arith, Option-cases, ℤ, pos, ◌+ℤ◌, Result,
  ok, err, str_dec, String, Dict,
}
use oncecall.Metric.{MetricExtension, last_of}
use oncecall.TimeoutPool.{
  Item, Config, Pool, idle_cnt, idle_key, use_key, report_use, take, start, acquire,
}

same_key : {F : Type 0} (w : String) (a b : F) → ite (str_dec w w) a b ≡ a
same_key w a b = ground arith

module _ {T F : Type 0} (x : MetricExtension F) (float : ℤ → F) (c : Config) where
  open x use {M}

  -- The gauges of the pool's name tell its state.
  pub record Truthful (p : Pool T M) : Type 0 where
    pub idle : x.get p.metric c.name idle_key ≡ float (pos (idle_cnt p.chan_pool))
    pub used : x.get p.metric c.name use_key ≡ float p.use_cnt

  batch_use :
      (p : Pool T M) (old : F)
      → last_of use_key
          ((idle_key, float (pos (idle_cnt p.chan_pool))) ∷ (use_key, float p.use_cnt) ∷ [])
          old
        ≡ float p.use_cnt
  unfolding last_of
  batch_use p old = same_key use_key (float p.use_cnt) _

  batch_idle :
      (p : Pool T M) (old : F)
      → last_of idle_key
          ((idle_key, float (pos (idle_cnt p.chan_pool))) ∷ (use_key, float p.use_cnt) ∷ [])
          old
        ≡ float (pos (idle_cnt p.chan_pool))
  unfolding last_of str_dec
  batch_idle p old = refl

  report_use-Truthful : (p : Pool T M) → Truthful (report_use x float c p)
  unfolding report_use
  report_use-Truthful p =
      let data_ : Dict String F =
        (idle_key, float (pos (idle_cnt p.chan_pool))) ∷ (use_key, float p.use_cnt) ∷ [] in
      record {
        idle =
            x.get-assignments_lem p.metric c.name data_ c.name idle_key
            ∙ same_key c.name _ _
            ∙ batch_idle p (x.get p.metric c.name idle_key);
        used =
            x.get-assignments_lem p.metric c.name data_ c.name use_key
            ∙ same_key c.name _ _
            ∙ batch_use p (x.get p.metric c.name use_key);
      }

  -- After a `Use` that took an item, the gauges read the number of idle connections and of those in use.
  pub acquire-Truthful :
      {E : Type 0} (second : ℕ) (gen : Result E T) (p : Pool T M) (item : Item T) (p' : Pool T M)
      → acquire x float c second gen p ≡ some (ok item, p')
      → Truthful p'
  unfolding acquire start
  acquire-Truthful {E} second gen p item p' e =
      elim (Option-cases (take x float c {E = E} second gen p)) [
        | inl n ↦ absurd (ground arith)
        | inr ((ok i, p1), k) ↦
            let q = record p1 { use_cnt = p1.use_cnt +ℤ pos 1 } in
            let same : report_use x float c q ≡ p' = ground arith in
            subst Truthful same (report_use-Truthful q)
        | inr ((err f, p1), k) ↦ absurd (ground arith)
      ]
