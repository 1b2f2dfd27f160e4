-- ===== src/SimplePool/Forget.antt =====
-- The pool of simple_pool.go against that of timeout_pool.go: it is the timeout pool with its timeout
-- off, once the stamps of the items are forgotten.
use oncecall.Prelude.{
  ◌≡◌, refl, Option, none, some, List, [], ◌∷◌, ◌++◌, arith, length, ℤ, Result, ok, err, ap,
}
use oncecall.Metric.{MetricExtension}
use oncecall.TimeoutPool
use oncecall.TimeoutPool.{Item, Error}
use oncecall.SimplePool

abbrev pub forget_items : {T : Type 0} → List (Item T) → List (Option T)
forget_items [] = []
forget_items (item ∷ q) = item.data_ ∷ forget_items q

abbrev pub forget_chan : {T : Type 0} → TimeoutPool.Chan T → SimplePool.Chan T
forget_chan TimeoutPool.nil_chan = SimplePool.nil_chan
forget_chan (TimeoutPool.open_chan q) = SimplePool.open_chan (forget_items q)
forget_chan TimeoutPool.closed_chan = SimplePool.closed_chan

abbrev pub forget : {T M : Type 0} → TimeoutPool.Pool T M → SimplePool.Pool T M
forget p = record {
  once_done = p.once_done;
  is_init = p.is_init;
  is_close = p.is_close;
  chan_pool = forget_chan p.chan_pool;
  use_cnt = p.use_cnt;
  acc_err_cnt = p.acc_err_cnt;
  real_max_cnt = p.real_max_cnt;
  metric = p.metric;
  opened = p.opened;
  closed = p.closed;
}

abbrev pub forget_config : TimeoutPool.Config → SimplePool.Config
forget_config c = record { name = c.name; max = c.max }

-- On what a call returns.
abbrev pub forget_after :
    {A T M : Type 0} → Option (A × TimeoutPool.Pool T M) → Option (A × SimplePool.Pool T M)
forget_after none = none
forget_after (some (r, p)) = some (r, forget p)

abbrev pub forget_pool :
    {T M : Type 0} → Option (TimeoutPool.Pool T M) → Option (SimplePool.Pool T M)
forget_pool none = none
forget_pool (some p) = some (forget p)

abbrev pub forget_item : {E T : Type 0} → Result (Error E) (Item T) → Result (Error E) (Option T)
forget_item (ok item) = ok item.data_
forget_item (err e) = err e

abbrev pub forget_taken :
    {E T M : Type 0}
    → Option (Result (Error E) (Item T) × TimeoutPool.Pool T M)
    → Option (Result (Error E) (Option T) × SimplePool.Pool T M)
forget_taken none = none
forget_taken (some (r, p)) = some (forget_item r, forget p)

pub length-forget_items : {T : Type 0} (q : List (Item T)) → length (forget_items q) ≡ length q
length-forget_items [] = refl
length-forget_items (item ∷ q) = omega (arith, length-forget_items q)

pub forget_items-append :
    {T : Type 0} (q r : List (Item T)) → forget_items (q ++ r) ≡ forget_items q ++ forget_items r
forget_items-append [] r = refl
forget_items-append (item ∷ q) r = ap (λ l. item.data_ ∷ l) (forget_items-append q r)

pub idle_cnt-forget :
    {T : Type 0} (ch : TimeoutPool.Chan T)
    → SimplePool.idle_cnt (forget_chan ch) ≡ TimeoutPool.idle_cnt ch
idle_cnt-forget TimeoutPool.nil_chan = refl
idle_cnt-forget (TimeoutPool.open_chan q) = length-forget_items q
idle_cnt-forget TimeoutPool.closed_chan = refl

module _ {T F : Type 0} (x : MetricExtension F) (float : ℤ → F) (c : TimeoutPool.Config) where
  open x use {M}

  pub report_use-forget :
      (p : TimeoutPool.Pool T M)
      → SimplePool.report_use x float (forget_config c) (forget p)
        ≡ forget (TimeoutPool.report_use x float c p)
  unfolding SimplePool.report_use TimeoutPool.report_use
  report_use-forget p = ground (arith, idle_cnt-forget p.chan_pool)
