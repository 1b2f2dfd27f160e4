-- ===== src/TimeoutPool/Use/Books.antt =====
-- What each part of timeout_pool.go does to the connections: none is made, lost or closed twice.
use oncecall.Prelude.{
  ℕ, ◌+◌, ◌≡◌, refl, inl, inr, ite, Bool, true, false, Option, none, some, List, [], ◌∷◌, ◌++◌,
  arith, if◌then◌else◌, Bool-cases, Option-cases, length, ℤ, pos, Result, ok, err,
}
use oncecall.Metric.{MetricExtension}
use oncecall.TimeoutPool.{
  Item, Chan, nil_chan, open_chan, closed_chan, Config, Pool, Error, idle_key, clock, expired,
  close_data, report, report_use, report_fault, count_err, drain, drain_chan, close, make_chan,
  init, enter, generate, take_open, take, start, acquire,
}
use oncecall.TimeoutPool.Use.{send, push, put_back, finish}

-- The items of the channel.
abbrev pub queue : {T : Type 0} → Chan T → List (Item T)
queue nil_chan = []
queue (open_chan q) = q
queue closed_chan = []

module _ {T : Type 0} (dec : Discrete T) (t : T) where
  abbrev pub amount : Option T → ℕ
  amount none = 0
  amount (some u) = ite (dec u t) 1 0

  abbrev pub count : List T → ℕ
  count [] = 0
  count (u ∷ us) = amount (some u) + count us

  abbrev pub count_items : List (Item T) → ℕ
  count_items [] = 0
  count_items (item ∷ q) = amount item.data_ + count_items q

  pub count_items-append :
      (q r : List (Item T)) → count_items (q ++ r) ≡ count_items q + count_items r
  count_items-append [] r = omega arith
  count_items-append (item ∷ q) r = omega (arith, count_items-append q r)

  -- What the pool has in hand of the connection `t`: idle or closed.
  abbrev pub settled : {M : Type 0} → Pool T M → ℕ
  settled p = count_items (queue p.chan_pool) + count p.closed

module _ {T F : Type 0} (x : MetricExtension F) (float : ℤ → F) (c : Config) (dec : Discrete T)
    (t : T) where
  open x use {M}

  abbrev got : {E : Type 0} → Result (Error E) (Item T) → ℕ
  got (ok item) = amount dec t item.data_
  got (err e) = 0

  -- The connections that were opened before and after, against where they are.
  abbrev Balanced : {E : Type 0} → Pool T M → Result (Error E) (Item T) → Pool T M → Type 0
  Balanced p r p' =
      count dec t p'.opened + settled dec t p ≡ count dec t p.opened + settled dec t p' + got r

  generate-Balanced :
      {E : Type 0} (gen : Result E T) (p : Pool T M)
      → Balanced p (generate x float c gen p).0 (generate x float c gen p).1
  unfolding generate report count_err
  generate-Balanced gen p = ground arith

  take_open-Balanced :
      {E : Type 0} (second : ℕ) (gen : Result E T) (q : List (Item T)) (p : Pool T M)
      (r : Result (Error E) (Item T)) (p' : Pool T M)
      → queue p.chan_pool ≡ q
      → take_open x float c second gen q p ≡ some (r, p')
      → Balanced p r p'
  unfolding take_open close_data report
  take_open-Balanced second gen [] p r p' h e =
      ground (arith, generate-Balanced gen (record p { chan_pool = open_chan [] }))
  take_open-Balanced second gen (item ∷ q) p r p' h e = elim (Bool-cases (expired c second item)) [
    | inr fresh ↦ ground arith
    | inl old ↦ elim (Option-cases item.data_) [
      | inl n ↦ absurd (ground arith)
      | inr (u, d) ↦
          let next =
            report x float c idle_key (pos (length q))
              (record p { chan_pool = open_chan q; closed = u ∷ p.closed }) in
          ground (arith, take_open-Balanced second gen q next r p')
    ]
  ]

  pub take-Balanced :
      {E : Type 0} (second : ℕ) (gen : Result E T) (p : Pool T M) (r : Result (Error E) (Item T))
      (p' : Pool T M)
      → take x float c second gen p ≡ some (r, p')
      → Balanced p r p'
  unfolding take
  take-Balanced second gen p r p' e = ground (
    arith,
    generate-Balanced gen p,
    take_open-Balanced second gen (queue p.chan_pool) p r p' refl,
  )

  pub acquire-Balanced :
      {E : Type 0} (second : ℕ) (gen : Result E T) (p : Pool T M) (r : Result (Error E) (Item T))
      (p' : Pool T M)
      → acquire x float c second gen p ≡ some (r, p')
      → Balanced p r p'
  unfolding acquire start report_use
  acquire-Balanced second gen p r p' e = elim (Option-cases (take x float c second gen p)) [
    | inl n ↦ absurd (ground arith)
    | inr ((r1, p1), k) ↦ ground (arith, take-Balanced second gen p r1 p1 k)
  ]

  -- A connection that comes back without an error to a closed pool is neither kept nor closed.
  abbrev pub lost : {E : Type 0} → Option E → Pool T M → Item T → ℕ
  lost none p item = if p.is_close then amount dec t item.data_ else 0
  lost (some e) p item = 0

  pub finish-Balanced :
      {E : Type 0} (second : ℕ) (fault : Option E) (item : Item T) (p : Pool T M)
      (r : Result (Error E) (Unit {0})) (p' : Pool T M)
      → finish x float c second fault item p ≡ some (r, p')
      → (count dec t p'.opened ≡ count dec t p.opened)
        × (settled dec t p' + lost fault p item ≡ settled dec t p + amount dec t item.data_)
  unfolding finish put_back push send close_data report_use report_fault count_err
  finish-Balanced second fault item p r p' e = ground (
    arith,
    count_items-append dec t (queue p.chan_pool)
        (record item { last_use_time = clock second } ∷ []),
  )

  drain-settled :
      (q : List (Item T)) (p p' : Pool T M)
      → drain x float c q p ≡ some p'
      → (count dec t p'.opened ≡ count dec t p.opened)
        × (count dec t p'.closed ≡ count dec t p.closed + count_items dec t q)
  unfolding drain close_data
  drain-settled [] p p' e = ground arith
  drain-settled (item ∷ q) p p' e = elim (Option-cases item.data_) [
    | inl n ↦ absurd (ground arith)
    | inr (u, d) ↦ ground (arith, drain-settled q (record p { closed = u ∷ p.closed }) p')
  ]

  pub close-Balanced :
      {E : Type 0} (p : Pool T M) (r : Result (Error E) (Unit {0})) (p' : Pool T M)
      → close x float c p ≡ some (r, p')
      → (count dec t p'.opened ≡ count dec t p.opened) × (settled dec t p' ≡ settled dec t p)
  unfolding close drain_chan
  close-Balanced p r p' e =
      elim (Option-cases (drain x float c (queue p.chan_pool) (record p { is_close = true }))) [
        | inl n ↦ ground arith
        | inr (p1, k) ↦
            ground (arith, drain-settled (queue p.chan_pool) (record p { is_close = true }) p1)
      ]

  pub enter-Balanced :
      {E : Type 0} (done : Bool) (p : Pool T M) (r : Result (Error E) (Unit {0})) (p' : Pool T M)
      → (p.once_done ≡ false → queue p.chan_pool ≡ [])
      → enter x float c done p ≡ some (r, p')
      → (count dec t p'.opened ≡ count dec t p.opened) × (settled dec t p' ≡ settled dec t p)
  unfolding enter init make_chan report
  enter-Balanced {E} done p r p' h e = elim (Option-cases (close x float c {E = E} p)) [
    | inl n ↦ ground arith
    | inr ((r1, p1), k) ↦ ground (arith, close-Balanced {E = E} p r1 p1 k)
  ]
