-- ===== src/UsePool.antt =====
-- utils/generic/sync.go: SyncUsePool, a pool over sync.Pool that counts its items. `Use` is taken apart
-- where other goroutines run: the items it takes, the caller's function, and what it gives back.
pub mod Stats
pub mod Tests
use oncecall.Prelude.{
  ℕ, zero, suc, Bool, true, false, Option, none, some, List, [], ◌∷◌, if◌then◌else◌, ℤ, pos, negsuc,
  ◌+ℤ◌, ◌-ℤ◌, Result, ok, err,
}

pub record Stat : Type 0 where
  pub full : ℤ
  pub use_ : ℤ
  pub idle : ℤ
  pub acc_err : ℤ

-- `items` are those that sync.Pool keeps; a nil one was made while the pool closed. `closed` is the history
-- of the items that were closed here.
pub record UsePool (T : Type 0) : Type 0 where
  pub is_close : Bool
  pub stat : Stat
  pub items : List (Option T)
  pub closed : List T

pub data Error (E : Type 0) : Type 0 where
  closed_error : Error E
  get_failed use_failed : E → Error E

module _ {T : Type 0} where
  pub new_use_pool : UsePool T
  new_use_pool = record {
    is_close = false;
    stat = record { full = pos 0; use_ = pos 0; idle = pos 0; acc_err = pos 0 };
    items = [];
    closed = [];
  }

  pub add_stat : ℤ → ℤ → ℤ → ℤ → UsePool T → UsePool T
  add_stat full use_ idle acc_err p = record p {
    stat = record {
      full = p.stat.full +ℤ full;
      use_ = p.stat.use_ +ℤ use_;
      idle = p.stat.idle +ℤ idle;
      acc_err = p.stat.acc_err +ℤ acc_err;
    };
  }

  -- The New function of the pool; `gen` is what the caller's would return.
  pub generate : {E : Type 0} → Result E T → UsePool T → Result E (Option T) × UsePool T
  unfolding add_stat
  generate gen p = if p.is_close then (ok none, p) else elim gen [
    | ok t ↦ (ok (some t), add_stat (pos 1) (pos 0) (pos 1) (pos 0) p)
    | err e ↦ (err e, add_stat (pos 0) (pos 0) (pos 0) (pos 1) p)
  ]

  abbrev pub pick : ℕ → List (Option T) → Option (Option T × List (Option T))
  pick i [] = none
  pick zero (d ∷ items) = some (d, items)
  pick (suc i) (d ∷ items) = elim (pick i items) [
    | none ↦ none
    | some (e, rest) ↦ some (e, d ∷ rest)
  ]

  -- Get: sync.Pool gives any item that it has, the `i`-th, or calls New.
  pub get : {E : Type 0} → ℕ → Result E T → UsePool T → Result E (Option T) × UsePool T
  unfolding generate
  get i gen p = elim (pick i p.items) [
    | none ↦ generate gen p
    | some (d, rest) ↦ (ok d, record p { items = rest })
  ]

  abbrev taken :
      {E : Type 0} → Result E (Option T) × UsePool T → Result (Error E) (Option T) × UsePool T
  taken (err e, p) = (err (get_failed e), p)
  taken (ok d, p) = (ok d, add_stat (pos 0) (pos 1) (negsuc 0) (pos 0) p)

  -- Use, up to the call of the function; a Close may come after the test for it.
  pub acquire : {E : Type 0} → ℕ → Result E T → UsePool T → Result (Error E) (Option T) × UsePool T
  unfolding get add_stat
  acquire i gen p = taken (get i gen p)

  -- Close of an item that is nil panics.
  abbrev close_data : Option T → UsePool T → Option (UsePool T)
  close_data none p = none
  close_data (some t) p = some (record p { closed = t ∷ p.closed })

  abbrev answer :
      {E : Type 0}
      → Result (Error E) (Unit {0})
      → Option (UsePool T)
      → Option (Result (Error E) (Unit {0}) × UsePool T)
  answer r none = none
  answer r (some p) = some (r, p)

  -- Use, from the return of the function on.
  pub finish :
      {E : Type 0}
      → Option E
      → Option T
      → UsePool T
      → Option (Result (Error E) (Unit {0}) × UsePool T)
  unfolding add_stat
  finish fault data_ p =
      let q = add_stat (pos 0) (negsuc 0) (pos 1) (pos 0) p in
      elim fault [
        | some e ↦
            answer (err (use_failed e))
              (close_data data_ (add_stat (negsuc 0) (pos 0) (negsuc 0) (pos 1) q))
        | none ↦
            if q.is_close
            then answer (ok tt)
                (close_data data_ (add_stat (negsuc 0) (pos 0) (negsuc 0) (pos 0) q))
            else some (ok tt, record q { items = data_ ∷ q.items })
      ]

  -- Close: the counts go to nought, and no item is closed.
  pub close : {E : Type 0} → UsePool T → Result (Error E) (Unit {0}) × UsePool T
  unfolding add_stat
  close p = if p.is_close then (err closed_error, p) else (
    ok tt,
    add_stat (pos 0 -ℤ p.stat.full) (pos 0 -ℤ p.stat.use_) (pos 0 -ℤ p.stat.idle)
        (pos 0 -ℤ p.stat.acc_err) (record p { is_close = true }),
  )
