-- ===== src/Buffer/Idle.antt =====
-- deleteIdleLocked of plan_buffer.go: which columns a write at `seq` drops first.
use oncecall.Prelude.{
  ℕ, zero, suc, ◌+◌, ◌≤◌, ◌<◌, ◌≡◌, refl, ap, ◌⊎◌, ◌&&◌, Option, none, some, List, [], ◌∷◌, arith,
  ltb, if◌then◌else◌, length, get_or, ℤ, pos, pos_part, ltb_ℤ, sub64_exact, -ℤ_parts, ◌-ℤ◌, String,
  str_dec, lookup, Distinct,
}
use oncecall.Buffer.{
  ParamValue, ParamBuffer, Columns, leb_ℤ, is_idle, delete_idle_columns, delete_idle_table,
  delete_idle_locked, columns,
}

module _ {A : Type 0} where
  -- What is left of a column that a lookup finds.
  abbrev pub kept : ℤ → ℤ → Option (ParamValue A) → Option (ParamValue A)
  kept idle seq none = none
  kept idle seq (some v) = if is_idle idle seq v then none else some v

  pub lookup-delete_idle_columns :
      (idle seq : ℤ) (col : String) (m : Columns A)
      → Distinct str_dec m
      → lookup str_dec col (delete_idle_columns idle seq m) ≡ kept idle seq (lookup str_dec col m)
  unfolding lookup delete_idle_columns
  lookup-delete_idle_columns idle seq col [] h = refl
  lookup-delete_idle_columns idle seq col ((j, v) ∷ m) h =
      ground (arith, lookup-delete_idle_columns idle seq col m)

  pub length-delete_idle_table :
      (idle seq : ℤ) (ms : List (Columns A)) → length (delete_idle_table idle seq ms) ≡ length ms
  unfolding delete_idle_table
  length-delete_idle_table idle seq [] = refl
  length-delete_idle_table idle seq (m ∷ ms) = ap suc (length-delete_idle_table idle seq ms)

  pub get_or-delete_idle_table :
      (idle seq : ℤ) (ms : List (Columns A)) (i : ℕ)
      → get_or (delete_idle_table idle seq ms) i [] ≡ delete_idle_columns idle seq (get_or ms i [])
  unfolding delete_idle_table delete_idle_columns
  get_or-delete_idle_table idle seq [] i = refl
  get_or-delete_idle_table idle seq (m ∷ ms) zero = refl
  get_or-delete_idle_table idle seq (m ∷ ms) (suc i) = get_or-delete_idle_table idle seq ms i

  -- What a write at `seq` leaves of a column.
  abbrev pub survives : ParamBuffer A → ℤ → Option (ParamValue A) → Option (ParamValue A)
  survives b seq o = if leb_ℤ b.row_idle_seq (pos 0) then o else kept b.row_idle_seq seq o

  pub lookup-delete_idle_locked :
      (b : ParamBuffer A) (seq idx : ℤ) (col : String)
      → Distinct str_dec (columns b idx)
      → lookup str_dec col (columns (delete_idle_locked b seq) idx)
        ≡ survives b seq (lookup str_dec col (columns b idx))
  unfolding delete_idle_locked
  lookup-delete_idle_locked b seq idx col h = ground (
    arith,
    get_or-delete_idle_table b.row_idle_seq seq b.table (pos_part idx),
    lookup-delete_idle_columns b.row_idle_seq seq col (columns b idx),
  )

  pub length-delete_idle_locked :
      (b : ParamBuffer A) (seq : ℤ) → length (delete_idle_locked b seq).table ≡ length b.table
  unfolding delete_idle_locked
  length-delete_idle_locked b seq =
      ground (arith, length-delete_idle_table b.row_idle_seq seq b.table)

  pub row_cap-delete_idle_locked :
      (b : ParamBuffer A) (seq : ℤ) → (delete_idle_locked b seq).row_cap ≡ b.row_cap
  unfolding delete_idle_locked
  row_cap-delete_idle_locked b seq = ground arith

  is_idle-eq :
      (idle : ℤ) (n m : ℕ) (v : ParamValue A)
      → n < 0x8000000000000000
      → v.seq ≡ pos m
      → is_idle idle (pos n) v ≡ (ltb m n && ltb_ℤ idle (pos n -ℤ pos m))
  unfolding is_idle
  is_idle-eq idle n m v h e = ground (arith, sub64_exact (pos n) (pos m))

  -- A column written at `m` survives a write at `n` exactly when idling is off, or at most
  -- `row_idle_seq` has passed: the int64 subtraction cannot wrap at times from 0 on.
  pub delete_idle_locked_lem :
      (b : ParamBuffer A) (n m : ℕ) (idx : ℤ) (col : String) (v : ParamValue A)
      → Distinct str_dec (columns b idx)
      → n < 0x8000000000000000
      → lookup str_dec col (columns b idx) ≡ some v
      → v.seq ≡ pos m
      → ((lookup str_dec col (columns (delete_idle_locked b (pos n)) idx) ≡ some v)
          × ((pos_part b.row_idle_seq ≡ 0) ⊎ (n ≤ m + pos_part b.row_idle_seq)))
        ⊎ ((lookup str_dec col (columns (delete_idle_locked b (pos n)) idx) ≡ none)
            × (0 < pos_part b.row_idle_seq)
            × (m + pos_part b.row_idle_seq < n))
  delete_idle_locked_lem b n m idx col v d h f e = ground (
    arith,
    lookup-delete_idle_locked b (pos n) idx col d,
    is_idle-eq b.row_idle_seq n m v h e,
    -ℤ_parts (pos n) (pos m),
  )
