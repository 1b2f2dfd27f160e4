-- ===== src/Buffer/Size/Order.antt =====
-- The `range` loops of plan_buffer.go over maps, whose order Go leaves open.
use mathlib.Core.List.{Permᴰ}
use oncecall.Prelude.{ℕ, ◌≤◌, ◌≡◌, refl, sym, ap, ◌∙◌, inl, inr, arith, ℤ}
use oncecall.Buffer.{ParamValue, Columns}
use oncecall.Buffer.Size.{longer, longest_row, max_row_size_locked, max_col_size_locked}
use oncecall.Buffer.Size.Cols.{number_at, max_col_size_locked_lem}

module _ {A : Type 0} where
  number_at-perm : (s : ℤ) {m m' : Columns A} → Permᴰ m m' → number_at s m ≡ number_at s m'
  unfolding number_at
  number_at-perm s Permᴰ.nil = refl
  number_at-perm s (Permᴰ.cons {a = a} {b = b} e p) = ground (arith, e, number_at-perm s p)
  number_at-perm s (Permᴰ.swap {a = a} {b = b} {a' = c} {b' = d} e f) = ground arith
  number_at-perm s (Permᴰ.trans p q) = number_at-perm s p ∙ number_at-perm s q

  max_col_size_locked-le :
      (seq : ℤ) (m m' : Columns A)
      → ((s : ℤ) → number_at s m ≡ number_at s m')
      → max_col_size_locked seq m ≤ max_col_size_locked seq m'
  max_col_size_locked-le seq m m' same = elim (max_col_size_locked_lem seq m).1 [
    | inl z ↦ omega arith
    | inr (s, h, q) ↦ omega (arith, same s, (max_col_size_locked_lem seq m').0 s h)
  ]

  longer_comm :
      (seq : ℤ) (v w : ParamValue A) (most : ℕ)
      → longer seq w (longer seq v most) ≡ longer seq v (longer seq w most)
  longer_comm seq v w most = ground arith

  longest_row-perm :
      (seq : ℤ) (most : ℕ) {m m' : Columns A}
      → Permᴰ m m'
      → longest_row seq m most ≡ longest_row seq m' most
  unfolding longest_row
  longest_row-perm seq most Permᴰ.nil = refl
  longest_row-perm seq most (Permᴰ.cons {a = a} e p) =
      rw (← e) (longest_row-perm seq (longer seq a.1 most) p)
  longest_row-perm seq most (Permᴰ.swap {a = a} {b = b} {l = l} e f) =
      rw (← e, ← f) (ap (longest_row seq l) (longer_comm seq a.1 b.1 most))
  longest_row-perm seq most (Permᴰ.trans p q) =
      longest_row-perm seq most p ∙ longest_row-perm seq most q

  -- The sizes do not depend on the order in which a loop over the map meets its entries.
  pub sizes-perm :
      (seq : ℤ) (m m' : Columns A)
      → Permᴰ m m'
      → (max_col_size_locked seq m ≡ max_col_size_locked seq m')
        × (max_row_size_locked seq m ≡ max_row_size_locked seq m')
  unfolding max_row_size_locked
  sizes-perm seq m m' p =
      let same = λ (s : ℤ). number_at-perm s p in
      (
        omega (
          arith,
          max_col_size_locked-le seq m m' same,
          max_col_size_locked-le seq m' m (λ s. sym (same s)),
        ),
        longest_row-perm seq 0 p,
      )
