-- ===== src/Buffer/RowSize.antt =====
-- calculateRowSize of plan_buffer.go: the backward scan for the last cell that is not nil.
use oncecall.Prelude.{
  sym, dec_lt, ℕ, zero, suc, ◌+◌, ◌-◌, ◌≤◌, ◌<◌, ◌≡◌, refl, ap, ◌⊎◌, inl, inr, true, false, Option,
  none, some, List, [], ◌∷◌, arith, Bool-cases, length, get_or, get_or_past, replicate, copy,
  length-copy, get_or-copy, get_or-replicate, length-replicate,
}
use oncecall.Buffer.{not_nil, scan_backward, calculate_row_size, fill_column}

module _ {A : Type 0} where
  not_nil→some : (c : Option A) → not_nil c ≡ true → (a : A) × (c ≡ some a)
  not_nil→some none h = cc
  not_nil→some (some a) h = (a, refl)

  nil→none : (c : Option A) → not_nil c ≡ false → c ≡ none
  nil→none none h = refl
  nil→none (some a) h = cc

  -- `n` is the end of what is not nil among the first `k` cells.
  pub record Ends (row : List (Option A)) (k n : ℕ) : Type 0 where
    pub within : n ≤ k
    pub nil_after : (i : ℕ) → n ≤ i → i < k → get_or row i none ≡ none
    pub last : 0 < n → (a : A) × (get_or row (n - 1) none ≡ some a)

  scan_backward-Ends : (row : List (Option A)) (k : ℕ) → Ends row k (scan_backward row k)
  unfolding scan_backward
  scan_backward-Ends row zero = record {
    within = omega arith;
    nil_after = λ i h k. absurd (omega arith);
    last = λ h. absurd (omega arith);
  }
  scan_backward-Ends row (suc k) = elim (Bool-cases (not_nil (get_or row k none))) [
    | inl e ↦ rw e (record {
      within = omega arith;
      nil_after = λ i h l. absurd (omega arith);
      last = λ h. let p : k + 1 - 1 ≡ k = omega arith in rw p (not_nil→some _ e);
    })
    | inr e ↦
        let r = scan_backward-Ends row k in
        rw e (record {
          within = omega (arith, r.within);
          nil_after = λ i h l. elim (dec_eq_or_lt i k l) [
            | inl p ↦ rw p (nil→none _ e)
            | inr p ↦ r.nil_after i h p
          ];
          last = r.last;
        })
  ]
    where
      dec_eq_or_lt : (i k : ℕ) → i < suc k → (i ≡ k) ⊎ (i < k)
      dec_eq_or_lt i k h = grind arith

  -- The size is at most the length, every cell from the size on is nil (a cell past the end reads as
  -- nil), and if the size is not 0 the cell before it is not nil.
  pub calculate_row_size_lem :
      (row : List (Option A))
      → (calculate_row_size row ≤ length row)
        × ((i : ℕ) → calculate_row_size row ≤ i → get_or row i none ≡ none)
        × (0 < calculate_row_size row
            → (a : A) × (get_or row (calculate_row_size row - 1) none ≡ some a))
  unfolding calculate_row_size
  calculate_row_size_lem row =
      let e = scan_backward-Ends row (length row) in
      (
        e.within,
        (λ i h. elim (dec_lt i (length row)) [
          | yes l ↦ e.nil_after i h l
          | no g ↦ get_or_past row i none (omega arith)
        ]),
        e.last,
      )

  size-le :
      (xs ys : List (Option A))
      → ((i : ℕ) → get_or xs i none ≡ get_or ys i none)
      → calculate_row_size xs ≤ calculate_row_size ys
  size-le xs ys h = elim (dec_lt (calculate_row_size ys) (calculate_row_size xs)) [
    | no g ↦ omega arith
    | yes l ↦
        let (a, p) = (calculate_row_size_lem xs).2 (omega arith) in
        let q = (calculate_row_size_lem ys).1 (calculate_row_size xs - 1) (omega arith) in
        cc (h (calculate_row_size xs - 1), p, q)
  ]

  -- The size depends on the cells alone, not on how many nil cells follow them.
  pub calculate_row_size_ext :
      (xs ys : List (Option A))
      → ((i : ℕ) → get_or xs i none ≡ get_or ys i none)
      → calculate_row_size xs ≡ calculate_row_size ys
  calculate_row_size_ext xs ys h = omega (arith, size-le xs ys h, size-le ys xs (λ i. sym (h i)))

  -- A slice that was copied into a longer one reads as before.
  pub get_or-widened :
      (n : ℕ) (xs : List (Option A)) (i : ℕ)
      → length xs ≤ n
      → get_or (copy (replicate n none) xs) i none ≡ get_or xs i none
  get_or-widened n xs i h = elim (dec_lt i n) [
    | yes l ↦ ground (
      arith,
      get_or-copy (replicate n none) xs i none,
      get_or-replicate {A = Option A} n i none,
      length-replicate {A = Option A} n none,
      get_or_past xs i none,
    )
    | no g ↦ ground (
      arith,
      get_or_past (copy (replicate n none) xs) i none,
      length-copy (replicate n none) xs,
      length-replicate {A = Option A} n none,
      get_or_past xs i none,
    )
  ]

  -- What SetColsData copies reads as the data does.
  pub get_or-padded :
      (extra : ℕ) (xs : List (Option A)) (i : ℕ)
      → get_or (copy (replicate (length xs + extra) none) xs) i none ≡ get_or xs i none
  get_or-padded extra xs i = get_or-widened (length xs + extra) xs i (omega arith)

  -- data[i][c], nil where the row is missing or too short.
  abbrev pub entry : List (List (Option A)) → ℕ → ℕ → Option A
  entry data_ i c = get_or (get_or data_ i []) c none

  pub length-fill_column :
      (row : List (Option A)) (c : ℕ) (data_ : List (List (Option A)))
      → length (fill_column row c data_) ≡ length row
  unfolding fill_column
  length-fill_column [] c data_ = refl
  length-fill_column (r ∷ row) c [] = refl
  length-fill_column (r ∷ row) c (values ∷ data_) = ap suc (length-fill_column row c data_)

  pub get_or-fill_column :
      (n c : ℕ) (data_ : List (List (Option A))) (i : ℕ)
      → length data_ ≤ n
      → get_or (fill_column (replicate n none) c data_) i none ≡ entry data_ i c
  unfolding fill_column
  get_or-fill_column zero c [] i h = refl
  get_or-fill_column zero c (values ∷ data_) i h = absurd (omega arith)
  get_or-fill_column (suc n) c [] i h = get_or-replicate (suc n) i none
  get_or-fill_column (suc n) c (values ∷ data_) zero h = ground (arith, get_or_past values c none)
  get_or-fill_column (suc n) c (values ∷ data_) (suc i) h =
      get_or-fill_column n c data_ i (omega arith)
