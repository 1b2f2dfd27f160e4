-- ===== src/RotateWriter/Bounds.antt =====
-- How large a file of log_file.go grows.
use oncecall.Prelude.{
  ℕ, ◌+◌, ◌≤◌, ◌≡◌, refl, inl, inr, ◌⊎◌, Bool-cases, none, some, List, [], ◌∷◌, arith, length,
  length-append, length-take, take, ℤ, pos_part, ap, subst, sym,
}
use oncecall.RotateWriter.{
  Handle, opened, shut, Files, RotateWriter, Faults, Error, content_of, full, close_file,
  move_current, reopen, rotate, append, write, new_rotate_writer,
}

-- The size of the writer is that of the open file, and at most the bound.
pub record IsBounded (bound : ℕ) (w : RotateWriter) : Type 0 where
  pub sized : w.file ≡ opened → w.size ≡ length (content_of w.files.current)
  pub below : w.size ≤ bound

Handle-cases : (h : Handle) → (h ≡ opened) ⊎ (h ≡ shut)
Handle-cases opened = inl refl
Handle-cases shut = inr refl

module _ {E : Type 0} where
  rotate_size :
      (faults : Faults E) (w : RotateWriter)
      → (((rotate faults w).0 ≡ none)
          × ((rotate faults w).1.size ≡ 0)
          × ((rotate faults w).1.files.current ≡ some []))
        ⊎ (((rotate faults w).1.file ≡ shut)
            × ((rotate faults w).1.size ≡ w.size)
            × ((e : Error E) × ((rotate faults w).0 ≡ some e)))
  unfolding rotate close_file move_current reopen
  rotate_size faults w = ground arith

  append-IsBounded :
      (faults : Faults E) (p : List ℕ) (bound : ℕ) (w : RotateWriter)
      → w.size ≡ length (content_of w.files.current)
      → w.size + length p ≤ bound
      → IsBounded bound (append faults p w).1
  unfolding append
  append-IsBounded faults p bound w s l = record {
    sized = ground (arith, length-append (content_of w.files.current) (take faults.accepted p));
    below = ground (arith, length-take faults.accepted p);
  }

  append-shut :
      (faults : Faults E) (p : List ℕ) (w : RotateWriter)
      → w.file ≡ shut
      → (append faults p w).1 ≡ w
  unfolding append
  append-shut faults p w h = ground arith

  -- A write keeps the size true and below any bound that is at least the limit and the length of the
  -- write, whatever goes wrong.
  write-IsBounded :
      (faults : Faults E) (p : List ℕ) (bound : ℕ) (w : RotateWriter)
      → pos_part w.max_size ≤ bound
      → length p ≤ bound
      → IsBounded bound w
      → IsBounded bound (write faults p w).1
  unfolding write
  write-IsBounded faults p bound w m l h = elim (Bool-cases (full w p)) [
    | inl f ↦
        let s = (rotate faults w).1 in
        elim (rotate_size faults w) [
          | inl (r, z, c) ↦
              let e : write faults p w ≡ append faults p s = ground arith in
              subst (λ v. IsBounded bound v.1) (sym e)
                (append-IsBounded faults p bound s (ground (arith, z, c)) (omega (arith, z)))
          | inr (t, z, (x, r)) ↦
              let e : (write faults p w).1 ≡ s = ground arith in
              subst (IsBounded bound) (sym e)
                (record { sized = λ o. cc; below = omega (arith, z, h.below) })
        ]
    | inr f ↦
        let e : write faults p w ≡ append faults p w = ground arith in
        subst (λ v. IsBounded bound v.1) (sym e)
          (elim (Handle-cases w.file) [
            | inl o ↦ append-IsBounded faults p bound w (h.sized o) (ground (arith, h.below))
            | inr t ↦ subst (IsBounded bound) (sym (append-shut faults p w t)) h
          ])
  ]

  max_size-write :
      (faults : Faults E) (p : List ℕ) (w : RotateWriter)
      → (write faults p w).1.max_size ≡ w.max_size
  unfolding write rotate append close_file move_current reopen
  max_size-write faults p w = ground arith

  -- A sequence of writes, each with what goes wrong in it.
  abbrev pub run : List (Faults E × List ℕ) → RotateWriter → RotateWriter
  run [] w = w
  run ((faults, p) ∷ calls) w = run calls (write faults p w).1

  abbrev pub Fit : ℕ → List (Faults E × List ℕ) → Type 0
  Fit bound [] = Unit
  Fit bound ((faults, p) ∷ calls) = (length p ≤ bound) × Fit bound calls

  -- In any sequence of writes, whatever goes wrong, the size that the writer keeps is that of the open
  -- file, and the file never grows past the limit, or past the longest single write if that is more.
  pub run-IsBounded :
      (calls : List (Faults E × List ℕ)) (bound : ℕ) (w : RotateWriter)
      → pos_part w.max_size ≤ bound
      → Fit bound calls
      → IsBounded bound w
      → IsBounded bound (run calls w)
  run-IsBounded [] bound w m l h = h
  run-IsBounded ((faults, p) ∷ calls) bound w m l h =
      run-IsBounded calls bound (write faults p w).1
        (omega (arith, m, ap pos_part (max_size-write faults p w))) l.1
        (write-IsBounded faults p bound w m l.0 h)

  -- A writer that NewRotateWriter makes over the files that are there, whatever limit it gets, stays
  -- within the bound in any sequence of writes, if the old file is within it.
  pub run-new_rotate_writer :
      (calls : List (Faults E × List ℕ)) (bound max_backups : ℕ) (max_size : ℤ) (files : Files)
      → pos_part max_size ≤ bound
      → length (content_of files.current) ≤ bound
      → Fit bound calls
      → (w : RotateWriter) × ((new_rotate_writer {E = E} none none max_size max_backups files).0
          ≡ inr w)
        × IsBounded bound (run calls w)
  unfolding new_rotate_writer
  run-new_rotate_writer calls bound max_backups max_size files m l h =
      let w : RotateWriter = record {
        max_size = max_size;
        max_backups = max_backups;
        file = opened;
        size = length (content_of files.current);
        files = record files { current = some (content_of files.current) };
      } in
      (w, refl, run-IsBounded calls bound w m h (record { sized = λ o. refl; below = l }))
