-- ===== src/RotateWriter/Stuck.antt =====
-- What a rotation of log_file.go that failed leaves.
use oncecall.Prelude.{ℕ, ◌≡◌, true, some, List, arith, ap, ◌∙◌}
use oncecall.RotateWriter.{
  shut, RotateWriter, Faults, Error, already_closed, full, close_file, move_current, reopen, rotate,
  append, write,
}

module _ {E : Type 0} where
  -- A rotation that fails leaves the writer with a closed file, whatever went wrong.
  rotate_failed :
      (faults : Faults E) (w : RotateWriter) (e : Error E)
      → (rotate faults w).0 ≡ some e
      → (rotate faults w).1.file ≡ shut
  unfolding rotate close_file move_current reopen
  rotate_failed faults w e h = ground arith

  -- Nothing is written to a closed file, and nothing changes.
  write-shut :
      (faults : Faults E) (p : List ℕ) (w : RotateWriter)
      → w.file ≡ shut
      → write faults p w ≡ ((0, some already_closed), w)
  unfolding write rotate append close_file
  write-shut faults p w h = ground arith

  -- A write whose rotation fails reports its error; from then on every write fails, whatever the system
  -- would allow by then, and leaves the files as they are.
  pub write_stuck :
      (faults later : Faults E) (p q : List ℕ) (w : RotateWriter) (e : Error E)
      → full w p ≡ true
      → (rotate faults w).0 ≡ some e
      → ((write faults p w).0 ≡ (0, some e))
        × (write later q (write faults p w).1 ≡ ((0, some already_closed), (write faults p w).1))
  unfolding write
  write_stuck faults later p q w e f h =
      let s = (rotate faults w).1 in
      let r : write faults p w ≡ ((0, some e), s) = ground arith in
      (
        ap (λ x. x.0) r,
        write-shut later q (write faults p w).1 (ap (λ x. x.1.file) r ∙ rotate_failed faults w e h),
      )
