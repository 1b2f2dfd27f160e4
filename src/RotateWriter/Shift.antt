-- ===== src/RotateWriter/Shift.antt =====
-- What the rotation of log_file.go does to the files.
use oncecall.Prelude.{
  ℕ, zero, suc, ◌+◌, ◌-◌, ◌<◌, ◌≡◌, inl, inr, false, Option, none, some, Option-cases, List, [],
  arith, ℕ_discrete, ap, ◌∙◌, ◌==◌, leb, if◌then◌else◌,
}
use oncecall.RotateWriter.{
  opened, Files, RotateWriter, Faults, set_backup, move_backup, move_backups, move_current,
  close_file, reopen, rotate,
}

module _ {E : Type 0} (faults : Faults E) where
  -- Nothing goes wrong.
  pub record Calm : Type 0 where
    pub closing : faults.closing ≡ none
    pub removing : faults.removing ≡ false
    pub rename : (i : ℕ) → faults.rename i ≡ none
    pub opening : faults.opening ≡ none

  -- The backup `j` after the loop from `n`, where the place above `n` was free.
  abbrev shifted : ℕ → (ℕ → Option (List ℕ)) → ℕ → Option (List ℕ)
  shifted n backup j =
      if leb 1 j
      then (if leb j (n + 1) then (if j == 1 then none else backup (j - 1)) else backup j)
      else backup j

  above :
      (backup : ℕ → Option (List ℕ)) (n j : ℕ)
      → backup (suc n) ≡ none
      → backup (suc (suc n)) ≡ none
      → shifted n backup j ≡ shifted (suc n) backup j
  above backup n j h g = elim (ℕ_discrete j (suc (suc n))) [
    | yes e ↦
        let k : j - 1 ≡ suc n = omega arith in
        let v : backup (j - 1) ≡ none = ap backup k ∙ h in
        let w : backup j ≡ none = ap backup e ∙ g in ground (arith, v, w)
    | no ne ↦ ground arith
  ]

  moved :
      (backup : ℕ → Option (List ℕ)) (n j : ℕ) (content : List ℕ)
      → backup (suc n) ≡ some content
      → shifted n (set_backup (suc (suc n)) (some content) (set_backup (suc n) none backup)) j
        ≡ shifted (suc n) backup j
  moved backup n j content h = elim (ℕ_discrete j (suc (suc n))) [
    | yes e ↦
        let k : j - 1 ≡ suc n = omega arith in
        let v : backup (j - 1) ≡ some content = ap backup k ∙ h in ground (arith, v)
    | no ne ↦ ground arith
  ]

  move_backups_lem :
      (n : ℕ) (backup : ℕ → Option (List ℕ)) (j : ℕ)
      → Calm
      → backup (suc n) ≡ none
      → ((move_backups faults n backup).0 ≡ none)
        × ((move_backups faults n backup).1 j ≡ shifted n backup j)
  unfolding move_backups move_backup
  move_backups_lem zero backup j c h = ground (arith, h)
  move_backups_lem (suc n) backup j c h = elim (Option-cases (backup (suc n))) [
    | inl e ↦
        let (a, b) = move_backups_lem n backup j c e in ground (arith, a, b, above backup n j e h)
    | inr (content, e) ↦
        let b' = set_backup (suc (suc n)) (some content) (set_backup (suc n) none backup) in
        let step : move_backup faults (suc n) backup ≡ (none, b') =
          ground (arith, c.rename (suc n)) in
        let free : b' (suc n) ≡ none = ground arith in
        ground (arith, step, move_backups_lem n b' j c free, moved backup n j content e)
  ]

  -- The backup `j` after a rotation.
  abbrev pub aged : ℕ → Files → ℕ → Option (List ℕ)
  aged max_backups files j =
      if j == 0
      then files.backup 0
      else if j == 1
      then files.current
      else if leb j max_backups
      then files.backup (j - 1)
      else files.backup j

  -- A rotation without faults, of a writer that keeps at least one backup and has a current file: the
  -- current file becomes the backup 1, each backup the next one, and what was the last is gone; the
  -- current file is new, empty and open.
  pub rotate_lem :
      (w : RotateWriter) (content : List ℕ) (j : ℕ)
      → Calm
      → 0 < w.max_backups
      → w.file ≡ opened
      → w.files.current ≡ some content
      → ((rotate faults w).0 ≡ none)
        × ((rotate faults w).1.files.backup j ≡ aged w.max_backups w.files j)
        × ((rotate faults w).1.files.current ≡ some [])
        × ((rotate faults w).1.file ≡ opened)
        × ((rotate faults w).1.size ≡ 0)
  unfolding rotate close_file move_current reopen
  rotate_lem w content j c h o k =
      let n = w.max_backups - 1 in
      let b = set_backup w.max_backups none w.files.backup in
      let free : b (suc n) ≡ none = ground arith in
      let (no_error, place) = move_backups_lem n b j c free in
      let m = (move_backups faults n b).1 in
      let turned = record w {
        file = opened;
        size = 0;
        files = record { current = some []; backup = set_backup 1 (some content) m };
      } in
      let pair : move_backups faults n b ≡ (none, m) = ground (arith, no_error) in
      let whole : rotate faults w ≡ (none, turned) =
        ground (arith, c.closing, c.removing, c.rename 0, c.opening, pair) in
      let old : set_backup 1 (some content) m j ≡ aged w.max_backups w.files j =
        ground (arith, place) in
      (
        ap (λ r. r.0) whole,
        ap (λ r. r.1.files.backup j) whole ∙ old,
        ap (λ r. r.1.files.current) whole,
        ap (λ r. r.1.file) whole,
        ap (λ r. r.1.size) whole,
      )
