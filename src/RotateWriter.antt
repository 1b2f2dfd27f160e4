-- ===== src/RotateWriter.antt =====
-- utils/log_file.go: RotateWriter, a log file that is set aside when it is full. The files are the current
-- one and `name.i` for every number i; what the system refuses is an argument of each call.
pub mod Shift
pub mod Bounds
pub mod Stuck
pub mod Tests
use oncecall.Prelude.{
  ℕ, zero, suc, ◌+◌, ◌-◌, ◌⊎◌, inl, inr, Bool, true, false, Option, none, some, List, [], ◌∷◌, ◌++◌,
  ◌==◌, if◌then◌else◌, length, take, ℤ, pos, ltb_ℤ,
}

-- A handle that `Close` has closed stays in the writer.
pub data Handle : Type 0 where
  opened shut : Handle

pub record Files : Type 0 where
  pub current : Option (List ℕ)
  pub backup : ℕ → Option (List ℕ)

-- `size` stays below 2^63 and does not wrap; `max_backups` is not negative.
pub record RotateWriter : Type 0 where
  pub max_size : ℤ
  pub max_backups : ℕ
  pub file : Handle
  pub size : ℕ
  pub files : Files

-- What goes wrong in a call: `rename i` is the rename of the backup i, and `rename 0` that of the
-- current file; `accepted` is how many bytes a write takes.
pub record Faults (E : Type 0) : Type 0 where
  pub closing : Option E
  pub removing : Bool
  pub rename : ℕ → Option E
  pub opening : Option E
  pub writing : Option E
  pub accepted : ℕ

pub data Error (E : Type 0) : Type 0 where
  already_closed : Error E
  system : E → Error E

abbrev pub set_backup : ℕ → Option (List ℕ) → (ℕ → Option (List ℕ)) → ℕ → Option (List ℕ)
set_backup i v backup j = if i == j then v else backup j

abbrev pub content_of : Option (List ℕ) → List ℕ
content_of none = []
content_of (some c) = c

-- The test of Write.
abbrev pub full : RotateWriter → List ℕ → Bool
full w p = ltb_ℤ w.max_size (pos (w.size + length p))

module _ {E : Type 0} where
  abbrev error_of : Option E → Option (Error E)
  error_of none = none
  error_of (some e) = some (system e)

  -- NewRotateWriter: an old file is kept, and its size is where the count starts.
  pub new_rotate_writer : Option E → Option E → ℤ → ℕ → Files → (Error E ⊎ RotateWriter) × Files
  new_rotate_writer opening stat max_size max_backups files = elim opening [
    | some e ↦ (inl (system e), files)
    | none ↦
        let files' = record files { current = some (content_of files.current) } in
        elim stat [
          | some e ↦ (inl (system e), files')
          | none ↦ (
            inr (record {
              max_size = max_size;
              max_backups = max_backups;
              file = opened;
              size = length (content_of files.current);
              files = files';
            }),
            files',
          )
        ]
  ]

  -- f.Close()
  pub close_file : Faults E → Handle → Option (Error E)
  close_file faults shut = some already_closed
  close_file faults opened = error_of faults.closing

  -- if _, err := os.Stat(src); err == nil { os.Rename(src, dst) }, for the backup i.
  pub move_backup : Faults E → ℕ → (ℕ → Option (List ℕ)) → Option (Error E) × (ℕ → Option (List ℕ))
  move_backup faults i backup = elim (backup i) [
    | none ↦ (none, backup)
    | some content ↦ elim (faults.rename i) [
      | some e ↦ (some (system e), backup)
      | none ↦ (none, set_backup (suc i) (some content) (set_backup i none backup))
    ]
  ]

  -- The loop, from `i` down to 1.
  pub move_backups : Faults E → ℕ → (ℕ → Option (List ℕ)) → Option (Error E) × (ℕ → Option (List ℕ))
  unfolding move_backup
  move_backups faults zero backup = (none, backup)
  move_backups faults (suc i) backup =
      let (failure, b) = move_backup faults (suc i) backup in
      elim failure [ some e ↦ (some e, b) | none ↦ move_backups faults i b ]

  abbrev removed : Faults E → ℕ → (ℕ → Option (List ℕ)) → ℕ → Option (List ℕ)
  removed faults i backup = if faults.removing then backup else set_backup i none backup

  -- The current file becomes the backup 1.
  pub move_current : Faults E → Files → Option (Error E) × Files
  move_current faults files = elim files.current [
    | none ↦ (none, files)
    | some content ↦ elim (faults.rename 0) [
      | some e ↦ (some (system e), files)
      | none ↦ (none, record { current = none; backup = set_backup 1 (some content) files.backup })
    ]
  ]

  -- os.OpenFile with O_TRUNC.
  pub reopen : Faults E → RotateWriter → Option (Error E) × RotateWriter
  reopen faults w = elim faults.opening [
    | some e ↦ (some (system e), w)
    | none ↦
        (none, record w { file = opened; size = 0; files = record w.files { current = some [] } })
  ]

  abbrev with_current :
      Faults E → RotateWriter → Option (Error E) × Files → Option (Error E) × RotateWriter
  with_current faults w (some e, files) = (some e, record w { files = files })
  with_current faults w (none, files) = reopen faults (record w { files = files })

  abbrev with_backups :
      Faults E
      → RotateWriter
      → Option (Error E) × (ℕ → Option (List ℕ))
      → Option (Error E) × RotateWriter
  with_backups faults w (some e, b) = (some e, record w { files = record w.files { backup = b } })
  with_backups faults w (none, b) =
      with_current faults w (move_current faults (record w.files { backup = b }))

  pub rotate : Faults E → RotateWriter → Option (Error E) × RotateWriter
  unfolding close_file move_backups move_current reopen
  rotate faults w = elim (close_file faults w.file) [
    | some e ↦ (some e, record w { file = shut })
    | none ↦
        with_backups faults (record w { file = shut })
          (move_backups faults (w.max_backups - 1) (removed faults w.max_backups w.files.backup))
  ]

  -- w.file.Write(p): how many bytes were written.
  pub append : Faults E → List ℕ → RotateWriter → (ℕ × Option (Error E)) × RotateWriter
  append faults p w = elim w.file [
    | shut ↦ ((0, some already_closed), w)
    | opened ↦
        let part = take faults.accepted p in
        (
          (length part, error_of faults.writing),
          record w {
            size = w.size + length part;
            files = record w.files { current = some (content_of w.files.current ++ part) };
          },
        )
  ]

  abbrev after_rotate :
      Faults E → List ℕ → Option (Error E) × RotateWriter → (ℕ × Option (Error E)) × RotateWriter
  after_rotate faults p (some e, w) = ((0, some e), w)
  after_rotate faults p (none, w) = append faults p w

  pub write : Faults E → List ℕ → RotateWriter → (ℕ × Option (Error E)) × RotateWriter
  unfolding rotate append
  write faults p w = if full w p then after_rotate faults p (rotate faults w) else append faults p w

  -- Close: a failed close leaves the handle closed too.
  pub close : Faults E → RotateWriter → Option (Error E) × RotateWriter
  unfolding close_file
  close faults w = (close_file faults w.file, record w { file = shut })
