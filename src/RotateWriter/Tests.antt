-- ===== src/RotateWriter/Tests.antt =====
-- The theorems of log_file.go at a concrete writer.
use oncecall.Prelude.{
  ℕ, ◌≡◌, refl, inr, none, some, [], ◌∷◌, false, arith, if◌then◌else◌, ◌==◌, pos,
}
use oncecall.RotateWriter.{
  Files, RotateWriter, Faults, already_closed, system, opened, new_rotate_writer, rotate, write,
}
use oncecall.RotateWriter.Shift.{aged, rotate_lem}
use oncecall.RotateWriter.Bounds.{IsBounded, run, run-new_rotate_writer}
use oncecall.RotateWriter.Stuck.{write_stuck}

abbrev calm : Faults ℕ
calm = record {
  closing = none;
  removing = false;
  rename = λ i. none;
  opening = none;
  writing = none;
  accepted = 10;
}

abbrev no_space : Faults ℕ
no_space = record calm { opening = some 28 }

abbrev files : Files
files = record {
  current = some (1 ∷ 2 ∷ 3 ∷ []);
  backup = λ i. if i == 1 then some (4 ∷ []) else none;
}

abbrev writer : RotateWriter
writer = record { max_size = pos 4; max_backups = 2; file = opened; size = 3; files = files }

rotate_lem_example :
    ((rotate calm writer).0 ≡ none)
    × ((rotate calm writer).1.files.backup 2 ≡ aged calm 2 files 2)
    × ((rotate calm writer).1.files.current ≡ some [])
    × ((rotate calm writer).1.file ≡ opened)
    × ((rotate calm writer).1.size ≡ 0)
rotate_lem_example =
    rotate_lem calm writer (1 ∷ 2 ∷ 3 ∷ []) 2
      (record { closing = refl; removing = refl; rename = λ i. refl; opening = refl }) (omega arith)
      refl refl

stopped : (rotate no_space writer).0 ≡ some (system 28)
unfolding rotate
stopped = refl

write_stuck_example :
    ((write no_space (7 ∷ 8 ∷ []) writer).0 ≡ (0, some (system 28)))
    × (write calm (9 ∷ []) (write no_space (7 ∷ 8 ∷ []) writer).1
        ≡ ((0, some already_closed), (write no_space (7 ∷ 8 ∷ []) writer).1))
write_stuck_example =
    write_stuck no_space calm (7 ∷ 8 ∷ []) (9 ∷ []) writer (system 28) refl stopped

run-new_rotate_writer_example :
    (w : RotateWriter) × ((new_rotate_writer {E = ℕ} none none (pos 4) 2 files).0 ≡ inr w)
    × IsBounded 5 (run ((no_space, 7 ∷ 8 ∷ []) ∷ (calm, 9 ∷ []) ∷ []) w)
run-new_rotate_writer_example =
    run-new_rotate_writer ((no_space, 7 ∷ 8 ∷ []) ∷ (calm, 9 ∷ []) ∷ []) 5 2 (pos 4) files
      (omega arith) (omega arith) (omega arith, (omega arith, tt))
