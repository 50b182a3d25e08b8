-- ===== src/Term/Tests/Along.antt =====
-- Applications of the theorems of Term/Along to concrete states.
use alacritty_pro.Prelude.{◌+◌, ◌-◌, min, false}
use alacritty_pro.Term.{cursor_column, move_forward, move_backward, carriage_return}
use alacritty_pro.Term.Motion.{Moved}
use alacritty_pro.Term.Along.{move_along_lem}
use alacritty_pro.Samples
use alacritty_pro.Samples.{sample_cells}

move_along_lem_example :
    Moved
      (Samples.term false)
      (Samples.term-IsValid false)
      (Samples.term-IsValid false).row
      (min (cursor_column (Samples.term false) + 4) ((Samples.term false).grid.columns - 1))
      (move_forward (Samples.term false) 4)
    × Moved
        (Samples.term false)
        (Samples.term-IsValid false)
        (Samples.term-IsValid false).row
        (cursor_column (Samples.term false) - 4)
        (move_backward (Samples.term false) 4)
    × Moved
        (Samples.term false)
        (Samples.term-IsValid false)
        (Samples.term-IsValid false).row
        0
        (carriage_return (Samples.term false))
move_along_lem_example = move_along_lem (Samples.term false) (Samples.term-IsValid false) 4
