-- ===== src/Term/Tests/Motion.antt =====
-- Applications of the theorems of Term/Motion to concrete states.
use alacritty_pro.Prelude.{◌+◌, ◌-◌, min, refl, true}
use alacritty_pro.Prelude.Int.{pos}
use alacritty_pro.Term.{goto, goto_col}
use alacritty_pro.Term.Motion.{Moved, goto_row, goto_lem, goto_col_origin}
use alacritty_pro.Samples
use alacritty_pro.Samples.{sample_cells}

goto_lem_example :
    Moved
      (Samples.term true)
      (Samples.term-IsValid true)
      (goto_row (Samples.term true) (Samples.term-IsValid true) (pos 5))
      (min 9 ((Samples.term true).grid.columns - 1))
      (goto (Samples.term true) (pos 5) 9)
goto_lem_example = goto_lem (Samples.term true) (Samples.term-IsValid true) (pos 5) 9

goto_col_origin_example :
    Moved
      (Samples.term true)
      (Samples.term-IsValid true)
      (min
        ((Samples.term-IsValid true).top + (Samples.term-IsValid true).row)
        ((Samples.term-IsValid true).bottom - 1))
      (min 0 ((Samples.term true).grid.columns - 1))
      (goto_col (Samples.term true) 0)
goto_col_origin_example = goto_col_origin (Samples.term true) (Samples.term-IsValid true) 0 refl
