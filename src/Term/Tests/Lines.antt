-- ===== src/Term/Tests/Lines.antt =====
-- Applications of the theorems of Term/Blanks to concrete states.
use alacritty_pro.Prelude.{◌≡◌, refl, arith, false, some}
use alacritty_pro.Prelude.Int.{pos}
use alacritty_pro.Term.{Term}
use alacritty_pro.Term.Lines.{insert_blank_lines, delete_lines}
use alacritty_pro.Term.Blanks.{insert_blank_lines_lem, delete_lines_lem}
use alacritty_pro.Grid.Defs
use alacritty_pro.Grid.Region.{RegionUp, RegionDown}
use alacritty_pro.Samples
use alacritty_pro.Samples.{SampleCell, sample_cells}

insert_blank_lines_lem_example :
    (down : RegionDown Samples.grid 1 2 1
      (Defs.scroll_down Samples.grid (record { start = pos 1; end = pos 2 }) 1))
    × (out : Term SampleCell) × (insert_blank_lines (Samples.term false) 3 ≡ some out)
    × (out.grid ≡ down.out)
insert_blank_lines_lem_example =
    insert_blank_lines_lem Samples.sample_cells-IsLawful (Samples.term false) Samples.screen-IsValid
      refl 3

delete_lines_lem_example :
    (up : RegionUp Samples.grid 1 2 1
      (Defs.scroll_up Samples.grid (record { start = pos 1; end = pos 2 }) 1))
    × (out : Term SampleCell) × (delete_lines (Samples.term false) 3 ≡ some out)
    × (out.grid ≡ up.out)
delete_lines_lem_example =
    delete_lines_lem Samples.sample_cells-IsLawful (Samples.term false) Samples.screen-IsValid refl
      3 (omega arith) (omega arith)
