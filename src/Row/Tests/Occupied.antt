-- ===== src/Row/Tests/Occupied.antt =====
-- Applications of the theorems of Row/Occupied to concrete states.
use alacritty_pro.Prelude.{◌≡◌, some, arith, length}
use alacritty_pro.Row.{reset}
use alacritty_pro.Row.Occupied.{blank_row, reset-blank_row}
use alacritty_pro.Samples
use alacritty_pro.Samples.{sample_cells}

reset-blank_row_example :
    reset (Samples.row_with 97) Samples.red_blank
    ≡ some (blank_row (length (Samples.row_with 97).inner) Samples.red_blank)
reset-blank_row_example =
    reset-blank_row Samples.sample_cells-IsLawful (Samples.row_with 97) Samples.red_blank
      (Samples.row_with-IsValid 97) (omega arith)
