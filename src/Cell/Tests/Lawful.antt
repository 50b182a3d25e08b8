-- ===== src/Cell/Tests/Lawful.antt =====
-- Applications of the theorems of Cell/Lawful to concrete states.
use alacritty_pro.Prelude.{ℕ}
use alacritty_pro.Cell.{cell_grid}
use alacritty_pro.Row.Occupied.{IsLawful}
use alacritty_pro.Cell.Lawful.{cell_grid-IsLawful}
use alacritty_pro.Samples
use alacritty_pro.Samples.{sample_cells}
use alacritty_pro.Prelude.{==_iff}

cell_grid-IsLawful_example : IsLawful (cell_grid Samples.palette ℕ)
cell_grid-IsLawful_example = cell_grid-IsLawful Samples.palette ℕ ==_iff
