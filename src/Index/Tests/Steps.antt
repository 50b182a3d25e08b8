-- ===== src/Index/Tests/Steps.antt =====
-- Applications of the theorems of Index/Steps to concrete states.
use alacritty_pro.Prelude.{◌+◌, ◌≡◌, arith}
use alacritty_pro.Index.{Boundary, add}
use alacritty_pro.Index.Steps.{cell_number, Inside, add-cell_number}
use alacritty_pro.Samples
use alacritty_pro.Samples.{sample_cells}

add-cell_number_example :
    Inside Samples.dimensions Boundary.grid
      (add Samples.dimensions Boundary.grid (Samples.point 0 1) 1)
    × (cell_number Samples.dimensions (add Samples.dimensions Boundary.grid (Samples.point 0 1) 1)
        ≡ cell_number Samples.dimensions (Samples.point 0 1) + 1)
add-cell_number_example =
    add-cell_number Samples.dimensions Boundary.grid (Samples.point 0 1) 1
      Samples.dimensions-IsValid Samples.grid-Inside (omega arith)
