-- ===== src/Index/Tests/Clamp.antt =====
-- Applications of the theorems of Index/Clamp to concrete states.
use alacritty_pro.Prelude.{◌<◌}
use alacritty_pro.Prelude.Int.{◌≤ℤ◌}
use alacritty_pro.Index.{Boundary, bottommost_line, grid_clamp}
use alacritty_pro.Index.Clamp.{top_of, grid_clamp_bounds}
use alacritty_pro.Samples
use alacritty_pro.Samples.{sample_cells}

grid_clamp_bounds_example :
    (top_of Samples.dimensions Boundary.unbounded
      ≤ℤ (grid_clamp Samples.dimensions Boundary.unbounded (Samples.point 7 9)).line)
    × ((grid_clamp Samples.dimensions Boundary.unbounded (Samples.point 7 9)).line
        ≤ℤ bottommost_line Samples.dimensions)
    × ((grid_clamp Samples.dimensions Boundary.unbounded (Samples.point 7 9)).column
        < Samples.dimensions.columns)
grid_clamp_bounds_example =
    grid_clamp_bounds Samples.dimensions Boundary.unbounded (Samples.point 7 9)
      Samples.dimensions-IsValid
