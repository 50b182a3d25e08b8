-- ===== src/Grid/Tests/Walk.antt =====
-- Applications of the theorems of Grid/Walk to concrete states.
use alacritty_pro.Prelude.{◌+◌, ◌*◌, ◌≡◌, none, some, ◌⊎◌}
use alacritty_pro.Index.{Point}
use alacritty_pro.Index.Steps.{cell_number}
use alacritty_pro.Grid.Defs.{dimensions}
use alacritty_pro.Grid.Iter.{next, iter_from}
use alacritty_pro.Grid.Walk.{Stepped, next_lem}
use alacritty_pro.Samples
use alacritty_pro.Samples.{sample_cells}

next_lem_example :
    ((cell_number (dimensions Samples.grid) (Samples.point 0 1) + 1
        ≡ (dimensions Samples.grid).total_lines * Samples.grid.columns)
      × (next Samples.grid (iter_from Samples.grid (Samples.point 0 1))
          ≡ some (none, iter_from Samples.grid (Samples.point 0 1))))
    ⊎ ((q : Point) × (cell_number (dimensions Samples.grid) q
          ≡ cell_number (dimensions Samples.grid) (Samples.point 0 1) + 1)
        × Stepped Samples.grid
            (iter_from Samples.grid (Samples.point 0 1))
            q
            (next Samples.grid (iter_from Samples.grid (Samples.point 0 1))))
next_lem_example =
    next_lem Samples.grid (Samples.point 0 1) Samples.grid-IsValid Samples.grid-Inside
