-- ===== src/Grid/Tests/Region.antt =====
-- Applications of the theorems of Grid/Region and Grid/Fixed to concrete states.
use alacritty_pro.Prelude.{arith}
use alacritty_pro.Prelude.Int.{pos}
use alacritty_pro.Grid.Defs.{scroll_up, scroll_down}
use alacritty_pro.Grid.Region.{RegionUp, RegionDown, scroll_up-RegionUp}
use alacritty_pro.Grid.Fixed.{scroll_down-RegionDown}
use alacritty_pro.Samples
use alacritty_pro.Samples.{sample_cells}

scroll_up-RegionUp_example :
    RegionUp Samples.grid 1 2 1 (scroll_up Samples.grid (record { start = pos 1; end = pos 2 }) 1)
scroll_up-RegionUp_example =
    scroll_up-RegionUp Samples.sample_cells-IsLawful Samples.grid 1 2 1 Samples.grid-IsValid
      (omega arith) (omega arith) (omega arith)

scroll_down-RegionDown_example :
    RegionDown Samples.grid 0 2 1
      (scroll_down Samples.grid (record { start = pos 0; end = pos 2 }) 1)
scroll_down-RegionDown_example =
    scroll_down-RegionDown Samples.sample_cells-IsLawful Samples.grid 0 2 1 Samples.grid-IsValid
      (omega arith) (omega arith)
