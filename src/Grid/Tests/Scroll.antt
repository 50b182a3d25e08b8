-- ===== src/Grid/Tests/Scroll.antt =====
-- Applications of the theorems of Grid/Scroll to concrete states.
use alacritty_pro.Prelude.{arith}
use alacritty_pro.Prelude.Int.{pos}
use alacritty_pro.Grid.Defs.{scroll_up}
use alacritty_pro.Grid.Up.{ScrolledUp}
use alacritty_pro.Grid.Scroll.{scroll_up-ScrolledUp}
use alacritty_pro.Samples
use alacritty_pro.Samples.{sample_cells}

scroll_up-ScrolledUp_example :
    ScrolledUp Samples.grid 2 1 (scroll_up Samples.grid (record { start = pos 0; end = pos 2 }) 1)
scroll_up-ScrolledUp_example =
    scroll_up-ScrolledUp Samples.sample_cells-IsLawful Samples.grid 2 1 Samples.grid-IsValid
      (omega arith) (omega arith)
