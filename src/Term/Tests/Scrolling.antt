-- ===== src/Term/Tests/Scrolling.antt =====
-- Applications of the theorems of Term/Scrolling to concrete states.
use alacritty_pro.Prelude.{true, arith, some}
use alacritty_pro.Term.{set_scrolling_region, unwrap_or}
use alacritty_pro.Term.Scrolling.{RegionSet, set_scrolling_region_lem}
use alacritty_pro.Samples
use alacritty_pro.Samples.{sample_cells}

set_scrolling_region_lem_example :
    RegionSet
      (Samples.term true)
      1
      (unwrap_or (some 9) (Samples.term true).grid.lines)
      (set_scrolling_region (Samples.term true) 1 (some 9))
set_scrolling_region_lem_example =
    set_scrolling_region_lem (Samples.term true) (Samples.term-IsValid true) 1 (some 9)
      (omega arith)
