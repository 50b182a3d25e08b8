-- ===== src/Grid/Tests/Display.antt =====
-- Applications of the theorems of Grid/Display to concrete states.
use alacritty_pro.Prelude.{◌≤◌, min, ◌≡◌, refl, arith}
use alacritty_pro.Prelude.Int.{negsuc}
use alacritty_pro.Grid.Defs.{Scroll, history_size, scroll_display, update_history}
use alacritty_pro.Grid.Display.{scroll_display_lem, HistoryCut, update_history_lem}
use alacritty_pro.Samples
use alacritty_pro.Samples.{sample_cells}

update_history_lem_example :
    HistoryCut Samples.grid (min (history_size Samples.grid) 0) 0 (update_history Samples.grid 0)
update_history_lem_example =
    update_history_lem Samples.grid 0 Samples.storage-IsValid refl (omega arith)

scroll_display_lem_example :
    ((scroll_display Samples.grid (Scroll.delta (negsuc 3))).display_offset
      ≤ history_size Samples.grid)
    × (record (scroll_display Samples.grid (Scroll.delta (negsuc 3))) {
      display_offset = Samples.grid.display_offset;
    }
        ≡ Samples.grid)
scroll_display_lem_example = scroll_display_lem Samples.grid (Scroll.delta (negsuc 3)) (omega arith)
