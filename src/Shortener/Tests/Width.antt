-- ===== src/Shortener/Tests/Width.antt =====
-- Applications of the theorems of Shortener/Width to concrete states.
use alacritty_pro.Prelude.{◌≤◌, arith, some, false}
use alacritty_pro.Shortener.{ShortenDirection, new, collect}
use alacritty_pro.Shortener.Width.{collect-new_right, shown}
use alacritty_pro.Samples
use alacritty_pro.Samples.{sample_cells}

collect-new_right_example :
    shown Samples.mixed_width false (
      collect Samples.mixed_width 9
        (new Samples.mixed_width Samples.tab_text 3 ShortenDirection.right (some 46)))
    ≤ 3
collect-new_right_example =
    collect-new_right Samples.mixed_width 9 Samples.tab_text 3 (some 46) Samples.full_stop-short
      (omega arith)
