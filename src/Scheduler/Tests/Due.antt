-- ===== src/Scheduler/Tests/Due.antt =====
-- Applications of the theorems of Scheduler/Due to concrete states.
use alacritty_pro.Scheduler.{update_loop}
use alacritty_pro.Scheduler.Due.{Updated, update_loop-Updated}
use alacritty_pro.Samples
use alacritty_pro.Samples.{sample_cells}

update_loop-Updated_example :
    Updated 10 Samples.clock Samples.timers (update_loop 3 10 Samples.clock Samples.timers)
update_loop-Updated_example =
    update_loop-Updated 3 10 Samples.clock Samples.timers Samples.clock-late Samples.timers-Sorted
      Samples.timers-Positive Samples.timers-due
