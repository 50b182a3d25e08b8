-- ===== src/Selection/Tests/Ranges.antt =====
-- Applications of the theorems of Selection/Ranges to concrete states.
use alacritty_pro.Prelude.{◌-◌, ◌≡◌, refl, arith, some, false}
use alacritty_pro.Prelude.Int.{negsuc}
use alacritty_pro.Index.{point_lt, Direction}
use alacritty_pro.Selection.{
  Selection, SelectionType, SelectionRange, contains, range_simple, first, last,
}
use alacritty_pro.Selection.Borders.{IsCell, border}
use alacritty_pro.Selection.Ranges.{range_simple_lem, contains_lem}
use alacritty_pro.Samples

-- From the right half of the last cell of the line above the screen to the left half of the second cell
-- of the first line of the screen.
abbrev scrolled : Selection
scrolled = record {
  ty = SelectionType.simple;
  start = record { point = record { line = negsuc 0; column = 1 }; side = Direction.right };
  end = record { point = Samples.point 0 1; side = Direction.left };
}

range_simple_lem_example :
    (r : SelectionRange) × (range_simple scrolled (first scrolled) (last scrolled) 2 ≡ some r)
    × IsCell 1 2 r.start (border 2 0 (first scrolled))
    × IsCell 1 2 r.end (border 2 1 (last scrolled) - 1)
    × (r.is_block ≡ false)
unfolding first last point_lt
range_simple_lem_example =
    range_simple_lem scrolled 0 1 refl 1 refl refl 2 (omega arith) (omega arith) (omega arith)

abbrev range : SelectionRange
range = record {
  start = record { line = negsuc 0; column = 1 };
  end = Samples.point 0 0;
  is_block = false;
}

-- The first cell of the line above the screen is number 0, and outside.
contains_lem_example : contains range (record { line = negsuc 0; column = 0 }) ≡ false
contains_lem_example =
    contains_lem 1 2 1 2 0 range (record { line = negsuc 0; column = 0 }) refl
      (record { line = 0; at = refl; column_in = omega arith; number = refl })
      (record { line = 1; at = refl; column_in = omega arith; number = refl })
      (record { line = 0; at = refl; column_in = omega arith; number = refl })
