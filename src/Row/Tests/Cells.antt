-- ===== src/Row/Tests/Cells.antt =====
-- Applications of the theorems of Row/Cells to concrete states.
use alacritty_pro.Prelude.{ℕ, ◌≤◌, ◌<◌, min, ◌≡◌, true, some, List, ◌++◌, arith, length, get_elem?}
use alacritty_pro.Row.{Row, all_empty, grow, shrink, reset}
use alacritty_pro.Row.Cells.{cells, shrink-append, reset-grow_stale}
use alacritty_pro.Samples
use alacritty_pro.Samples.{sample_cells}

-- The cell on a red background stays, although the template is not red.
reset-grow_stale_example :
    (r' : Row Samples.SampleCell) × (reset (grow Samples.red_row 4) Samples.blank ≡ some r')
    × ((i : ℕ)
        → 1 ≤ i
        → i < 2
        → get_elem? r'.inner i ≡ some (sample_cells.reset sample_cells.default Samples.red_blank))
reset-grow_stale_example =
    reset-grow_stale Samples.red_row 4 Samples.blank Samples.red_row-IsValid (omega arith)
      (omega arith) Samples.blank-same

shrink-append_example :
    (dropped : List Samples.SampleCell) × ((shrink (Samples.row_with 97) 1).1.inner
        ++ (cells (shrink (Samples.row_with 97) 1).0 ++ dropped)
      ≡ (Samples.row_with 97).inner)
    × (all_empty sample_cells.is_empty dropped ≡ true)
    × (length (shrink (Samples.row_with 97) 1).1.inner ≡ min (length (Samples.row_with 97).inner) 1)
shrink-append_example = shrink-append (Samples.row_with 97) 1
