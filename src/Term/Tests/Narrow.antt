-- ===== src/Term/Tests/Narrow.antt =====
-- Applications of the theorems of Term/Written/Narrow to concrete states.
use alacritty_pro.Prelude.{ℕ, refl}
use alacritty_pro.Cell
use alacritty_pro.Cell.Flags.{intersects}
use alacritty_pro.Cell.{cell_grid}
use alacritty_pro.Row
use alacritty_pro.Storage
use alacritty_pro.Term.Machine
use alacritty_pro.Term.Write.{input, read_cell}
use alacritty_pro.Term.Written.Narrow.{Typed, input_narrow_lem}
use alacritty_pro.Samples

input_narrow_lem_example :
    Typed Samples.palette ℕ Samples.same_char Samples.narrow_width Samples.fresh 97
      (input Samples.palette ℕ Samples.same_char Samples.narrow_width Samples.fresh 97)
unfolding Machine.with_grid read_cell intersects cell_grid Row.index Storage.index
input_narrow_lem_example =
    input_narrow_lem Samples.palette ℕ Samples.same_char Samples.narrow_width Samples.fresh 97
      (Cell.default Samples.palette ℕ) Samples.fresh-IsValid refl refl refl refl refl
