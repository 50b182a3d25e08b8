-- ===== src/Selection/Tests/Rotation.antt =====
-- Applications of the theorems of Selection/Rotation to concrete states.
use alacritty_pro.Prelude.{◌≡◌, refl, arith, none}
use alacritty_pro.Prelude.Int.{pos}
use alacritty_pro.Index.{point_lt}
use alacritty_pro.Selection.{rotate, first, last}
use alacritty_pro.Selection.Rotation.{rotate_up_lem, lines}
use alacritty_pro.Samples

-- The only line of the region leaves it at its top.
rotate_up_lem_example : rotate Samples.selection Samples.dimensions (lines 1 2) (pos 1) ≡ none
unfolding first last point_lt
rotate_up_lem_example =
    rotate_up_lem Samples.selection Samples.dimensions 1 2 1 1 1 refl refl (omega arith)
      (omega arith) (omega arith) (omega arith) (omega arith)
