-- ===== src/Storage/Tests/Rotate.antt =====
-- Applications of the theorems of Storage/Rotate to concrete states.
use alacritty_pro.Prelude.{◌≡◌, some, arith, length}
use alacritty_pro.Prelude.Int.{negsuc}
use alacritty_pro.Storage.{Storage, rotate_left, rotate}
use alacritty_pro.Storage.View.{ring, IsValid}
use alacritty_pro.Storage.Rotate.{turn, rotate_lem}
use alacritty_pro.Samples
use alacritty_pro.Samples.{sample_cells}

rotate_lem_example :
    (s' : Storage Samples.SampleCell) × (rotate Samples.storage (negsuc 0) ≡ some s')
    × IsValid s'
    × ((length s'.inner ≡ length Samples.storage.inner)
        × (s'.len ≡ Samples.storage.len)
        × (s'.visible_lines ≡ Samples.storage.visible_lines))
    × (ring s'
        ≡ rotate_left (turn (length Samples.storage.inner) (negsuc 0)) (ring Samples.storage))
rotate_lem_example = rotate_lem (negsuc 0) Samples.storage-IsValid (omega arith)
