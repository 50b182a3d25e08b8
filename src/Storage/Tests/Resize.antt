-- ===== src/Storage/Tests/Resize.antt =====
-- Applications of the theorems of Storage/Resize to concrete states.
use alacritty_pro.Prelude.{◌+◌, ◌-◌, ◌≤◌, ◌≡◌, some, ◌++◌, arith, length, take}
use alacritty_pro.Storage.{Storage, shrink_lines, initialize, max_cache_size}
use alacritty_pro.Storage.View.{ring, contents, IsValid}
use alacritty_pro.Storage.Resize.{shrink_lines_lem, fresh_rows, initialize_lem}
use alacritty_pro.Samples
use alacritty_pro.Samples.{sample_cells}

initialize_lem_example :
    (s' : Storage Samples.SampleCell) × (initialize Samples.storage 2 2 ≡ some s')
    × IsValid s'
    × ((s'.len ≡ Samples.storage.len + 2) × (s'.visible_lines ≡ Samples.storage.visible_lines))
    × (ring s' ≡ ring Samples.storage ++ fresh_rows Samples.storage 2 2)
    × (take Samples.storage.len (contents s') ≡ contents Samples.storage)
initialize_lem_example = initialize_lem Samples.storage 2 2 Samples.storage-IsValid (omega arith)

shrink_lines_lem_example :
    (s' : Storage Samples.SampleCell) × (shrink_lines Samples.storage 1 ≡ some s')
    × IsValid s'
    × ((s'.len ≡ Samples.storage.len - 1) × (s'.visible_lines ≡ Samples.storage.visible_lines))
    × (contents s' ≡ take (Samples.storage.len - 1) (contents Samples.storage))
    × (length s'.inner ≤ s'.len + max_cache_size)
shrink_lines_lem_example = shrink_lines_lem Samples.storage 1 Samples.storage-IsValid (omega arith)
