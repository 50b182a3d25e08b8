-- ===== src/Storage/Tests/Access.antt =====
-- Applications of the theorems of Storage/Access to concrete states.
use alacritty_pro.Prelude.{◌+◌, ◌%◌, ◌<◌, ◌≡◌, some, arith, length, get_elem?}
use alacritty_pro.Prelude.Int.{pos, negsuc}
use alacritty_pro.Storage.{Storage, compute_index, index, swap}
use alacritty_pro.Storage.View.{ring, contents, place}
use alacritty_pro.Storage.Access.{
  position, compute_index_lem, index-contents, SameShape, exchange, swap-exchange,
}
use alacritty_pro.Samples
use alacritty_pro.Samples.{sample_cells}

compute_index_lem_example :
    (compute_index Samples.storage (negsuc 0)
      ≡ some (place Samples.storage (position Samples.storage (negsuc 0))))
    × (place Samples.storage (position Samples.storage (negsuc 0))
        ≡ (Samples.storage.zero + position Samples.storage (negsuc 0))
          % length Samples.storage.inner)
    × (place Samples.storage (position Samples.storage (negsuc 0)) < length Samples.storage.inner)
compute_index_lem_example =
    compute_index_lem (negsuc 0) Samples.storage-IsValid (omega arith, omega arith)

index-contents_example :
    index Samples.storage (negsuc 0)
    ≡ get_elem? (contents Samples.storage) (position Samples.storage (negsuc 0))
index-contents_example =
    index-contents (negsuc 0) Samples.storage-IsValid (omega arith, omega arith)

swap-exchange_example :
    (s' : Storage Samples.SampleCell) × (swap Samples.storage (negsuc 0) (pos 1) ≡ some s')
    × SameShape Samples.storage s'
    × (ring s'
        ≡ exchange
            (ring Samples.storage)
            (position Samples.storage (negsuc 0))
            (position Samples.storage (pos 1)))
swap-exchange_example =
    swap-exchange (negsuc 0) (pos 1) Samples.storage-IsValid (omega arith, omega arith)
      (omega arith, omega arith)
