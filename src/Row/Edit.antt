-- ===== src/Row/Edit.antt =====
-- Editing the cells of one line: what `insert_blank`, `delete_chars`, `erase_chars` and the insert
-- mode of `input` in alacritty_terminal/src/term/mod.rs do to the row of the cursor.
use alacritty_pro.Prelude.{
  ℕ, zero, suc, ◌+◌, ◌-◌, min, Option, some, List, ◌++◌, leb, ◌>>=◌, ◌>>◌, assert, length,
  get_elem?, set, take, drop, replicate,
}
use alacritty_pro.Row.{Row, full_slice, fill_range}

module _ {T : Type 0} where
  -- `<[T]>::swap`
  unfoldable pub swap_cells : List T → ℕ → ℕ → Option (List T)
  swap_cells cells a b = do
    x ← get_elem? cells a
    y ← get_elem? cells b
    some (set (set cells a y) b x)

  -- `for offset in (0..n).rev() { row.swap(to + offset, from + offset) }`
  unfoldable pub shift_right : ℕ → ℕ → ℕ → List T → Option (List T)
  unfolding swap_cells
  shift_right zero to from cells = some cells
  shift_right (suc n) to from cells = swap_cells cells (to + n) (from + n) >>= shift_right n to from

  -- `for offset in 0..n { row.swap(from + offset, to + offset) }`
  unfoldable pub shift_left : ℕ → ℕ → ℕ → List T → Option (List T)
  unfolding swap_cells
  shift_left zero from to cells = some cells
  shift_left (suc n) from to cells = swap_cells cells from to >>= shift_left n (suc from) (suc to)

  -- `for cell in &mut row[left..right] { *cell = c }` on a slice
  unfoldable pub fill : ℕ → ℕ → T → List T → Option (List T)
  fill left right c cells = do
    assert (leb left right)
    assert (leb right (length cells))
    some (take left cells ++ (replicate (right - left) c ++ drop right cells))

  -- The row part of `insert_blank`, with the cursor at `column` and `blank` the cell of its background.
  unfoldable pub insert_blank : ℕ → T → ℕ → ℕ → Row T → Option (Row T)
  unfolding shift_right fill full_slice
  insert_blank columns blank column count row = do
    assert (leb column columns)
    let n = min count (columns - column)
    let destination = column + n
    cells ← shift_right (columns - destination) destination column row.inner
    cells' ← fill column destination blank cells
    some (record (full_slice row) { inner = cells' })

  -- The row part of `delete_chars`.
  unfoldable pub delete_chars : ℕ → T → ℕ → ℕ → Row T → Option (Row T)
  unfolding shift_left fill full_slice
  delete_chars columns blank column count row = do
    let n = min count columns
    let end = min (column + n) (columns - 1)
    cells ← shift_left (columns - end) column end row.inner
    cells' ← fill (columns - n) (length cells) blank cells
    some (record (full_slice row) { inner = cells' })

  -- The row part of `erase_chars`.
  unfoldable pub erase_chars : ℕ → T → ℕ → ℕ → Row T → Option (Row T)
  unfolding fill_range
  erase_chars columns blank column count row =
      fill_range row column (min (column + count) columns) blank
