-- ===== src/Selection/Ranges.antt =====
-- The cells that a simple selection covers, counted row by row from the top of the history.
use alacritty_pro.Prelude.{
  ℕ, zero, suc, ◌+◌, ◌-◌, ◌*◌, ◌≤◌, ◌<◌, ◌≡◌, refl, sym, ap, arith, some, none, leb, Bool, true,
  false, ◌==◌, ◌&&◌, ◌||◌, not, Bool-cases, inl, inr, le_or_lt,
}
use alacritty_pro.Index.{Point, Direction}
use alacritty_pro.Selection.{
  Selection, SelectionType, SelectionRange, first, last, is_empty, contains, same_point, same_side,
  range_simple,
}
use alacritty_pro.Selection.Borders.{
  cell_index, half, border, IsCell, grid_line, eq_grid_line, leb-grid_line, trim_end_lem,
  trim_start_lem,
}

-- The test of `is_empty` on two anchors.
abbrev covers_nothing : ℕ → ℕ → ℕ → ℕ → Direction → Direction → Bool
covers_nothing i j x y s t =
    (((i == j) && (x == y)) && same_side s t)
    || (same_side s Direction.right && (same_side t Direction.left && ((i == j) && (x + 1 == y))))

one_line :
    (i j x y : ℕ) (s t : Direction) → x + half s < y + half t → covers_nothing i j x y s t ≡ false
unfolding same_side
one_line i j x y Direction.left Direction.left h = ground arith
one_line i j x y Direction.left Direction.right h = ground arith
one_line i j x y Direction.right Direction.left h = ground arith
one_line i j x y Direction.right Direction.right h = ground arith

two_lines : (i j x y : ℕ) (s t : Direction) → (i == j) ≡ false → covers_nothing i j x y s t ≡ false
unfolding same_side
two_lines i j x y Direction.left Direction.left h = ground arith
two_lines i j x y Direction.left Direction.right h = ground arith
two_lines i j x y Direction.right Direction.left h = ground arith
two_lines i j x y Direction.right Direction.right h = ground arith

touching :
    (i x y : ℕ) (s t : Direction)
    → x ≤ y
    → x + half s ≡ y + half t
    → covers_nothing i i x y s t ≡ true
unfolding same_side
touching i x y Direction.left Direction.left o h = ground arith
touching i x y Direction.left Direction.right o h = ground arith
touching i x y Direction.right Direction.left o h = ground arith
touching i x y Direction.right Direction.right o h = ground arith

some_cells :
    (columns i j x y : ℕ) (s t : Direction)
    → cell_index columns i x + half s < cell_index columns j y + half t
    → covers_nothing i j x y s t ≡ false
some_cells columns i j x y s t h = elim (Bool-cases (i == j)) [
  | inl same ↦
      let line : i * columns ≡ j * columns = ap (λ n. n * columns) (ground arith) in
      one_line i j x y s t (omega (arith, line))
  | inr other ↦ two_lines i j x y s t other
]

module _ (s : Selection) (i j : ℕ) (simple : s.ty ≡ SelectionType.simple) (history : ℕ)
    (at_first : (first s).point.line ≡ grid_line history i)
    (at_last : (last s).point.line ≡ grid_line history j) where
  is_empty_lem :
      is_empty s
      ≡ covers_nothing i j (first s).point.column (last s).point.column (first s).side (last s).side
  unfolding is_empty same_point
  is_empty_lem = rw (simple, at_first, at_last, eq_grid_line history i j) refl

  -- Of a simple selection with both ends in lines and columns of the grid, those of the history included,
  -- whose first border lies in front of the last, the range is from the cell behind the first border up to
  -- the one in front of the last, the cells counted row by row from the top of the history.
  pub range_simple_lem :
      (columns : ℕ)
      → (first s).point.column < columns
      → (last s).point.column < columns
      → border columns i (first s) < border columns j (last s)
      → (r : SelectionRange) × (range_simple s (first s) (last s) columns ≡ some r)
        × IsCell history columns r.start (border columns i (first s))
        × IsCell history columns r.end (border columns j (last s) - 1)
        × (r.is_block ≡ false)
  unfolding range_simple
  range_simple_lem columns u v h =
      let end =
        trim_end_lem history columns i j (first s).point (last s).point (first s).side (last s).side
          at_first at_last v h in
      (
        _,
        rw
            (
              is_empty_lem,
              some_cells columns i j (first s).point.column (last s).point.column (first s).side
                  (last s).side h,
            )
            refl,
        trim_start_lem history columns i (first s).point _ (first s).side _ at_first u end
            (omega arith),
        end,
        refl,
      )

  -- One that starts and ends at the same border of the same line has no range.
  pub range_simple-none :
      (columns : ℕ)
      → i ≡ j
      → (first s).point.column ≤ (last s).point.column
      → border columns i (first s) ≡ border columns j (last s)
      → range_simple s (first s) (last s) columns ≡ none
  unfolding range_simple
  range_simple-none columns e o h =
      let line : i * columns ≡ j * columns = ap (λ n. n * columns) e in
      rw
        (
          is_empty_lem,
          sym e,
          touching i (first s).point.column (last s).point.column (first s).side (last s).side o
              (omega (arith, line)),
        )
        refl

lower_line : (columns i k : ℕ) → i < k → i * columns + columns ≤ k * columns
lower_line columns i zero h = absurd (omega arith)
lower_line columns i (suc k) h = elim (le_or_lt k i) [
  | inl equal ↦
      let e : i * columns ≡ k * columns = ap (λ n. n * columns) (omega arith) in grind arith
  | inr less ↦ grind (arith, lower_line columns i k less)
]

leb_cells :
    (columns i k x y : ℕ)
    → x < columns
    → y < columns
    → (leb i k && (leb x y || not (i == k))) ≡ leb (cell_index columns i x) (cell_index columns k y)
leb_cells columns i k x y u v = elim (le_or_lt i k) [
  | inl up ↦ elim (Bool-cases (i == k)) [
    | inl same ↦
        let line : i * columns ≡ k * columns = ap (λ n. n * columns) (ground arith) in
        ground (arith, line)
    | inr other ↦ ground (arith, lower_line columns i k (ground arith))
  ]
  | inr down ↦ ground (arith, lower_line columns k i down)
]

-- A range that is no block, from one cell of the grid to another, contains of the cells of the grid, those
-- of the history included, exactly the ones from its start to its end, counted row by row from the top of
-- the history.
pub contains_lem :
    (history columns a b n : ℕ) (r : SelectionRange) (p : Point)
    → r.is_block ≡ false
    → IsCell history columns r.start a
    → IsCell history columns r.end b
    → IsCell history columns p n
    → contains r p ≡ (leb a n && leb n b)
unfolding contains
contains_lem history columns a b n r p flow start end cell =
    rw
      (
        flow,
        start.at,
        end.at,
        cell.at,
        sym start.number,
        sym end.number,
        sym cell.number,
        leb-grid_line history start.line cell.line,
        leb-grid_line history cell.line end.line,
        eq_grid_line history start.line cell.line,
        eq_grid_line history end.line cell.line,
      )
      (regroup start.line cell.line end.line r.start.column p.column r.end.column _ _
        (leb_cells columns start.line cell.line r.start.column p.column start.column_in
          cell.column_in)
        (leb_cells columns cell.line end.line p.column r.end.column cell.column_in end.column_in))
  where
    regroup :
        (i k j x y z : ℕ) (above below : Bool)
        → (leb i k && (leb x y || not (i == k))) ≡ above
        → (leb k j && (leb y z || not (k == j))) ≡ below
        → (leb i k
            && (leb k j
                && ((leb x y || (not (i == k) && not false))
                    && (leb y z || (not (j == k) && not false)))))
          ≡ (above && below)
    regroup i k j x y z above below e f = ground arith
