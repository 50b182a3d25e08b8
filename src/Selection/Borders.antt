-- ===== src/Selection/Borders.antt =====
-- The cells of the grid, numbered row by row from the top of the history, and where the trimmed ends
-- of a simple selection (`range_simple` of alacritty_terminal/src/selection.rs) lie among them.
use alacritty_pro.Prelude.{
  ℕ, zero, suc, ◌+◌, ◌-◌, ◌*◌, ◌≤◌, ◌<◌, ◌≡◌, ◌≢◌, arith, false, ◌==◌, ◌&&◌, if◌then◌else◌,
  Bool-cases, inl, inr, leb,
}
use alacritty_pro.Prelude.Int.{ℤ, sub_ℕ, leb_ℤ, eq_ℤ}
use alacritty_pro.Index.{Point, Direction, sub_line, add_line}
use alacritty_pro.Selection.{Anchor, same_point, same_side, trim_end, trim_start}

-- The number of a cell, and the border of a cell at which an anchor lies.
abbrev pub cell_index : ℕ → ℕ → ℕ → ℕ
cell_index columns line column = line * columns + column

abbrev pub half : Direction → ℕ
half Direction.left = 0
half Direction.right = 1

abbrev pub border : ℕ → ℕ → Anchor → ℕ
border columns line anchor = cell_index columns line anchor.point.column + half anchor.side

-- The line of the grid with a number, where `history` lines lie above the screen.
abbrev pub grid_line : ℕ → ℕ → ℤ
grid_line history line = sub_ℕ line history

-- A point is the cell with a number.
pub record IsCell (history columns : ℕ) (p : Point) (index : ℕ) : Type 0 where
  pub line : ℕ
  pub at : p.line ≡ grid_line history line
  pub column_in : p.column < columns
  pub number : cell_index columns line p.column ≡ index

previous_line : (columns line : ℕ) → 0 < line → line * columns ≡ (line - 1) * columns + columns
previous_line columns zero h = absurd (omega arith)
previous_line columns (suc line) h = grind arith

line_before : (history j : ℕ) → 0 < j → sub_line (grid_line history j) 1 ≡ grid_line history (j - 1)
line_before history j h = elim (Bool-cases (leb history j)) [
  | inl low ↦ rw low (ground arith)
  | inr high ↦ rw high (ground arith)
]

line_behind : (history i : ℕ) → add_line (grid_line history i) 1 ≡ grid_line history (i + 1)
line_behind history i = elim (Bool-cases (leb history i)) [
  | inl low ↦ rw low (ground arith)
  | inr high ↦ rw high (ground arith)
]

-- The tests of lines are those of their numbers.
pub eq_grid_line : (history i j : ℕ) → eq_ℤ (grid_line history i) (grid_line history j) ≡ (i == j)
eq_grid_line history i j = ground arith

pub leb-grid_line : (history i j : ℕ) → leb_ℤ (grid_line history i) (grid_line history j) ≡ leb i j
leb-grid_line history i j = ground arith

some_line : (columns j : ℕ) (p : Point) → p.column ≡ 0 → 0 < cell_index columns j p.column → 0 < j
some_line columns zero p e h = grind arith
some_line columns (suc j) p e h = omega arith

-- An anchor on the left half of a cell ends a selection at the cell in front.
before_lem :
    (history columns j : ℕ) (p : Point)
    → p.line ≡ grid_line history j
    → p.column < columns
    → 0 < cell_index columns j p.column
    → IsCell history columns
        (if p.column == 0
          then record { line = sub_line p.line 1; column = columns - 1 }
          else record p { column = p.column - 1 })
        (cell_index columns j p.column - 1)
before_lem history columns j p e u h = elim (Bool-cases (p.column == 0)) [
  | inl first_cell ↦ rw first_cell (record {
    line = j - 1;
    at = rw e (line_before history j (some_line columns j p (ground arith) h));
    column_in = omega arith;
    number =
        let leftmost : p.column ≡ 0 = ground arith in
        omega (arith, previous_line columns j (some_line columns j p (ground arith) h));
  })
  | inr later ↦
      rw later (record { line = j; at = e; column_in = omega arith; number = ground arith })
]

different :
    (history columns i j : ℕ) (p q : Point)
    → p.line ≡ grid_line history i
    → q.line ≡ grid_line history j
    → cell_index columns i p.column ≢ cell_index columns j q.column
    → same_point p q ≡ false
unfolding same_point
different history columns i j p q e f h = elim (Bool-cases ((p.column == q.column) && (i == j))) [
  | inl same ↦ absurd (h (ground arith))
  | inr other ↦ rw (e, f, eq_grid_line history i j) (ground arith)
]

-- An anchor on the right half of a cell starts a selection at the cell behind.
after_lem :
    (history columns i : ℕ) (p : Point)
    → p.line ≡ grid_line history i
    → p.column < columns
    → IsCell history columns
        (if p.column + 1 == columns
          then record { line = add_line p.line 1; column = 0 }
          else record p { column = p.column + 1 })
        (cell_index columns i p.column + 1)
after_lem history columns i p e u = elim (Bool-cases (p.column + 1 == columns)) [
  | inl last_cell ↦ rw last_cell (record {
    line = i + 1;
    at = rw e (line_behind history i);
    column_in = omega arith;
    number =
        let rightmost : p.column + 1 ≡ columns = ground arith in
        omega (arith, previous_line columns (i + 1) (omega arith));
  })
  | inr inner ↦ rw inner (record {
    line = i;
    at = e;
    column_in = let still : p.column + 1 ≢ columns = ground arith in omega arith;
    number = omega arith;
  })
]

-- The end of the range is the last cell in front of the border of the last anchor.
pub trim_end_lem :
    (history columns i j : ℕ) (p q : Point) (s t : Direction)
    → p.line ≡ grid_line history i
    → q.line ≡ grid_line history j
    → q.column < columns
    → cell_index columns i p.column + half s < cell_index columns j q.column + half t
    → IsCell history columns
        (trim_end columns (record { point = p; side = s }) (record { point = q; side = t }))
        (cell_index columns j q.column + half t - 1)
unfolding trim_end same_side
trim_end_lem history columns i j p q s Direction.right e f v h = record {
  line = j;
  at = f;
  column_in = v;
  number = omega arith;
}
trim_end_lem history columns i j p q s Direction.left e f v h =
    rw (different history columns i j p q e f (omega arith))
      (number_of (before_lem history columns j q f v (omega arith)))
  where
    number_of :
        {r : Point}
        → IsCell history columns r (cell_index columns j q.column - 1)
        → IsCell history columns r (cell_index columns j q.column + 0 - 1)
    number_of c = record {
      line = c.line;
      at = c.at;
      column_in = c.column_in;
      number = omega (arith, c.number);
    }

-- Its start is the first cell behind the border of the first anchor.
pub trim_start_lem :
    (history columns i : ℕ) (p r : Point) (s : Direction) (index : ℕ)
    → p.line ≡ grid_line history i
    → p.column < columns
    → IsCell history columns r index
    → cell_index columns i p.column + half s ≤ index
    → IsCell history columns
        (trim_start columns (record { point = p; side = s }) r)
        (cell_index columns i p.column + half s)
unfolding trim_start same_side
trim_start_lem history columns i p r Direction.left index e u c h = record {
  line = i;
  at = e;
  column_in = u;
  number = omega arith;
}
trim_start_lem history columns i p r Direction.right index e u c h =
    rw (different history columns i c.line p r e c.at (omega (arith, c.number)))
      (after_lem history columns i p e u)
