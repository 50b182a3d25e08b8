-- ===== src/Grid/Neighbours.antt =====
-- The cell behind a point of a grid, and the cell in front of it, in the order of the rows.
use alacritty_pro.Prelude.{
  ℕ, suc, ◌+◌, ◌-◌, ◌*◌, ◌≤◌, ◌<◌, ◌≡◌, ◌∙◌, ap, arith, leb, ◌==◌, inl, inr, Bool-cases, true,
  false,
}
use alacritty_pro.Prelude.Int.{ℤ, pos, negsuc, ◌≤ℤ◌}
use alacritty_pro.Index
use alacritty_pro.Index.{Point, Dimensions, Boundary, add_line, sub_line, point_le}
use alacritty_pro.Index.Clamp
use alacritty_pro.Index.Steps.{Inside, cell_number, row_number, row_number-add, row_number-inside}
use alacritty_pro.Grid.Iter.{point_behind, point_before}

-- The first and the last point of a grid.
abbrev pub first_point : Dimensions → Point
first_point d = record { line = Index.topmost_line d; column = 0 }

abbrev pub last_point : Dimensions → Point
last_point d = record { line = Index.bottommost_line d; column = Index.last_column d }

not_last :
    (d : Dimensions) (line : ℤ) (column : ℕ)
    → Clamp.IsValid d
    → Index.topmost_line d ≤ℤ line
    → line ≤ℤ Index.bottommost_line d
    → point_le (last_point d) (record { line = line; column = column }) ≡ false
    → d.columns - 1 ≤ column
    → row_number d line + 1 < d.total_lines
unfolding point_le
not_last d (pos n) column v a b h k = ground arith
not_last d (negsuc n) column v a b h k = ground arith

-- Stepping from a point that is not the last one goes to the next cell of the grid.
pub point_behind_lem :
    (d : Dimensions) (p : Point)
    → Clamp.IsValid d
    → Inside d Boundary.grid p
    → point_le (last_point d) p ≡ false
    → Inside d Boundary.grid (point_behind d p)
      × (cell_number d (point_behind d p) ≡ cell_number d p + 1)
unfolding point_behind point_le
point_behind_lem d p v i h = elim (Bool-cases (leb (d.columns - 1) p.column)) [
  | inl wraps ↦
      let room = not_last d p.line p.column v i.above i.below h (ground arith) in
      let (above, below) = row_number-inside d p.line 1 v i.above room in
      let rows = row_number-add d p.line 1 i.above in
      rw wraps (
        record { above = above; below = below; within = v.some_column },
        ap (λ n. n * d.columns + 0) rows
            ∙ full_row (row_number d p.line) d.columns p.column (ground arith),
      )
  | inr stays ↦
      rw stays (record { above = i.above; below = i.below; within = ground arith }, omega arith)
]
  where
    full_row :
        (rows cols column : ℕ)
        → suc column ≡ cols
        → (rows + 1) * cols + 0 ≡ rows * cols + column + 1
    full_row rows cols column h = grind arith

not_first :
    (d : Dimensions) (line : ℤ)
    → Index.topmost_line d ≤ℤ line
    → line ≤ℤ Index.bottommost_line d
    → point_le (record { line = line; column = 0 }) (first_point d) ≡ false
    → (row_number d (sub_line line 1) + 1 ≡ row_number d line)
      × (Index.topmost_line d ≤ℤ sub_line line 1)
      × (sub_line line 1 ≤ℤ Index.bottommost_line d)
unfolding point_le
not_first d (pos n) a b h = ground arith
not_first d (negsuc n) a b h = ground arith

-- Stepping back from a point that is not the first one goes to the cell of the grid in front.
pub point_before_lem :
    (d : Dimensions) (p : Point)
    → Clamp.IsValid d
    → Inside d Boundary.grid p
    → point_le p (first_point d) ≡ false
    → Inside d Boundary.grid (point_before d p)
      × (cell_number d (point_before d p) + 1 ≡ cell_number d p)
unfolding point_before point_le
point_before_lem d p v i h = elim (Bool-cases (p.column == 0)) [
  | inl wraps ↦
      let at : p.column ≡ 0 = ground arith in
      let (rows, above, below) = not_first d p.line i.above i.below (rw at at h) in
      rw wraps (
        record { above = above; below = below; within = omega (arith, v.some_column) },
        full_row (row_number d (sub_line p.line 1)) (row_number d p.line) d.columns p.column rows at
            v.some_column,
      )
  | inr stays ↦
      rw stays (
        record { above = i.above; below = i.below; within = omega (arith, i.within) },
        ground arith,
      )
]
  where
    full_row :
        (before rows cols column : ℕ)
        → before + 1 ≡ rows
        → column ≡ 0
        → 0 < cols
        → before * cols + (cols - 1) + 1 ≡ rows * cols + column
    full_row before rows cols column e at h = rw⁻¹ e (grind arith)

last_row :
    (d : Dimensions) (line : ℤ) (column : ℕ)
    → Clamp.IsValid d
    → column < d.columns
    → line ≤ℤ Index.bottommost_line d
    → point_le (last_point d) (record { line = line; column = column }) ≡ true
    → (row_number d line + 1 ≡ d.total_lines) × (column + 1 ≡ d.columns)
unfolding point_le
last_row d (pos n) column v k h e = ground arith
last_row d (negsuc n) column v k h e = ground arith

pub last_number :
    (d : Dimensions) (p : Point)
    → Clamp.IsValid d
    → Inside d Boundary.grid p
    → point_le (last_point d) p ≡ true
    → cell_number d p + 1 ≡ d.total_lines * d.columns
last_number d p v i e =
    let (rows, columns) = last_row d p.line p.column v i.within i.below e in
    full (row_number d p.line) d.total_lines p.column d.columns rows columns
  where
    full :
        (rows total column cols : ℕ)
        → rows + 1 ≡ total
        → column + 1 ≡ cols
        → rows * cols + column + 1 ≡ total * cols
    full rows total column cols e f = rw⁻¹ e (grind (arith, f))

first_row :
    (d : Dimensions) (line : ℤ) (column : ℕ)
    → Index.topmost_line d ≤ℤ line
    → point_le (record { line = line; column = column }) (first_point d) ≡ true
    → (row_number d line ≡ 0) × (column ≡ 0)
unfolding point_le
first_row d (pos n) column h e = ground arith
first_row d (negsuc n) column h e = ground arith

pub first_number :
    (d : Dimensions) (p : Point)
    → Clamp.IsValid d
    → Inside d Boundary.grid p
    → point_le p (first_point d) ≡ true
    → cell_number d p ≡ 0
first_number d p v i e =
    let (rows, column) = first_row d p.line p.column i.above e in
    none_before (row_number d p.line) p.column d.columns rows column
  where
    none_before : (rows column cols : ℕ) → rows ≡ 0 → column ≡ 0 → rows * cols + column ≡ 0
    none_before rows column cols e f = rw (e, f) (grind arith)
