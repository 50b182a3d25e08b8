-- ===== src/Index/Steps.antt =====
-- Moving a point by a number of cells.
use native.Mathlib.Nat.{add_comm, mod-lt, div-add-mod', mul-le-mul_right}
use native.Mathlib.Decide.{dec_lt}
use mathlib.Core.Path.{subst}
use alacritty_pro.Prelude.{ℕ, ◌+◌, ◌-◌, ◌*◌, ◌/◌, ◌%◌, ◌<◌, min, ◌≡◌, sym, ◌∙◌, ap, arith}
use alacritty_pro.Prelude.Int.{ℤ, pos, negsuc, ◌≤ℤ◌, pos_part, neg_part}
use alacritty_pro.Index.{
  Dimensions, Boundary, Point, history_size, topmost_line, bottommost_line, grid_clamp, add,
  add_line,
}
use alacritty_pro.Index.Clamp.{IsValid, top_of, clamp_line_fixed}

-- The number of cells from the top left cell of the topmost line to a point of the grid.
abbrev pub cell_number : Dimensions → Point → ℕ
cell_number d p = (history_size d + pos_part p.line - neg_part p.line) * d.columns + p.column

-- A point of the grid, or of the screen if the boundary is the cursor's.
pub record Inside (d : Dimensions) (boundary : Boundary) (p : Point) : Type 0 where
  pub above : top_of d boundary ≤ℤ p.line
  pub below : p.line ≤ℤ bottommost_line d
  pub within : p.column < d.columns

least : (c n : ℕ) → c < n → min c (n - 1) ≡ c
least c n h = omega arith

-- A point inside the boundary is not moved by clamping.
pub grid_clamp_fixed :
    (d : Dimensions) (boundary : Boundary) (p : Point)
    → IsValid d
    → Inside d boundary p
    → grid_clamp d boundary p ≡ p
unfolding grid_clamp
grid_clamp_fixed d Boundary.cursor p v i = ground arith
grid_clamp_fixed d Boundary.grid p v i = ground arith
grid_clamp_fixed d Boundary.unbounded p v i = λ j. record {
  line = clamp_line_fixed d Boundary.unbounded p.line v i.above i.below j;
  column = least p.column d.columns i.within j;
}

quotient_bound : (l q c r t : ℕ) → (l + q) * c + r < t * c → l + q < t
quotient_bound l q c r t h = elim (dec_lt (l + q) t) [
  | yes p ↦ p
  | no p ↦ absurd (omega (arith, mul-le-mul_right {m = t} {n = l + q} c (omega arith)))
]

-- The line of a point, counted from the topmost one.
abbrev pub row_number : Dimensions → ℤ → ℕ
row_number d line = history_size d + pos_part line - neg_part line

pub row_number-add :
    (d : Dimensions) (line : ℤ) (q : ℕ)
    → topmost_line d ≤ℤ line
    → row_number d (add_line line q) ≡ row_number d line + q
row_number-add d (pos n) q h = omega arith
row_number-add d (negsuc n) q h = ground arith

pub row_number-inside :
    (d : Dimensions) (line : ℤ) (q : ℕ)
    → IsValid d
    → topmost_line d ≤ℤ line
    → row_number d line + q < d.total_lines
    → (topmost_line d ≤ℤ add_line line q) × (add_line line q ≤ℤ bottommost_line d)
row_number-inside d (pos n) q v h k = ground arith
row_number-inside d (negsuc n) q v h k = ground arith

on_grid :
    (d : Dimensions) (boundary : Boundary) (line : ℤ)
    → top_of d boundary ≤ℤ line
    → topmost_line d ≤ℤ line
on_grid d Boundary.cursor (pos n) h = ground arith
on_grid d Boundary.cursor (negsuc n) h = absurd (omega arith)
on_grid d Boundary.grid line h = h
on_grid d Boundary.unbounded line h = h

still_above :
    (d : Dimensions) (boundary : Boundary) (line : ℤ) (q : ℕ)
    → top_of d boundary ≤ℤ line
    → topmost_line d ≤ℤ add_line line q
    → top_of d boundary ≤ℤ add_line line q
still_above d Boundary.cursor (pos n) q h k = omega arith
still_above d Boundary.cursor (negsuc n) q h k = absurd (omega arith)
still_above d Boundary.grid line q h k = k
still_above d Boundary.unbounded line q h k = k

-- Under any boundary, adding columns to a point inside the boundary of a grid with a line and a column
-- at least, up to its last cell, stays inside the boundary and moves the point by that many cells. Inside
-- the cursor's boundary are the points of the screen, inside the others those of the grid.
pub add-cell_number :
    (d : Dimensions) (boundary : Boundary) (p : Point) (rhs : ℕ)
    → IsValid d
    → Inside d boundary p
    → cell_number d p + rhs < d.total_lines * d.columns
    → Inside d boundary (add d boundary p rhs)
      × (cell_number d (add d boundary p rhs) ≡ cell_number d p + rhs)
unfolding add
add-cell_number d boundary p rhs v i h =
    let cols = d.columns in
    let q = (rhs + p.column) / cols in
    let r = (p.column + rhs) % cols in
    let rows = row_number d p.line in
    let split : q * cols + r ≡ p.column + rhs =
      rw (add_comm rhs p.column) (div-add-mod' (p.column + rhs) cols) in
    let number : (rows + q) * cols + r ≡ cell_number d p + rhs = grind (arith, split) in
    let bound = quotient_bound rows q cols r d.total_lines (omega (arith, number)) in
    let top = on_grid d boundary p.line i.above in
    let (above, below) = row_number-inside d p.line q v top bound in
    let moved : Point = record { line = add_line p.line q; column = r } in
    let inside : Inside d boundary moved = record {
      above = still_above d boundary p.line q i.above above;
      below = below;
      within = mod-lt (p.column + rhs) v.some_column;
    } in
    subst (λ (z : Point). Inside d boundary z × (cell_number d z ≡ cell_number d p + rhs))
      (sym (grid_clamp_fixed d boundary moved v inside))
      (inside, ap (λ n. n * cols + r) (row_number-add d p.line q top) ∙ number)
