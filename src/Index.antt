-- ===== src/Index.antt =====
-- Lines, columns and points: alacritty_terminal/src/index.rs, and the trait `Dimensions` of
-- alacritty_terminal/src/grid/mod.rs. A `Line` is an integer, counted down from the top of the
-- screen; the lines of the history are negative. A `Column` is a number.
pub mod Clamp
pub mod Steps
mod Tests
use package.alacritty_pro.Prelude.{
  ℕ, zero, suc, ◌+◌, ◌-◌, ◌/◌, ◌%◌, min, Bool, ◌&&◌, ◌||◌, Option, none, some, leb, ltb, ◌==◌,
  if◌then◌else◌, ◌>>=◌, ◌>>◌, assert,
}
use package.alacritty_pro.Prelude.Int.{
  ℤ, pos, negsuc, ◌+ℤ◌, ◌-ℤ◌, neg, sub_ℕ, pos_part, neg_part, ltb_ℤ, leb_ℤ, eq_ℤ, min_ℤ, max_ℤ,
}

pub data Direction : Type 0 where
  left right : Direction

unfoldable pub opposite : Direction → Direction
opposite Direction.right = Direction.left
opposite Direction.left = Direction.right

pub data Boundary : Type 0 where
  cursor grid unbounded : Boundary

pub record Point : Type 0 where
  pub line : ℤ
  pub column : ℕ

-- `Dimensions`, by the three methods that an implementation gives.
pub record Dimensions : Type 0 where
  pub total_lines : ℕ
  pub screen_lines : ℕ
  pub columns : ℕ

-- `Line + usize` and `Line - usize`.
abbrev pub add_line : ℤ → ℕ → ℤ
add_line (pos a) n = pos (a + n)
add_line (negsuc a) n = sub_ℕ n (suc a)

abbrev pub sub_line : ℤ → ℕ → ℤ
sub_line (pos a) n = sub_ℕ a n
sub_line (negsuc a) n = negsuc (a + n)

-- `saturating_sub`, which is the subtraction of the model.
abbrev pub history_size : Dimensions → ℕ
history_size d = d.total_lines - d.screen_lines

abbrev pub topmost_line : Dimensions → ℤ
topmost_line d = neg (pos (history_size d))

abbrev pub bottommost_line : Dimensions → ℤ
bottommost_line d = sub_ℕ d.screen_lines 1

-- One column at least is in every terminal.
abbrev pub last_column : Dimensions → ℕ
last_column d = d.columns - 1

-- The remainder of Rust, with the sign of the dividend.
abbrev pub rem : ℤ → ℕ → ℤ
rem (pos a) n = pos (a % n)
rem (negsuc a) n = neg (pos (suc a % n))

-- `Line::grid_clamp`. A remainder by zero lines cannot occur: `total_lines` is positive.
unfoldable pub clamp_line : Dimensions → Boundary → ℤ → ℤ
clamp_line d Boundary.cursor line = max_ℤ (pos 0) (min_ℤ (bottommost_line d) line)
clamp_line d Boundary.grid line = max_ℤ (topmost_line d) (min_ℤ (bottommost_line d) line)
clamp_line d Boundary.unbounded line =
    if leb_ℤ (pos d.screen_lines) line
    then topmost_line d +ℤ rem (line -ℤ pos d.screen_lines) d.total_lines
    else bottommost_line d +ℤ rem (line -ℤ pos d.screen_lines +ℤ pos 1) d.total_lines

-- `Point::grid_clamp`
unfoldable pub grid_clamp : Dimensions → Boundary → Point → Point
unfolding clamp_line
grid_clamp d Boundary.cursor p =
    if ltb_ℤ p.line (pos 0)
    then record { line = pos 0; column = 0 }
    else if ltb_ℤ (bottommost_line d) p.line
    then record { line = bottommost_line d; column = last_column d }
    else record p { column = min p.column (last_column d) }
grid_clamp d Boundary.grid p =
    if ltb_ℤ p.line (topmost_line d)
    then record { line = topmost_line d; column = 0 }
    else if ltb_ℤ (bottommost_line d) p.line
    then record { line = bottommost_line d; column = last_column d }
    else record p { column = min p.column (last_column d) }
grid_clamp d Boundary.unbounded p = record {
  line = clamp_line d Boundary.unbounded p.line;
  column = min p.column (last_column d);
}

-- `Point::sub`; `rhs + cols - 1` does not underflow, since there is a column.
unfoldable pub sub : Dimensions → Boundary → Point → ℕ → Point
unfolding grid_clamp
sub d boundary p rhs =
    let cols = d.columns in
    let line_changes = (rhs + cols - 1 - p.column) / cols in
    grid_clamp d boundary (record {
      line = sub_line p.line line_changes;
      column = (cols + p.column - rhs % cols) % cols;
    })

-- `Point::add`
unfoldable pub add : Dimensions → Boundary → Point → ℕ → Point
unfolding grid_clamp
add d boundary p rhs =
    let cols = d.columns in
    grid_clamp d boundary (record {
      line = add_line p.line ((rhs + p.column) / cols);
      column = (p.column + rhs) % cols;
    })

-- The order of points: by line, then by column.
unfoldable pub point_lt : Point → Point → Bool
point_lt p q = ltb_ℤ p.line q.line || (eq_ℤ p.line q.line && ltb p.column q.column)

unfoldable pub point_le : Point → Point → Bool
point_le p q = ltb_ℤ p.line q.line || (eq_ℤ p.line q.line && leb p.column q.column)
