-- ===== src/Grid/Iter.antt =====
-- The iterator over the cells of a grid, forwards and backwards: `GridIterator` of
-- alacritty_terminal/src/grid/mod.rs.
use alacritty_pro.Prelude.{◌+◌, ◌-◌, Option, none, some, leb, ◌==◌, if◌then◌else◌, ◌>>=◌}
use alacritty_pro.Prelude.Int.{sub_ℕ, min_ℤ}
use alacritty_pro.Index
use alacritty_pro.Index.{Point, Dimensions, add_line, sub_line, point_le}
use alacritty_pro.Row
use alacritty_pro.Row.{Row}
use alacritty_pro.Grid.Defs
use alacritty_pro.Grid.Defs.{Grid, dimensions}

-- The iterator without its reference to the grid, which is an argument.
pub record GridIterator : Type 0 where
  pub point : Point
  pub end : Point

-- A cell with its point, `Indexed`.
pub record Indexed (T : Type 0) : Type 0 where
  pub point : Point
  pub cell : T

-- The point behind, and the point in front.
unfoldable pub point_behind : Dimensions → Point → Point
point_behind d p =
    if leb (Index.last_column d) p.column
    then record { line = add_line p.line 1; column = 0 }
    else record p { column = p.column + 1 }

unfoldable pub point_before : Dimensions → Point → Point
point_before d p =
    if p.column == 0
    then record { line = sub_line p.line 1; column = Index.last_column d }
    else record p { column = p.column - 1 }

module _ {T : Type 0} where
  unfoldable pub iter_from : Grid T → Point → GridIterator
  iter_from g p = record {
    point = p;
    end = record {
      line = Index.bottommost_line (dimensions g);
      column = Index.last_column (dimensions g);
    };
  }

  unfoldable pub display_iter : Grid T → GridIterator
  display_iter g =
      let d = dimensions g in
      let start = sub_ℕ 0 (g.display_offset + 1) in
      record {
        point = record { line = start; column = Index.last_column d };
        end = record {
          line = min_ℤ (add_line start g.lines) (Index.bottommost_line d);
          column = Index.last_column d;
        };
      }

  -- `&self.grid[self.point]`
  unfoldable pub cell : Grid T → Point → Option T
  unfolding Defs.index Row.index
  cell g p = Defs.index g p.line >>= (λ row. Row.index row p.column)

  -- The item, if there is one, and the iterator afterwards.
  abbrev pub yield_at : Grid T → GridIterator → Point → Option (Option (Indexed T) × GridIterator)
  yield_at g it p =
      cell g p >>= (λ c. some (some (record { point = p; cell = c }), record it { point = p }))

  unfoldable pub next : Grid T → GridIterator → Option (Option (Indexed T) × GridIterator)
  unfolding cell point_behind point_le
  next g it =
      let item = yield_at g it (point_behind (dimensions g) it.point) in
      if point_le it.end it.point then some (none, it) else item

  unfoldable pub prev : Grid T → GridIterator → Option (Option (Indexed T) × GridIterator)
  unfolding cell point_before point_le
  prev g it =
      let d = dimensions g in
      let item = yield_at g it (point_before d it.point) in
      if point_le it.point (record { line = Index.topmost_line d; column = 0 })
      then some (none, it)
      else item
