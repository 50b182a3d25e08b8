-- ===== src/Selection.antt =====
-- The selection of text: `Anchor`, `SelectionRange` and `Selection` of
-- alacritty_terminal/src/selection.rs. The searches of the terminal's text by which a semantic selection
-- and one of lines grow are parameters; lines are integers without a bound.
pub mod Rotation
pub mod Borders
pub mod Ranges
mod Tests
use package.alacritty_pro.Prelude.{
  ℕ, zero, suc, ◌+◌, ◌-◌, Bool, true, false, not, ◌&&◌, ◌||◌, Option, none, some, leb, ltb, ◌==◌,
  if◌then◌else◌, ◌>>=◌,
}
use package.alacritty_pro.Prelude.Int.{ℤ, pos, ◌-ℤ◌, min_ℤ, ltb_ℤ, leb_ℤ, eq_ℤ}
use package.alacritty_pro.Index
use package.alacritty_pro.Index.{
  Point, Direction, Boundary, Dimensions, point_lt, grid_clamp, topmost_line, bottommost_line,
  last_column, sub_line, add_line,
}
use package.alacritty_pro.Grid.Defs.{Region}

-- `Side` is another name of `Direction`.
unfoldable pub same_side : Direction → Direction → Bool
same_side Direction.left Direction.left = true
same_side Direction.right Direction.right = true
same_side _ _ = false

unfoldable pub same_point : Point → Point → Bool
same_point p q = eq_ℤ p.line q.line && (p.column == q.column)

pub record Anchor : Type 0 where
  pub point : Point
  pub side : Direction

pub record SelectionRange : Type 0 where
  pub start : Point
  pub end : Point
  pub is_block : Bool

unfoldable pub contains : SelectionRange → Point → Bool
contains r p =
    leb_ℤ r.start.line p.line
    && (leb_ℤ p.line r.end.line
        && ((leb r.start.column p.column || (not (eq_ℤ r.start.line p.line) && not r.is_block))
            && (leb p.column r.end.column || (not (eq_ℤ r.end.line p.line) && not r.is_block))))

-- A cell at a point, with the flag of a wide character; `block_cursor` is the test that the shape of
-- the cursor is the block, at the point `cursor`.
unfoldable pub contains_cell : SelectionRange → Point → Bool → Point → Bool → Bool
unfolding contains same_point
contains_cell r cell wide cursor block_cursor =
    let corner =
      (eq_ℤ r.start.line cell.line && (r.end.column == cell.column))
      || (eq_ℤ r.end.line cell.line && (r.start.column == cell.column)) in
    if block_cursor
      && (same_point cursor cell
          && (same_point r.start cell || (same_point r.end cell || (r.is_block && corner))))
    then false
    else contains r cell || (wide && contains r (record cell { column = cell.column + 1 }))

pub data SelectionType : Type 0 where
  simple block semantic lines : SelectionType

unfoldable pub is_block_type : SelectionType → Bool
is_block_type SelectionType.block = true
is_block_type _ = false

-- `region`, a range of anchors, by its two ends.
pub record Selection : Type 0 where
  pub ty : SelectionType
  pub start : Anchor
  pub end : Anchor

unfoldable pub new : SelectionType → Point → Direction → Selection
new ty location side =
    let anchor : Anchor = record { point = location; side = side } in
    record { ty = ty; start = anchor; end = anchor }

unfoldable pub update : Selection → Point → Direction → Selection
update s point side = record s { end = record { point = point; side = side } }

-- The anchors in the order of their points, which `mem::swap` brings about.
abbrev pub is_reversed : Selection → Bool
is_reversed s = point_lt s.end.point s.start.point

unfoldable pub first : Selection → Anchor
first s = if is_reversed s then s.end else s.start

unfoldable pub last : Selection → Anchor
last s = if is_reversed s then s.start else s.end

-- A line is in the region that scrolls; one above it is, too, if the region starts at the top.
unfoldable pub is_scrolled : Region → ℤ → Bool
is_scrolled range line =
    (leb_ℤ range.start line || eq_ℤ range.start (pos 0)) && ltb_ℤ line range.end

-- `min(line - delta, bottommost_line)`
unfoldable pub scrolled_line : Dimensions → ℤ → ℤ → ℤ
scrolled_line d delta line = min_ℤ (line -ℤ delta) (bottommost_line d)

-- The first anchor after the rotation, none if the whole selection goes.
unfoldable pub rotate_start :
    SelectionType → Dimensions → Region → ℤ → Anchor → Anchor → Option Anchor
unfolding is_block_type is_scrolled scrolled_line
rotate_start ty d range delta start end =
    let line = scrolled_line d delta start.point.line in
    let moved : Anchor = record start { point = record start.point { line = line } } in
    let clamped : Anchor =
      if is_block_type ty
      then record start { point = record start.point { line = range.start } }
      else record { point = record { line = range.start; column = 0 }; side = Direction.left } in
    if not (is_scrolled range start.point.line)
    then some start
    else if leb_ℤ range.end line && ltb_ℤ end.point.line range.end
    then none
    else if ltb_ℤ line range.start && not (eq_ℤ range.start (pos 0))
    then some clamped
    else some moved

-- The last anchor after the rotation, with the first one already rotated.
unfoldable pub rotate_end :
    SelectionType → Dimensions → Region → ℤ → Anchor → Anchor → Option Anchor
unfolding is_block_type is_scrolled scrolled_line
rotate_end ty d range delta start end =
    let line = scrolled_line d delta end.point.line in
    let moved : Anchor = record end { point = record end.point { line = line } } in
    let bottom = sub_line range.end 1 in
    let clamped : Anchor =
      if is_block_type ty
      then record end { point = record end.point { line = bottom } }
      else record {
        point = record { line = bottom; column = last_column d };
        side = Direction.right;
      } in
    if not (is_scrolled range end.point.line)
    then some end
    else if ltb_ℤ line start.point.line
    then none
    else if leb_ℤ range.end line
    then some clamped
    else some moved

-- The selection with other anchors in the places of its first and its last one.
abbrev pub with_ends : Selection → Anchor → Anchor → Selection
with_ends s start end =
    if is_reversed s
    then record s { start = end; end = start }
    else record s { start = start; end = end }

unfoldable pub rotate : Selection → Dimensions → Region → ℤ → Option Selection
unfolding first last rotate_start rotate_end
rotate s d range delta = do
  start ← rotate_start s.ty d range delta (first s) (last s)
  end ← rotate_end s.ty d range delta start (last s)
  some (with_ends s start end)

unfoldable pub is_empty : Selection → Bool
unfolding first last same_side same_point
is_empty s = elim s.ty [
  | simple ↦
      let start = first s in
      let end = last s in
      (same_point start.point end.point && same_side start.side end.side)
      || (same_side start.side Direction.right
          && (same_side end.side Direction.left
              && (eq_ℤ start.point.line end.point.line
                  && (start.point.column + 1 == end.point.column))))
  | block ↦
      let start = s.start in
      let end = s.end in
      ((start.point.column == end.point.column) && same_side start.side end.side)
      || (((start.point.column + 1 == end.point.column)
            && (same_side start.side Direction.right && same_side end.side Direction.left))
          || ((end.point.column + 1 == start.point.column)
              && (same_side start.side Direction.left && same_side end.side Direction.right)))
  | semantic ↦ false
  | lines ↦ false
]

-- A range of lines by its first and its last line, neither for an open end.
unfoldable pub intersects_range : Selection → Option ℤ → Option ℤ → Bool
intersects_range s top bottom =
    let reversed = ltb_ℤ s.end.point.line s.start.point.line in
    let start = if reversed then s.end.point.line else s.start.point.line in
    let end = if reversed then s.start.point.line else s.end.point.line in
    (elim bottom [ none ↦ true | some line ↦ leb_ℤ start line ])
    && (elim top [ none ↦ true | some line ↦ leb_ℤ line end ])

-- The sides that `include_all` sets, the start's and the end's.
unfoldable pub outer_sides : Selection → Direction × Direction
unfolding is_block_type
outer_sides s =
    let start = s.start.point in
    let end = s.end.point in
    let reversed =
      if is_block_type s.ty
      then ltb end.column start.column
        || ((start.column == end.column) && ltb_ℤ end.line start.line)
      else is_reversed s in
    if reversed then (Direction.right, Direction.left) else (Direction.left, Direction.right)

unfoldable pub include_all : Selection → Selection
unfolding outer_sides
include_all s =
    let (start_side, end_side) = outer_sides s in
    record s {
      start = record s.start { side = start_side };
      end = record s.end { side = end_side };
    }

-- The end of a simple selection, without the cell whose left side it stops at.
unfoldable pub trim_end : ℕ → Anchor → Anchor → Point
unfolding same_side same_point
trim_end columns start end =
    if same_side end.side Direction.left && not (same_point start.point end.point)
    then if end.point.column == 0
      then record { line = sub_line end.point.line 1; column = columns - 1 }
      else record end.point { column = end.point.column - 1 }
    else end.point

-- The start of a simple selection, without the cell whose right side it begins at.
unfoldable pub trim_start : ℕ → Anchor → Point → Point
unfolding same_side same_point
trim_start columns start end =
    if same_side start.side Direction.right && not (same_point start.point end)
    then if start.point.column + 1 == columns
      then record { line = add_line start.point.line 1; column = 0 }
      else record start.point { column = start.point.column + 1 }
    else start.point

unfoldable pub range_simple : Selection → Anchor → Anchor → ℕ → Option SelectionRange
unfolding is_empty trim_end trim_start
range_simple s start end columns =
    if is_empty s
    then none
    else let last = trim_end columns start end in
      some (record { start = trim_start columns start last; end = last; is_block = false })

unfoldable pub range_block : Selection → Anchor → Anchor → Option SelectionRange
unfolding is_empty same_side same_point
range_block s start end =
    let crossed = ltb end.point.column start.point.column in
    let left : Anchor =
      if crossed
      then record { point = record start.point { column = end.point.column }; side = end.side }
      else start in
    let right : Anchor =
      if crossed
      then record { point = record end.point { column = start.point.column }; side = start.side }
      else end in
    let end' : Point =
      if same_side right.side Direction.left
        && (not (same_point left.point right.point) && ltb 0 right.point.column)
      then record right.point { column = right.point.column - 1 }
      else right.point in
    let start' : Point =
      if same_side left.side Direction.right && not (same_point left.point end')
      then record left.point { column = left.point.column + 1 }
      else left.point in
    if is_empty s then none else some (record { start = start'; end = end'; is_block = true })

-- The searches of the terminal's text.
pub record Search : Type 0 where
  pub bracket_search : Point → Option Point
  pub semantic_search_left : Point → Point
  pub semantic_search_right : Point → Point
  pub line_search_left : Point → Point
  pub line_search_right : Point → Point

module _ (search : Search) where
  unfoldable pub range_semantic : Point → Point → SelectionRange
  unfolding same_point
  range_semantic start end =
      let words : SelectionRange = record {
        start = search.semantic_search_left start;
        end = search.semantic_search_right end;
        is_block = false;
      } in
      if same_point start end
      then elim (search.bracket_search start) [
        | none ↦ words
        | some matching ↦
            if point_lt matching start
            then record { start = matching; end = end; is_block = false }
            else record { start = start; end = matching; is_block = false }
      ]
      else words

  unfoldable pub range_lines : Point → Point → SelectionRange
  range_lines start end = record {
    start = search.line_search_left start;
    end = search.line_search_right end;
    is_block = false;
  }

  unfoldable pub to_range : Selection → Dimensions → Option SelectionRange
  unfolding first last range_simple range_block range_semantic range_lines grid_clamp
  to_range s d =
      let clamp = λ (a : Anchor). record a { point = grid_clamp d Boundary.grid a.point } in
      let start : Anchor = clamp (first s) in
      let end : Anchor = clamp (last s) in
      if ltb_ℤ (last s).point.line (topmost_line d) then none else elim s.ty [
        | simple ↦ range_simple s start end d.columns
        | block ↦ range_block s start end
        | semantic ↦ some (range_semantic start.point end.point)
        | lines ↦ some (range_lines start.point end.point)
      ]
