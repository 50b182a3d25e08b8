-- ===== src/Term.antt =====
-- The cursor of the terminal: the motions of `Term` in alacritty_terminal/src/term/mod.rs that do
-- not read or write cells, and the conversions between points of the grid and of the viewport.
-- A panic is the result `none`.
pub mod Motion
pub mod Along
pub mod Edit
pub mod Scrolling
pub mod Lines
pub mod Safe
pub mod Fed
pub mod Feeding
pub mod Write
pub mod Written
pub mod Columns
pub mod Cursors
pub mod Edited
pub mod Modes
pub mod Settings
pub mod Machine
pub mod Blanks
pub mod Viewport
mod Tests
use package.alacritty_pro.Prelude.{
  ℕ, zero, suc, ◌+◌, ◌-◌, min, max, Bool, true, false, Option, none, some, ltb, leb, if◌then◌else◌,
  ◌>>=◌,
}
use package.alacritty_pro.Prelude.Int.{ℤ, pos, negsuc, ◌+ℤ◌, min_ℤ, max_ℤ, sub_ℕ}
use package.alacritty_pro.Index
use package.alacritty_pro.Index.{Point, add_line, sub_line}
use package.alacritty_pro.Grid.Defs.{Grid, Cursor, Region, dimensions}
use package.alacritty_pro.Tabs.{TabStops}
use package.alacritty_pro.Selection.{Selection}
use package.alacritty_pro.Damage.{TermDamageState, damage_line, damage_point}

-- The state of the screen that the handlers read and change. The flags of the mode are fields:
-- `ORIGIN`, `LINE_WRAP`, `INSERT` and `LINE_FEED_NEW_LINE`.
pub record Term (T : Type 0) : Type 0 where
  pub grid : Grid T
  pub damage : TermDamageState
  pub origin_mode : Bool
  pub line_wrap : Bool
  pub insert_mode : Bool
  pub line_feed_new_line : Bool
  pub scroll_region : Region
  pub tabs : TabStops
  pub selection : Option Selection
  pub vi_mode_cursor : Point

-- `line.0 as usize`: the number that a negative line gives is no index of any table.
abbrev pub screen_row : ℤ → Option ℕ
screen_row (pos n) = some n
screen_row (negsuc n) = none

abbrev pub unwrap_or : Option ℕ → ℕ → ℕ
unwrap_or none d = d
unwrap_or (some n) d = n

-- A line of the grid in the viewport, if it is not above it, and the reverse.
unfoldable pub point_to_viewport : ℕ → Point → Option (ℕ × ℕ)
point_to_viewport display_offset p =
    screen_row (p.line +ℤ pos display_offset) >>= (λ line. some (line, p.column))

unfoldable pub viewport_to_point : ℕ → ℕ → ℕ → Point
viewport_to_point display_offset line column = record {
  line = sub_line (pos line) display_offset;
  column = column;
}

module _ {T : Type 0} where
  -- Assignments to the position of the cursor, and to its flag.
  abbrev pub place : Term T → Point → Term T
  place t p = record t { grid = record t.grid { cursor = record t.grid.cursor { point = p } } }

  abbrev pub no_wrap : Term T → Term T
  no_wrap t = record t {
    grid = record t.grid { cursor = record t.grid.cursor { input_needs_wrap = false } };
  }

  abbrev pub cursor_line : Term T → ℤ
  cursor_line t = t.grid.cursor.point.line

  abbrev pub cursor_column : Term T → ℕ
  cursor_column t = t.grid.cursor.point.column

  unfoldable pub damage_row : Term T → ℤ → ℕ → ℕ → Option (Term T)
  unfolding damage_line
  damage_row t line left right = do
    row ← screen_row line
    damage ← damage_line t.damage row left right
    some (record t { damage = damage })

  unfoldable pub damage_cursor : Term T → Option (Term T)
  unfolding damage_point
  damage_cursor t = do
    row ← screen_row (cursor_line t)
    damage ← damage_point t.damage row (cursor_column t)
    some (record t { damage = damage })

  -- The line that `goto` ends at.
  unfoldable pub goto_target : Term T → ℤ → ℤ
  goto_target t line =
      let y_offset = if t.origin_mode then t.scroll_region.start else pos 0 in
      let max_y =
        if t.origin_mode
        then sub_line t.scroll_region.end 1
        else Index.bottommost_line (dimensions t.grid) in
      max_ℤ (min_ℤ (line +ℤ y_offset) max_y) (pos 0)

  unfoldable pub goto : Term T → ℤ → ℕ → Option (Term T)
  unfolding damage_cursor goto_target
  goto t line col = do
    t1 ← damage_cursor t
    t2 ← damage_cursor (
        place t1 (record {
          line = goto_target t1 line;
          column = min col (Index.last_column (dimensions t1.grid));
        }))
    some (no_wrap t2)

  unfoldable pub goto_line : Term T → ℤ → Option (Term T)
  unfolding goto
  goto_line t line = goto t line (cursor_column t)

  unfoldable pub goto_col : Term T → ℕ → Option (Term T)
  unfolding goto
  goto_col t col = goto t (cursor_line t) col

  unfoldable pub move_up : Term T → ℕ → Option (Term T)
  unfolding goto
  move_up t lines = goto t (sub_line (cursor_line t) lines) (cursor_column t)

  unfoldable pub move_down : Term T → ℕ → Option (Term T)
  unfolding goto
  move_down t lines = goto t (add_line (cursor_line t) lines) (cursor_column t)

  unfoldable pub move_down_and_cr : Term T → ℕ → Option (Term T)
  unfolding goto
  move_down_and_cr t lines = goto t (add_line (cursor_line t) lines) 0

  unfoldable pub move_up_and_cr : Term T → ℕ → Option (Term T)
  unfolding goto
  move_up_and_cr t lines = goto t (sub_line (cursor_line t) lines) 0

  abbrev set_column : Term T → ℕ → Term T
  set_column t column = no_wrap (place t (record { line = cursor_line t; column = column }))

  unfoldable pub move_forward : Term T → ℕ → Option (Term T)
  unfolding damage_row
  move_forward t cols =
      let last = min (cursor_column t + cols) (Index.last_column (dimensions t.grid)) in
      damage_row t (cursor_line t) (cursor_column t) last >>= (λ t'. some (set_column t' last))

  unfoldable pub move_backward : Term T → ℕ → Option (Term T)
  unfolding damage_row
  move_backward t cols =
      let column = cursor_column t - cols in
      damage_row t (cursor_line t) column (cursor_column t) >>= (λ t'. some (set_column t' column))

  unfoldable pub carriage_return : Term T → Option (Term T)
  unfolding damage_row
  carriage_return t =
      damage_row t (cursor_line t) 0 (cursor_column t) >>= (λ t'. some (set_column t' 0))

  unfoldable pub backspace : Term T → Option (Term T)
  unfolding damage_row
  backspace t =
      if ltb 0 (cursor_column t)
      then damage_row (set_column t (cursor_column t - 1)) (cursor_line t) (cursor_column t - 1)
          (cursor_column t)
      else some t

  -- The lines are those of the terminal's protocol, from 1.
  unfoldable pub set_scrolling_region : Term T → ℕ → Option ℕ → Option (Term T)
  unfolding goto
  set_scrolling_region t top bottom =
      let lines = t.grid.lines in
      let last = unwrap_or bottom lines in
      let region : Region = record {
        start = min_ℤ (sub_ℕ top 1) (pos lines);
        end = min_ℤ (pos last) (pos lines);
      } in
      let homed = goto (record t { scroll_region = region }) (pos 0) 0 in
      if leb last top then some t else homed

  unfoldable pub save_cursor_position : Term T → Term T
  save_cursor_position t = record t { grid = record t.grid { saved_cursor = t.grid.cursor } }

  unfoldable pub restore_cursor_position : Term T → Option (Term T)
  unfolding damage_cursor
  restore_cursor_position t = do
    t1 ← damage_cursor t
    damage_cursor (record t1 { grid = record t1.grid { cursor = t1.grid.saved_cursor } })
