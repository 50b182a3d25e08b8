-- ===== src/Term/Write.antt =====
-- The handlers of `Term` in alacritty_terminal/src/term/mod.rs that write characters: `wrapline`,
-- `write_at_cursor` and `input`, and `clear_line`. The width of a character, of the crate
-- `unicode_width`, and the mapping by the active character set, of the crate `vte`, are parameters.
use Prim.Native.Nat.{bit_or}
use alacritty_pro.Prelude.{
  ℕ, ◌+◌, ◌-◌, true, ◌&&◌, not, Option, none, some, leb, ltb, ◌==◌, if◌then◌else◌, ◌>>=◌,
}
use alacritty_pro.Prelude.Int.{ℤ, leb_ℤ, eq_ℤ}
use alacritty_pro.Index
use alacritty_pro.Index.{add_line, sub_line}
use alacritty_pro.Cell
use alacritty_pro.Cell.{Palette, space, cell_grid, push_zerowidth, clear_wide}
use alacritty_pro.Cell.Flags
use alacritty_pro.Cell.Flags.{contains, intersects, insert_flags, remove_flags}
use alacritty_pro.Row
use alacritty_pro.Row.{Row, GridCell, full_slice, fill_range}
use alacritty_pro.Row.Edit.{shift_right}
use alacritty_pro.Storage
use alacritty_pro.Grid.Defs.{dimensions}
use alacritty_pro.Term.{Term, place, no_wrap, cursor_line, cursor_column, damage_cursor, damage_row}
use alacritty_pro.Term.Lines.{linefeed, keep_selection}

pub data LineClearMode : Type 0 where
  right left all : LineClearMode

module _ {T : Type 0} where
  -- An edit of the row of a line.
  unfoldable pub edit_row : Term T → ℤ → (Row T → Option (Row T)) → Option (Term T)
  unfolding Storage.update
  edit_row t line f = do
    raw ← Storage.update t.grid.raw line f
    some (record t { grid = record t.grid { raw = raw } })

  -- A change of one cell, through the mutable reference to it.
  unfoldable pub edit_cell : ℕ → (T → T) → Row T → Option (Row T)
  unfolding Row.index Row.write
  edit_cell column f row = do c ← Row.index row column; Row.write row column (f c)

  unfoldable pub update_cell : Term T → ℤ → ℕ → (T → T) → Option (Term T)
  unfolding edit_row edit_cell
  update_cell t line column f = edit_row t line (edit_cell column f)

  unfoldable pub read_cell : Term T → ℤ → ℕ → Option T
  unfolding Storage.index Row.index
  read_cell t line column = do row ← Storage.index t.grid.raw line; Row.index row column

  -- The cells from the column on, moved `width` columns to the right.
  unfoldable pub insert_cells : ℕ → ℕ → ℕ → Row T → Option (Row T)
  unfolding shift_right full_slice
  insert_cells columns width column row = do
    cells ← shift_right (columns - width - column) (column + width) column row.inner
    some (record (full_slice row) { inner = cells })

  abbrev pub move_to_column : Term T → ℕ → Term T
  move_to_column t column = place t (record { line = cursor_line t; column = column })

  abbrev pub wrap_next : Term T → Term T
  wrap_next t = record t {
    grid = record t.grid { cursor = record t.grid.cursor { input_needs_wrap = true } };
  }

  -- To the next column, or to a pending wrap at the last one.
  unfoldable pub advance : Term T → Term T
  advance t =
      if ltb (cursor_column t + 1) t.grid.columns
      then move_to_column t (cursor_column t + 1)
      else wrap_next t

module _ {Color : Type 0} (palette : Palette Color) (Link : Type 0) where
  abbrev pub Screen : Type 0
  Screen = Term (Cell.Cell Color Link)

  -- The flags of the cursor's template, changed.
  abbrev pub template_flags : (ℕ → ℕ) → Screen → Screen
  template_flags f t = record t {
    grid = record t.grid {
      cursor = record t.grid.cursor {
        template = record t.grid.cursor.template { flags = f t.grid.cursor.template.flags };
      };
    };
  }

  unfoldable pub wrapline : Screen → Option Screen
  unfolding update_cell linefeed damage_cursor insert_flags
  wrapline t =
      let wrapped = (do
        t1 ←
            update_cell t (cursor_line t) (cursor_column t)
              (λ c. record c { flags = insert_flags c.flags Flags.wrapline })
        t2 ←
            if leb_ℤ t1.scroll_region.end (add_line (cursor_line t1) 1)
            then linefeed ⦃cell = cell_grid palette Link⦄ t1
            else damage_cursor t1 >>= (λ d.
              some
                (place d (record { line = add_line (cursor_line d) 1; column = cursor_column d })))
        damage_cursor (no_wrap (move_to_column t2 0))) in
      if t.line_wrap then wrapped else some t

  abbrev pub drop_flag : ℕ → Cell.Cell Color Link → Cell.Cell Color Link
  drop_flag flag c = record c { flags = remove_flags c.flags flag }

  -- The other half of a wide character, next to the cursor.
  unfoldable pub clear_half : Screen → ℕ → Option Screen
  unfolding update_cell contains remove_flags clear_wide
  clear_half t flags =
      let column = cursor_column t in
      let behind = update_cell t (cursor_line t) (column + 1) (drop_flag Flags.wide_char_spacer) in
      let in_front = update_cell t (cursor_line t) (column - 1) clear_wide in
      if contains flags Flags.wide_char && ltb column (Index.last_column (dimensions t.grid))
      then behind
      else if ltb 0 column
      then in_front
      else some t

  -- The placeholder at the end of the line above.
  unfoldable pub clear_leading : Screen → Option Screen
  unfolding update_cell remove_flags
  clear_leading t =
      let cleared =
        update_cell t (sub_line (cursor_line t) 1) (Index.last_column (dimensions t.grid))
          (drop_flag Flags.leading_wide_char_spacer) in
      if leb (cursor_column t) 1
        && not (eq_ℤ (cursor_line t) (Index.topmost_line (dimensions t.grid)))
      then cleared
      else some t

  -- The other cells of a wide character that the cursor's cell belongs to.
  unfoldable pub clear_related : Screen → ℕ → Option Screen
  unfolding clear_half clear_leading intersects
  clear_related t flags =
      let related = clear_half t flags >>= clear_leading in
      if intersects flags (bit_or Flags.wide_char Flags.wide_char_spacer) then related else some t

  module _ (char_map : ℕ → ℕ) where
    unfoldable pub write_at_cursor : Screen → ℕ → Option Screen
    unfolding read_cell clear_related update_cell
    write_at_cursor t c = do
      old ← read_cell t (cursor_line t) (cursor_column t)
      t' ← clear_related t old.flags
      update_cell t' (cursor_line t) (cursor_column t)
          (λ _. record t.grid.cursor.template { c = char_map c })

    -- A character written with a flag of its own.
    unfoldable pub write_flagged : Screen → ℕ → ℕ → Option Screen
    unfolding write_at_cursor insert_flags remove_flags
    write_flagged t flag c = do
      t' ← write_at_cursor (template_flags (λ f. insert_flags f flag) t) c
      some (template_flags (λ f. remove_flags f flag) t')

    unfoldable pub write_wide : Screen → ℕ → Option Screen
    unfolding write_flagged advance
    write_wide t c = do
      t1 ← write_flagged t Flags.wide_char c
      t2 ← write_flagged (move_to_column t1 (cursor_column t1 + 1)) Flags.wide_char_spacer space
      some (advance t2)

    unfoldable pub input_wide : Screen → ℕ → Option Screen
    unfolding write_wide wrapline write_flagged
    input_wide t c =
        let wrapped = (do
          t1 ← write_flagged t Flags.leading_wide_char_spacer space
          t2 ← wrapline t1
          write_wide t2 c) in
        let written = write_wide t c in
        if leb t.grid.columns (cursor_column t + 1)
        then (if t.line_wrap then wrapped else some (wrap_next t))
        else written

    unfoldable pub input_zero_width : Screen → ℕ → Option Screen
    unfolding read_cell contains update_cell push_zerowidth
    input_zero_width t c = do
      let column = if t.grid.cursor.input_needs_wrap then cursor_column t else cursor_column t - 1
      cell ← read_cell t (cursor_line t) column
      let target = if contains cell.flags Flags.wide_char_spacer then column - 1 else column
      update_cell t (cursor_line t) target (λ x. push_zerowidth x c)

    -- The insert mode, in front of writing.
    unfoldable pub make_room : Screen → ℕ → Option Screen
    unfolding edit_row insert_cells
    make_room t width =
        let shifted =
          edit_row t (cursor_line t) (insert_cells t.grid.columns width (cursor_column t)) in
        if t.insert_mode && ltb (cursor_column t + width) t.grid.columns then shifted else some t

    unfoldable pub input_wide_or_narrow : Screen → ℕ → ℕ → Option Screen
    unfolding write_at_cursor input_wide make_room wrapline advance
    input_wide_or_narrow t c width = do
      t1 ← if t.grid.cursor.input_needs_wrap then wrapline t else some t
      t2 ← make_room t1 width
      if width == 1 then write_at_cursor t2 c >>= (λ t3. some (advance t3)) else input_wide t2 c

    unfoldable pub input : (ℕ → Option ℕ) → Screen → ℕ → Option Screen
    unfolding input_zero_width input_wide_or_narrow
    input char_width t c = elim (char_width c) [
      | none ↦ some t
      | some width ↦ if width == 0 then input_zero_width t c else input_wide_or_narrow t c width
    ]

  -- The columns that `clear_line` clears, none where a pending wrap leaves nothing to clear.
  unfoldable pub cleared_columns : LineClearMode → Screen → Option (ℕ × ℕ)
  cleared_columns LineClearMode.right t =
      if t.grid.cursor.input_needs_wrap then none else some (cursor_column t, t.grid.columns)
  cleared_columns LineClearMode.left t = some (0, cursor_column t + 1)
  cleared_columns LineClearMode.all t = some (0, t.grid.columns)

  unfoldable pub clear_line : LineClearMode → Screen → Option Screen
  unfolding cleared_columns damage_row edit_row fill_range keep_selection
  clear_line mode t = elim (cleared_columns mode t) [
    | none ↦ some t
    | some (from, to) ↦ do
      t1 ← damage_row t (cursor_line t) from (to - 1)
      t2 ←
          edit_row t1 (cursor_line t1)
            (λ row. fill_range row from to (Cell.from_color palette Link t.grid.cursor.template.bg))
      some (record t2 {
        selection = keep_selection t2 (some (cursor_line t)) (some (cursor_line t));
      })
  ]
