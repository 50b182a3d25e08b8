-- ===== src/Term/Edit.antt =====
-- The handlers of `Term` in alacritty_terminal/src/term/mod.rs that edit the line of the cursor, or move
-- the cursor by tabs, with the damage that they report. The tab stops are an argument.
use alacritty_pro.Prelude.{ℕ, ◌+◌, ◌-◌, min, Option, some, ◌>>=◌}
use alacritty_pro.Cell
use alacritty_pro.Cell.{Palette}
use alacritty_pro.Row.{Row}
use alacritty_pro.Row.Edit
use alacritty_pro.Storage
use alacritty_pro.Tabs
use alacritty_pro.Tabs.{TabStops}
use alacritty_pro.Term.{Term, cursor_line, cursor_column, damage_row, place}

module _ {T : Type 0} where
  -- An edit of the row of the cursor.
  unfoldable pub edit_line : Term T → (Row T → Option (Row T)) → Option (Term T)
  unfolding Storage.update
  edit_line t f = do
    raw ← Storage.update t.grid.raw (cursor_line t) f
    some (record t { grid = record t.grid { raw = raw } })

  unfoldable pub move_backward_tabs : TabStops → Term T → ℕ → Option (Term T)
  unfolding Tabs.backward_tabs damage_row
  move_backward_tabs tabs t count = do
    col ← Tabs.backward_tabs tabs count (cursor_column t)
    damage_row (place t (record { line = cursor_line t; column = col })) (cursor_line t) col
        (cursor_column t)

  unfoldable pub move_forward_tabs : TabStops → Term T → ℕ → Option (Term T)
  unfolding Tabs.forward_tabs damage_row
  move_forward_tabs tabs t count = do
    col ← Tabs.forward_tabs tabs t.grid.columns count (cursor_column t)
    damage_row (place t (record { line = cursor_line t; column = col })) (cursor_line t)
        (cursor_column t) col

module _ {Color : Type 0} (palette : Palette Color) (Link : Type 0) where
  -- `bg.into()`, of the background of the cursor's template.
  abbrev background_cell : Term (Cell.Cell Color Link) → Cell.Cell Color Link
  background_cell t = Cell.from_color palette Link t.grid.cursor.template.bg

  unfoldable pub insert_blank :
      Term (Cell.Cell Color Link) → ℕ → Option (Term (Cell.Cell Color Link))
  unfolding damage_row edit_line Edit.insert_blank
  insert_blank t count = do
    t' ← damage_row t (cursor_line t) 0 (t.grid.columns - 1)
    edit_line t' (Edit.insert_blank t.grid.columns (background_cell t) (cursor_column t) count)

  unfoldable pub erase_chars :
      Term (Cell.Cell Color Link) → ℕ → Option (Term (Cell.Cell Color Link))
  unfolding damage_row edit_line Edit.erase_chars
  erase_chars t count = do
    t' ←
        damage_row t (cursor_line t) (cursor_column t)
          (min (cursor_column t + count) t.grid.columns)
    edit_line t' (Edit.erase_chars t.grid.columns (background_cell t) (cursor_column t) count)

  unfoldable pub delete_chars :
      Term (Cell.Cell Color Link) → ℕ → Option (Term (Cell.Cell Color Link))
  unfolding damage_row edit_line Edit.delete_chars
  delete_chars t count = do
    t' ← damage_row t (cursor_line t) 0 (t.grid.columns - 1)
    edit_line t' (Edit.delete_chars t.grid.columns (background_cell t) (cursor_column t) count)
