-- ===== src/Term/Edited.antt =====
-- The handlers of alacritty_terminal/src/term/mod.rs that edit the cells of the cursor's line keep the screen
-- well-formed, and do not panic.
use alacritty_pro.Prelude.{
  ℕ, ◌+◌, ◌-◌, ◌≤◌, min, refl, arith, Option, none, some, >>=-step, ◌>>=◌, inl, inr, Bool-cases,
}
use alacritty_pro.Cell
use alacritty_pro.Cell.{Palette, cell_grid}
use alacritty_pro.Row.{fill_range}
use alacritty_pro.Row.Edit
use alacritty_pro.Term.{cursor_line, cursor_column, damage_row}
use alacritty_pro.Term.Lines.{keep_selection}
use alacritty_pro.Term.Edit.{insert_blank, delete_chars, erase_chars}
use alacritty_pro.Term.Write.{Screen, LineClearMode, edit_row, clear_line, cleared_columns}
use alacritty_pro.Term.Fed.{damage_row-Reported}
use alacritty_pro.Term.Feeding.{idle-Safe}
use alacritty_pro.Term.Written.Rows.{fill_range-Keeps, insert_blank-Keeps, delete_chars-Keeps}
use alacritty_pro.Term.Written.Pen.{edit_row-Penned, cursor-InRange}
use alacritty_pro.Term.Written.Cursor.{SafeScreen, ValidScreen}
use alacritty_pro.Term.Cursors.{edited-Safe, selected-IsValid}

module _ {Color : Type 0} (palette : Palette Color) (Link : Type 0) where
  pub insert_blank-Safe :
      (t : Screen palette Link) (count : ℕ)
      → ValidScreen palette Link t
      → SafeScreen palette Link (insert_blank palette Link t count)
  unfolding insert_blank
  insert_blank-Safe t count v =
      edited-Safe ⦃cell = cell_grid palette Link⦄ t 0 (t.grid.columns - 1) _ v (
        insert_blank-Keeps ⦃cell = cell_grid palette Link⦄ t.grid.columns (cursor_column t) count
          (Cell.from_color palette Link t.grid.cursor.template.bg) v.motion.column_in)

  pub delete_chars-Safe :
      (t : Screen palette Link) (count : ℕ)
      → ValidScreen palette Link t
      → SafeScreen palette Link (delete_chars palette Link t count)
  unfolding delete_chars
  delete_chars-Safe t count v =
      edited-Safe ⦃cell = cell_grid palette Link⦄ t 0 (t.grid.columns - 1) _ v (
        delete_chars-Keeps ⦃cell = cell_grid palette Link⦄ t.grid.columns (cursor_column t) count
          (Cell.from_color palette Link t.grid.cursor.template.bg) v.motion.column_in)

  pub erase_chars-Safe :
      (t : Screen palette Link) (count : ℕ)
      → ValidScreen palette Link t
      → SafeScreen palette Link (erase_chars palette Link t count)
  unfolding erase_chars Edit.erase_chars
  erase_chars-Safe t count v =
      let end = min (cursor_column t + count) t.grid.columns in
      edited-Safe ⦃cell = cell_grid palette Link⦄ t (cursor_column t) end _ v (
        fill_range-Keeps ⦃cell = cell_grid palette Link⦄ t.grid.columns (cursor_column t) end
          (Cell.from_color palette Link t.grid.cursor.template.bg)
          (omega (arith, v.motion.column_in)) (omega arith))

  -- The columns that `clear_line` clears are a range of the line.
  abbrev IsRange : ℕ → Option (ℕ × ℕ) → Type 0
  IsRange columns none = Unit
  IsRange columns (some (from, to)) = (from ≤ to) × (to ≤ columns)

  cleared_columns-IsRange :
      (mode : LineClearMode) (t : Screen palette Link)
      → ValidScreen palette Link t
      → IsRange t.grid.columns (cleared_columns palette Link mode t)
  unfolding cleared_columns
  cleared_columns-IsRange LineClearMode.right t v =
      elim (Bool-cases t.grid.cursor.input_needs_wrap) [
        | inl pending ↦ rw pending tt
        | inr free ↦ rw free (omega (arith, v.motion.column_in), omega arith)
      ]
  cleared_columns-IsRange LineClearMode.left t v = (omega arith, omega (arith, v.motion.column_in))
  cleared_columns-IsRange LineClearMode.all t v = (omega arith, omega arith)

  pub clear_line-Safe :
      (mode : LineClearMode) (t : Screen palette Link)
      → ValidScreen palette Link t
      → SafeScreen palette Link (clear_line palette Link mode t)
  unfolding clear_line
  clear_line-Safe mode t v =
      of_columns (cleared_columns palette Link mode t) (cleared_columns-IsRange mode t v)
    where
      of_columns :
          (m : Option (ℕ × ℕ))
          → IsRange t.grid.columns m
          → SafeScreen palette Link (elim m [
            | none ↦ some t
            | some (from, to) ↦ do
              t1 ← damage_row t (cursor_line t) from (to - 1)
              t2 ← edit_row t1 (cursor_line t1) (λ row.
                  fill_range row from to (Cell.from_color palette Link t.grid.cursor.template.bg))
              some (record t2 {
                selection = keep_selection t2 (some (cursor_line t)) (some (cursor_line t));
              })
          ])
      of_columns none h = idle-Safe ⦃cell = cell_grid palette Link⦄ t v
      of_columns (some (from, to)) h =
          let reported = damage_row-Reported ⦃cell = cell_grid palette Link⦄ t v from (to - 1) in
          let t1 = record t { damage = reported.damage } in
          let edited =
            edit_row-Penned ⦃cell = cell_grid palette Link⦄ t1 (cursor_line t) _ reported.valid
              (cursor-InRange ⦃cell = cell_grid palette Link⦄ t v)
              (fill_range-Keeps ⦃cell = cell_grid palette Link⦄ t.grid.columns from to
                (Cell.from_color palette Link t.grid.cursor.template.bg) h.0 h.1) in
          record {
            out = _;
            returns = >>=-step _ _ reported.returns (>>=-step _ _ edited.returns refl);
            valid = selected-IsValid ⦃cell = cell_grid palette Link⦄ _ _ edited.valid;
          }
