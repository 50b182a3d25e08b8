-- ===== src/Term/Written/Input.antt =====
-- `input` of alacritty_terminal/src/term/mod.rs keeps the screen well-formed, and does not panic.
use alacritty_pro.Prelude.{
  ℕ, ◌+◌, ◌-◌, ◌<◌, refl, arith, true, ◌&&◌, Option, none, some, if◌then◌else◌, >>=-step, ◌>>=◌,
  ltb, leb, ◌==◌, ltb→lt,
}
use alacritty_pro.Row.Occupied.{IsLawful}
use alacritty_pro.Cell.{Palette, cell_grid, space, push_zerowidth}
use alacritty_pro.Cell.Flags
use alacritty_pro.Cell.Flags.{contains, insert_flags}
use alacritty_pro.Term.{cursor_line, cursor_column}
use alacritty_pro.Term.Write.{
  Screen, insert_cells, write_at_cursor, input_wide, input_zero_width, make_room,
  input_wide_or_narrow, input, wrapline, wrap_next, advance,
}
use alacritty_pro.Term.Safe.{Safe-bind}
use alacritty_pro.Term.Feeding.{if-Safe, idle-Safe}
use alacritty_pro.Term.Written.Rows.{insert_cells-Keeps}
use alacritty_pro.Term.Written.Pen.{
  with_pen, update_cell-Penned, edit_row-Penned, read_cell-some, cursor-InRange,
}
use alacritty_pro.Term.Written.Cursor.{
  SafeScreen, ValidScreen, write_at_cursor-Penned, write_flagged-Penned, write_wide-Safe,
  wrap_flag-IsValid, advance-IsValid, and-right,
}
use alacritty_pro.Term.Written.Wrap.{either_in, Penned-Safe, wrapline-Wrapped, wrapline-Safe}

module _ {Color : Type 0} (palette : Palette Color) (Link : Type 0)
    (lawful : IsLawful (cell_grid palette Link)) where
  module _ (char_map : ℕ → ℕ) where
    input_wide-Safe :
        (t : Screen palette Link) (c : ℕ)
        → ValidScreen palette Link t
        → SafeScreen palette Link (input_wide palette Link char_map t c)
    unfolding input_wide
    input_wide-Safe t c v =
        if-Safe ⦃cell = cell_grid palette Link⦄ (leb t.grid.columns (cursor_column t + 1)) _ _
          (λ _.
            if-Safe ⦃cell = cell_grid palette Link⦄ t.line_wrap _ _
              (λ on.
                let placeholder =
                  write_flagged-Penned palette Link char_map t Flags.leading_wide_char_spacer space
                    v in
                let wrapped =
                  wrapline-Wrapped palette Link lawful (with_pen t placeholder.raw _)
                    placeholder.valid on in
                let written =
                  write_wide-Safe palette Link char_map wrapped.out c wrapped.valid
                    (omega (arith, wrapped.at_start, wrapped.valid.columns)) in
                record {
                  out = written.out;
                  returns =
                      >>=-step _ _ placeholder.returns
                        (>>=-step _ _ wrapped.returns written.returns);
                  valid = written.valid;
                })
              (λ _.
                idle-Safe ⦃cell = cell_grid palette Link⦄ (wrap_next t)
                  (wrap_flag-IsValid palette Link t true v)))
          (λ h. write_wide-Safe palette Link char_map t c v (ground arith))

    input_zero_width-Safe :
        (t : Screen palette Link) (c : ℕ)
        → ValidScreen palette Link t
        → SafeScreen palette Link (input_zero_width palette Link char_map t c)
    unfolding input_zero_width
    input_zero_width-Safe t c v =
        let here = cursor-InRange ⦃cell = cell_grid palette Link⦄ t v in
        let column =
          if t.grid.cursor.input_needs_wrap then cursor_column t else cursor_column t - 1 in
        let inside : column < t.grid.columns =
          either_in t.grid.cursor.input_needs_wrap _ _ _ v.motion.column_in
            (omega (arith, v.motion.column_in)) in
        let (cell, e) =
          read_cell-some ⦃cell = cell_grid palette Link⦄ t (cursor_line t) column v here inside in
        let target = if contains cell.flags Flags.wide_char_spacer then column - 1 else column in
        let written =
          update_cell-Penned ⦃cell = cell_grid palette Link⦄ t (cursor_line t) target
            (λ x. push_zerowidth x c) v here
            (either_in (contains cell.flags Flags.wide_char_spacer) _ _ _ (omega (arith, inside))
              inside) in
        record { out = _; returns = >>=-step _ _ e written.returns; valid = written.valid }

    make_room-Safe :
        (t : Screen palette Link) (width : ℕ)
        → ValidScreen palette Link t
        → SafeScreen palette Link (make_room palette Link char_map t width)
    unfolding make_room
    make_room-Safe t width v =
        if-Safe ⦃cell = cell_grid palette Link⦄
          (t.insert_mode && ltb (cursor_column t + width) t.grid.columns) _ (some t)
          (λ h.
            let room =
              ltb→lt (cursor_column t + width) t.grid.columns (and-right t.insert_mode _ h) in
            Penned-Safe ⦃cell = _⦄ t _ _ (
              edit_row-Penned ⦃cell = cell_grid palette Link⦄ t (cursor_line t)
                (insert_cells t.grid.columns width (cursor_column t)) v
                (cursor-InRange ⦃cell = _⦄ t v)
                (insert_cells-Keeps ⦃cell = cell_grid palette Link⦄ t.grid.columns width
                  (cursor_column t) (omega arith))))
          (λ _. idle-Safe ⦃cell = _⦄ t v)

    write_narrow-Safe :
        (t : Screen palette Link) (c : ℕ)
        → ValidScreen palette Link t
        → SafeScreen palette Link
            (write_at_cursor palette Link char_map t c >>= (λ t3. some (advance t3)))
    write_narrow-Safe t c v =
        let written = write_at_cursor-Penned palette Link char_map t c v in
        record {
          out = _;
          returns = >>=-step _ _ written.returns refl;
          valid = advance-IsValid palette Link _ written.valid;
        }

    input_wide_or_narrow-Safe :
        (t : Screen palette Link) (c width : ℕ)
        → ValidScreen palette Link t
        → SafeScreen palette Link (input_wide_or_narrow palette Link char_map t c width)
    unfolding input_wide_or_narrow
    input_wide_or_narrow-Safe t c width v =
        Safe-bind ⦃cell = cell_grid palette Link⦄ _ _
          (if-Safe ⦃cell = cell_grid palette Link⦄ t.grid.cursor.input_needs_wrap
            (wrapline palette Link t) (some t) (λ _. wrapline-Safe palette Link lawful t v)
            (λ _. idle-Safe ⦃cell = _⦄ t v))
          (λ t1 v1.
            Safe-bind ⦃cell = cell_grid palette Link⦄ _ _ (make_room-Safe t1 width v1) (λ t2 v2.
              if-Safe ⦃cell = cell_grid palette Link⦄ (width == 1) _ _
                (λ _. write_narrow-Safe t2 c v2) (λ _. input_wide-Safe t2 c v2)))

    -- On a well-formed screen whose cells keep the promises of the rows, any character, of any width or of
    -- none, can be written: `input` does not panic, and leaves a well-formed screen.
    pub input-Safe :
        (char_width : ℕ → Option ℕ) (t : Screen palette Link) (c : ℕ)
        → ValidScreen palette Link t
        → SafeScreen palette Link (input palette Link char_map char_width t c)
    unfolding input
    input-Safe char_width t c v = of_width (char_width c)
      where
        of_width :
            (w : Option ℕ)
            → SafeScreen palette Link (elim w [
              | none ↦ some t
              | some width ↦
                  if width == 0
                  then input_zero_width palette Link char_map t c
                  else input_wide_or_narrow palette Link char_map t c width
            ])
        of_width none = idle-Safe ⦃cell = cell_grid palette Link⦄ t v
        of_width (some width) =
            if-Safe ⦃cell = cell_grid palette Link⦄ (width == 0) _ _
              (λ _. input_zero_width-Safe t c v) (λ _. input_wide_or_narrow-Safe t c width v)
