-- ===== src/Term/Written/Cursor.antt =====
-- Writing at the cursor keeps the screen well-formed, and does not panic.
use alacritty_pro.Prelude.{
  ℕ, ◌+◌, ◌-◌, ◌<◌, ◌≡◌, refl, arith, Bool, true, false, ◌&&◌, not, Option, some, >>=-step, ltb,
  leb, inl, inr, Bool-cases, ltb→lt,
}
use alacritty_pro.Prelude.Int.{eq_ℤ}
use alacritty_pro.Index
use alacritty_pro.Index.{sub_line}
use alacritty_pro.Cell
use alacritty_pro.Cell.{Palette, cell_grid, clear_wide, space}
use alacritty_pro.Cell.Flags
use alacritty_pro.Cell.Flags.{contains, intersects, remove_flags, insert_flags}
use alacritty_pro.Grid.Defs.{dimensions}
use alacritty_pro.Term.{cursor_line, cursor_column}
use alacritty_pro.Term.Write.{
  Screen, update_cell, clear_half, clear_leading, clear_related, drop_flag, write_at_cursor,
  write_flagged, write_wide, advance, move_to_column,
}
use alacritty_pro.Term.Safe.{IsValid, Safe}
use alacritty_pro.Term.Fed.{recursored, placed-IsValid}
use alacritty_pro.Term.Written.Pen.{
  with_pen, Penned, penned-IsValid, update_cell-Penned, unchanged-Penned, if-Penned, Penned-bind,
  read_cell-some, cursor-InRange, above-InRange,
}

and-left : (a b : Bool) → (a && b) ≡ true → a ≡ true
and-left true b h = refl
and-left false b h = cc

pub and-right : (a b : Bool) → (a && b) ≡ true → b ≡ true
and-right true b h = h
and-right false b h = cc

not-true : (b : Bool) → not b ≡ true → b ≡ false
not-true true h = cc
not-true false h = refl

after : (column columns : ℕ) → ltb column (columns - 1) ≡ true → column + 1 < columns
after column columns h = ground arith

module _ {Color : Type 0} (palette : Palette Color) (Link : Type 0) where
  abbrev pub SafeScreen : Option (Screen palette Link) → Type 0
  SafeScreen m = Safe {T = Cell.Cell Color Link} ⦃cell = cell_grid palette Link⦄ m

  abbrev pub ValidScreen : Screen palette Link → Type 0
  ValidScreen t = IsValid {T = Cell.Cell Color Link} ⦃cell = cell_grid palette Link⦄ t

  abbrev pub PennedScreen :
      (t : Screen palette Link) → Cell.Cell Color Link → Option (Screen palette Link) → Type 0
  PennedScreen t template m =
      Penned {T = Cell.Cell Color Link} ⦃cell = cell_grid palette Link⦄ t template m

  -- A template with other flags.
  abbrev flagged : (ℕ → ℕ) → Cell.Cell Color Link → Cell.Cell Color Link
  flagged f template = record template { flags = f template.flags }

  clear_half-Penned :
      (t : Screen palette Link) (flags : ℕ)
      → ValidScreen t
      → PennedScreen t t.grid.cursor.template (clear_half palette Link t flags)
  unfolding clear_half
  clear_half-Penned t flags v =
      let here = cursor-InRange ⦃cell = _⦄ t v in
      let last = t.grid.columns - 1 in
      if-Penned ⦃cell = _⦄ t t.grid.cursor.template
        (contains flags Flags.wide_char && ltb (cursor_column t) last) _ _
        (λ h.
          update_cell-Penned ⦃cell = _⦄ t (cursor_line t) (cursor_column t + 1)
            (drop_flag palette Link Flags.wide_char_spacer) v here
            (after (cursor_column t) t.grid.columns
              (and-right (contains flags Flags.wide_char) (ltb (cursor_column t) last) h)))
        (λ _.
          if-Penned ⦃cell = _⦄ t t.grid.cursor.template _ _ (some t)
            (λ _.
              update_cell-Penned ⦃cell = _⦄ t (cursor_line t) (cursor_column t - 1) clear_wide v
                here (omega (arith, v.motion.column_in)))
            (λ _. unchanged-Penned ⦃cell = _⦄ t v))

  clear_leading-Penned :
      (t : Screen palette Link)
      → ValidScreen t
      → PennedScreen t t.grid.cursor.template (clear_leading palette Link t)
  unfolding clear_leading
  clear_leading-Penned t v =
      let top = Index.topmost_line (dimensions t.grid) in
      if-Penned ⦃cell = _⦄ t t.grid.cursor.template
        (leb (cursor_column t) 1 && not (eq_ℤ (cursor_line t) top)) _ _
        (λ h.
          update_cell-Penned ⦃cell = _⦄ t (sub_line (cursor_line t) 1) (t.grid.columns - 1)
            (drop_flag palette Link Flags.leading_wide_char_spacer) v
            (above-InRange ⦃cell = _⦄ t v
              (not-true (eq_ℤ (cursor_line t) top) (and-right (leb (cursor_column t) 1) _ h)))
            (omega (arith, v.columns)))
        (λ _. unchanged-Penned ⦃cell = _⦄ t v)

  clear_related-Penned :
      (t : Screen palette Link) (flags : ℕ)
      → ValidScreen t
      → PennedScreen t t.grid.cursor.template (clear_related palette Link t flags)
  unfolding clear_related
  clear_related-Penned t flags v =
      let template = t.grid.cursor.template in
      if-Penned ⦃cell = _⦄ t template _ _ (some t)
        (λ _.
          Penned-bind ⦃cell = _⦄ t template template (clear_half palette Link t flags)
            (clear_leading palette Link) (clear_half-Penned t flags v)
            (λ raw w. clear_leading-Penned (with_pen t raw template) w))
        (λ _. unchanged-Penned ⦃cell = _⦄ t v)

  module _ (char_map : ℕ → ℕ) where
    -- The cell at the cursor takes the character and the attributes of the template.
    pub write_at_cursor-Penned :
        (t : Screen palette Link) (c : ℕ)
        → ValidScreen t
        → PennedScreen t t.grid.cursor.template (write_at_cursor palette Link char_map t c)
    unfolding write_at_cursor
    write_at_cursor-Penned t c v =
        let template = t.grid.cursor.template in
        let (old, e) =
          read_cell-some ⦃cell = _⦄ t (cursor_line t) (cursor_column t) v
            (cursor-InRange ⦃cell = _⦄ t v) v.motion.column_in in
        let written =
          Penned-bind ⦃cell = cell_grid palette Link⦄ t template template
            (clear_related palette Link t old.flags)
            (λ t'.
              update_cell t' (cursor_line t) (cursor_column t)
                (λ _. record template { c = char_map c }))
            (clear_related-Penned t old.flags v)
            (λ raw w.
              update_cell-Penned ⦃cell = _⦄ (with_pen t raw template) (cursor_line t)
                (cursor_column t) (λ _. record template { c = char_map c }) w
                (cursor-InRange ⦃cell = _⦄ (with_pen t raw template) w) w.motion.column_in) in
        record {
          raw = written.raw;
          returns = >>=-step _ _ e written.returns;
          valid = written.valid;
        }

    -- The same with a flag of its own.
    pub write_flagged-Penned :
        (t : Screen palette Link) (flag c : ℕ)
        → ValidScreen t
        → PennedScreen t
            (flagged
              (λ f. remove_flags f flag)
              (flagged (λ f. insert_flags f flag) t.grid.cursor.template))
            (write_flagged palette Link char_map t flag c)
    unfolding write_flagged
    write_flagged-Penned t flag c v =
        let inserted = flagged (λ f. insert_flags f flag) t.grid.cursor.template in
        let written =
          write_at_cursor-Penned (with_pen t t.grid.raw inserted) c
            (penned-IsValid ⦃cell = _⦄ t t.grid.raw inserted v v.grid) in
        record {
          raw = written.raw;
          returns = >>=-step _ _ written.returns refl;
          valid =
              penned-IsValid ⦃cell = _⦄ t written.raw (flagged (λ f. remove_flags f flag) inserted)
                v
                (recursored ⦃cell = _⦄ (with_pen t written.raw inserted).grid t.grid.cursor
                  written.valid.grid);
        }

  -- Another column of the line of the cursor.
  pub at_column-IsValid :
      (t : Screen palette Link) (column : ℕ)
      → ValidScreen t
      → column < t.grid.columns
      → ValidScreen (move_to_column t column)
  at_column-IsValid t column v h =
      placed-IsValid ⦃cell = _⦄ t t.damage
        (record t.grid.cursor { point = record { line = cursor_line t; column = column } })
        v.motion.row v v.motion.damage refl v.motion.at_row v.motion.row_in h

  pub wrap_flag-IsValid :
      (t : Screen palette Link) (b : Bool)
      → ValidScreen t
      → ValidScreen (record t {
        grid = record t.grid { cursor = record t.grid.cursor { input_needs_wrap = b } };
      })
  wrap_flag-IsValid t b v =
      placed-IsValid ⦃cell = _⦄ t t.damage (record t.grid.cursor { input_needs_wrap = b })
        v.motion.row v v.motion.damage refl v.motion.at_row v.motion.row_in v.motion.column_in

  pub advance-IsValid : (t : Screen palette Link) → ValidScreen t → ValidScreen (advance t)
  unfolding advance
  advance-IsValid t v = elim (Bool-cases (ltb (cursor_column t + 1) t.grid.columns)) [
    | inl room ↦ rw room (at_column-IsValid t (cursor_column t + 1) v (ltb→lt _ _ room))
    | inr full ↦ rw full (wrap_flag-IsValid t true v)
  ]

  pub write_wide-Safe :
      (char_map : ℕ → ℕ) (t : Screen palette Link) (c : ℕ)
      → ValidScreen t
      → cursor_column t + 1 < t.grid.columns
      → SafeScreen (write_wide palette Link char_map t c)
  unfolding write_wide
  write_wide-Safe char_map t c v h =
      let glyph = write_flagged-Penned char_map t Flags.wide_char c v in
      let t1 = with_pen t glyph.raw _ in
      let moved = at_column-IsValid t1 (cursor_column t + 1) glyph.valid h in
      let spacer =
        write_flagged-Penned char_map (move_to_column t1 (cursor_column t + 1))
          Flags.wide_char_spacer space moved in
      record {
        out = advance (with_pen (move_to_column t1 (cursor_column t + 1)) spacer.raw _);
        returns = >>=-step _ _ glyph.returns (>>=-step _ _ spacer.returns refl);
        valid = advance-IsValid _ spacer.valid;
      }
