-- ===== src/Term/Written/Narrow.antt =====
-- What writing a character of one column (`input` of alacritty_terminal/src/term/mod.rs) does to the cells.
use Prim.Native.Nat.{bit_or}
use alacritty_pro.Prelude.{
  if-off, ℕ, ◌+◌, ◌<◌, ◌≡◌, ◌≢◌, ◌⊎◌, refl, sym, ◌∙◌, ap, arith, true, false, ◌&&◌, Option, none,
  some, if◌then◌else◌, >>=-step, ltb, ◌==◌, inl, inr, Bool-cases, lt→ltb,
}
use mathlib.Core.Path.{subst}
use alacritty_pro.Prelude.Int.{ℤ}
use alacritty_pro.Cell
use alacritty_pro.Cell.{Palette, cell_grid}
use alacritty_pro.Cell.Flags
use alacritty_pro.Cell.Flags.{intersects}
use alacritty_pro.Storage.Access.{InRange, position}
use alacritty_pro.Term.{Term, cursor_line, cursor_column}
use alacritty_pro.Term.Write.{
  Screen, read_cell, clear_related, write_at_cursor, advance, make_room, input_zero_width,
  input_wide_or_narrow, input,
}
use alacritty_pro.Term.Written.Cursor.{ValidScreen}
use alacritty_pro.Term.Written.Pen.{cursor-InRange}
use alacritty_pro.Term.Written.Overwrite.{with_rows, Overwritten, overwrite}

module _ {T : Type 0} where
  advance-read_cell : (t : Term T) (l : ℤ) (k : ℕ) → read_cell (advance t) l k ≡ read_cell t l k
  unfolding advance read_cell
  advance-read_cell t l k = elim (Bool-cases (ltb (cursor_column t + 1) t.grid.columns)) [
    | inl room ↦ rw room refl
    | inr full ↦ rw full refl
  ]

  advance-next :
      (t : Term T)
      → cursor_column t + 1 < t.grid.columns
      → (cursor_line (advance t) ≡ cursor_line t)
        × (cursor_column (advance t) ≡ cursor_column t + 1)
  unfolding advance
  advance-next t h = rw (lt→ltb (cursor_column t + 1) t.grid.columns h) (refl, refl)

  advance-pending :
      (t : Term T)
      → cursor_column t + 1 ≡ t.grid.columns
      → (cursor_line (advance t) ≡ cursor_line t)
        × (cursor_column (advance t) ≡ cursor_column t)
        × ((advance t).grid.cursor.input_needs_wrap ≡ true)
  unfolding advance
  advance-pending t h =
      let full : ltb (cursor_column t + 1) t.grid.columns ≡ false = ground arith in
      rw full (refl, refl, refl)

module _ {Color : Type 0} (palette : Palette Color) (Link : Type 0) (char_map : ℕ → ℕ)
    (char_width : ℕ → Option ℕ) where
  -- A character of one column is written: the cell at the cursor holds it, with the attributes of the
  -- cursor's template, every other cell of the buffer is as before, and the cursor goes to the next column,
  -- or stays at the last one with a wrap pending.
  pub record Typed (t : Screen palette Link) (c : ℕ) (m : Option (Screen palette Link))
      : Type 0 where
    pub out : Screen palette Link
    pub returns : m ≡ some out
    pub here :
        read_cell out (cursor_line t) (cursor_column t)
        ≡ some (record t.grid.cursor.template { c = char_map c })
    pub elsewhere :
        (l : ℤ) (k : ℕ)
        → InRange t.grid.raw l
        → (position t.grid.raw l ≢ position t.grid.raw (cursor_line t)) ⊎ (k ≢ cursor_column t)
        → read_cell out l k ≡ read_cell t l k
    pub next :
        cursor_column t + 1 < t.grid.columns
        → (cursor_line out ≡ cursor_line t) × (cursor_column out ≡ cursor_column t + 1)
    pub pending :
        cursor_column t + 1 ≡ t.grid.columns
        → (cursor_line out ≡ cursor_line t)
          × (cursor_column out ≡ cursor_column t)
          × (out.grid.cursor.input_needs_wrap ≡ true)

  write_at_cursor-Overwritten :
      (t : Screen palette Link) (c : ℕ) (old : Cell.Cell Color Link)
      → ValidScreen palette Link t
      → read_cell t (cursor_line t) (cursor_column t) ≡ some old
      → intersects old.flags (bit_or Flags.wide_char Flags.wide_char_spacer) ≡ false
      → Overwritten t
          (cursor_line t)
          (cursor_column t)
          (record t.grid.cursor.template { c = char_map c })
          (write_at_cursor palette Link char_map t c)
  unfolding write_at_cursor clear_related
  write_at_cursor-Overwritten t c old v e plain =
      let over =
        overwrite ⦃cell = cell_grid palette Link⦄ t (cursor_line t) (cursor_column t)
          (record t.grid.cursor.template { c = char_map c }) v (cursor-InRange ⦃cell = _⦄ t v)
          v.motion.column_in in
      record {
        raw = over.raw;
        returns = >>=-step _ _ e (>>=-step _ _ (if-off _ _ (some t) _ plain refl) over.returns);
        shape = over.shape;
        here = over.here;
        elsewhere = over.elsewhere;
      }

  typed :
      (t : Screen palette Link) (c : ℕ)
      → ValidScreen palette Link t
      → (over : Overwritten t
          (cursor_line t)
          (cursor_column t)
          (record t.grid.cursor.template { c = char_map c })
          (write_at_cursor palette Link char_map t c))
      → t.grid.cursor.input_needs_wrap ≡ false
      → t.insert_mode ≡ false
      → char_width c ≡ some 1
      → Typed t c (input palette Link char_map char_width t c)
  unfolding input input_wide_or_narrow make_room advance
  typed t c v over free replace narrow = record {
    out = advance (with_rows t over.raw);
    returns =
        subst
          (λ w.
            (elim w [
              | none ↦ some t
              | some width ↦
                  if width == 0
                  then input_zero_width palette Link char_map t c
                  else input_wide_or_narrow palette Link char_map t c width
            ])
            ≡ some (advance (with_rows t over.raw)))
          (sym narrow)
          (>>=-step _ _ (if-off _ _ (some t) _ free refl) (
            >>=-step _ _
              (if-off _ _ (some t) _
                (ap (λ b. b && ltb (cursor_column t + 1) t.grid.columns) replace) refl)
              (>>=-step _ _ over.returns refl)));
    here = advance-read_cell (with_rows t over.raw) (cursor_line t) (cursor_column t) ∙ over.here;
    elsewhere = λ l k b o. advance-read_cell (with_rows t over.raw) l k ∙ over.elsewhere l k b o;
    next = λ h. advance-next (with_rows t over.raw) h;
    pending = λ h. advance-pending (with_rows t over.raw) h;
  }

  -- On a well-formed screen without a pending wrap and without the insert mode, whose cursor is not on a
  -- wide character, a character of one column is written to the cursor's cell with the attributes of its
  -- template, every other cell of the buffer is as before, and the cursor goes to the next column, or
  -- stays at the last one with a wrap pending.
  pub input_narrow_lem :
      (t : Screen palette Link) (c : ℕ) (old : Cell.Cell Color Link)
      → ValidScreen palette Link t
      → read_cell t (cursor_line t) (cursor_column t) ≡ some old
      → intersects old.flags (bit_or Flags.wide_char Flags.wide_char_spacer) ≡ false
      → t.grid.cursor.input_needs_wrap ≡ false
      → t.insert_mode ≡ false
      → char_width c ≡ some 1
      → Typed t c (input palette Link char_map char_width t c)
  input_narrow_lem t c old v e plain free replace narrow =
      typed t c v (write_at_cursor-Overwritten t c old v e plain) free replace narrow
