-- ===== src/Term/Written/Wrap.antt =====
-- `wrapline` of alacritty_terminal/src/term/mod.rs keeps the screen well-formed, and does not panic.
use alacritty_pro.Prelude.{
  if-on, ℕ, ◌+◌, ◌<◌, ◌≡◌, refl, sym, ◌∙◌, arith, Bool, true, false, Option, some, if◌then◌else◌,
  >>=-step, ◌>>=◌, inl, inr, Bool-cases,
}
use alacritty_pro.Prelude.Int.{pos, leb_ℤ}
use alacritty_pro.Index.{add_line}
use alacritty_pro.Row.{GridCell}
use alacritty_pro.Row.Occupied.{IsLawful}
use alacritty_pro.Cell.{Palette, cell_grid}
use alacritty_pro.Cell.Flags
use alacritty_pro.Cell.Flags.{contains, insert_flags}
use alacritty_pro.Term.{Term, cursor_line, cursor_column, place, no_wrap, damage_cursor}
use alacritty_pro.Term.Write.{Screen, wrapline, move_to_column}
use alacritty_pro.Term.Safe.{IsValid, Safe}
use alacritty_pro.Term.Fed.{placed-IsValid, damage_cursor-Reported}
use alacritty_pro.Term.Feeding.{linefeed-Safe, if-Safe}
use alacritty_pro.Term.Written.Pen.{with_pen, Penned, update_cell-Penned, cursor-InRange}
use alacritty_pro.Term.Written.Cursor.{
  SafeScreen, ValidScreen, at_column-IsValid, wrap_flag-IsValid,
}

pub either_in :
    (b : Bool) (left right limit : ℕ)
    → left < limit
    → right < limit
    → (if b then left else right) < limit
either_in true left right limit h k = h
either_in false left right limit h k = k

module _ {T : Type 0} ⦃cell : GridCell T⦄ where
  pub Penned-Safe : (t : Term T) (template : T) (m : Option (Term T)) → Penned t template m → Safe m
  Penned-Safe t template m h = record { out = _; returns = h.returns; valid = h.valid }

  -- A step to the next line of the screen.
  next_line-Safe :
      (t : Term T) (v : IsValid t)
      → v.motion.row + 1 < t.grid.lines
      → Safe (
          damage_cursor t >>= (λ d.
            some
              (place d (record { line = add_line (cursor_line d) 1; column = cursor_column d }))))
  next_line-Safe t v h =
      let reported = damage_cursor-Reported t v in
      record {
        out = _;
        returns = >>=-step _ _ reported.returns refl;
        valid =
            placed-IsValid t reported.damage
              (record t.grid.cursor {
                point = record { line = add_line (cursor_line t) 1; column = cursor_column t };
              })
              (v.motion.row + 1) v reported.valid.motion.damage
              (reported.valid.motion.entries ∙ sym v.motion.entries) (rw v.motion.at_row refl) h
              v.motion.column_in;
      }

bottom_test :
    (row bottom : ℕ) → leb_ℤ (pos bottom) (add_line (pos row) 1) ≡ false → row + 1 < bottom
bottom_test row bottom h = ground arith

module _ {Color : Type 0} (palette : Palette Color) (Link : Type 0)
    (lawful : IsLawful (cell_grid palette Link)) where
  -- A wrap that does not panic puts the cursor at the start of a line.
  pub record Wrapped (m : Option (Screen palette Link)) : Type 0 where
    pub out : Screen palette Link
    pub returns : m ≡ some out
    pub valid : ValidScreen palette Link out
    pub at_start : cursor_column out ≡ 0

  pub wrapline-Wrapped :
      (t : Screen palette Link)
      → ValidScreen palette Link t
      → t.line_wrap ≡ true
      → Wrapped (wrapline palette Link t)
  unfolding wrapline
  wrapline-Wrapped t v on =
      let marked =
        update_cell-Penned ⦃cell = cell_grid palette Link⦄ t (cursor_line t) (cursor_column t)
          (λ c. record c { flags = insert_flags c.flags Flags.wrapline }) v
          (cursor-InRange ⦃cell = _⦄ t v) v.motion.column_in in
      let t1 = with_pen t marked.raw t.grid.cursor.template in
      let m = marked.valid.motion in
      let lower =
        if-Safe ⦃cell = cell_grid palette Link⦄
          (leb_ℤ t1.scroll_region.end (add_line (cursor_line t1) 1)) _ _
          (λ _. linefeed-Safe ⦃cell = _⦄ lawful t1 marked.valid)
          (λ h. next_line-Safe ⦃cell = _⦄ t1 marked.valid (bottom_line t1 marked.valid h)) in
      let start = wrap_flag-IsValid palette Link (move_to_column lower.out 0) false (
        at_column-IsValid palette Link lower.out 0 lower.valid
          (omega (arith, lower.valid.columns))) in
      let reported =
        damage_cursor-Reported ⦃cell = cell_grid palette Link⦄
          (no_wrap (move_to_column lower.out 0)) start in
      record {
        out = record (no_wrap (move_to_column lower.out 0)) { damage = reported.damage };
        returns =
            if-on t.line_wrap _ _ _ on
              (>>=-step _ _ marked.returns (>>=-step _ _ lower.returns reported.returns));
        valid = reported.valid;
        at_start = refl;
      }
    where
      bottom_line :
          (t : Screen palette Link) (v : ValidScreen palette Link t)
          → leb_ℤ t.scroll_region.end (add_line (cursor_line t) 1) ≡ false
          → v.motion.row + 1 < t.grid.lines
      bottom_line t v h =
          let above =
            bottom_test v.motion.row v.motion.bottom (rw (v.motion.end, v.motion.at_row) at h) in
          omega (arith, v.motion.bottom_in)

  unwrapped : (t : Screen palette Link) → t.line_wrap ≡ false → wrapline palette Link t ≡ some t
  unfolding wrapline
  unwrapped t off = rw off refl

  pub wrapline-Safe :
      (t : Screen palette Link)
      → ValidScreen palette Link t
      → SafeScreen palette Link (wrapline palette Link t)
  wrapline-Safe t v = elim (Bool-cases t.line_wrap) [
    | inl on ↦
        let w = wrapline-Wrapped t v on in
        record { out = w.out; returns = w.returns; valid = w.valid }
    | inr off ↦ record { out = t; returns = unwrapped t off; valid = v }
  ]
