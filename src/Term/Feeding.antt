-- ===== src/Term/Feeding.antt =====
-- The handlers of lines keep the screen well-formed, and do not panic.
use alacritty_pro.Prelude.{
  ℕ, ◌+◌, ◌-◌, ◌≤◌, ◌<◌, min, ◌≡◌, refl, sym, arith, Bool, true, false, ◌&&◌, not, Option, some,
  ◌>>◌, assert, if◌then◌else◌, leb, le→leb,
}
use mathlib.Core.Path.{subst}
use alacritty_pro.Prelude.Int.{ℤ, pos, ltb_ℤ, max_ℤ}
use alacritty_pro.Index.{add_line, sub_line}
use alacritty_pro.Row.{GridCell}
use alacritty_pro.Row.Occupied.{IsLawful}
use alacritty_pro.Term.{Term, cursor_line, carriage_return}
use alacritty_pro.Term.Along.{move_along_lem}
use alacritty_pro.Term.Lines.{
  as_usize, in_region, scroll_up_relative, scroll_down_relative, scroll_up, scroll_down,
  insert_blank_lines, delete_lines, step_line, linefeed, newline, reverse_index,
}
use alacritty_pro.Term.Safe.{
  IsValid, Safe, Safe-bind, scroll_up_relative-Safe, scroll_down_relative-Safe,
}
use alacritty_pro.Term.Fed.{moved-Safe, step_line-Safe}

in_region-row :
    (a e row : ℕ) → in_region (record { start = pos a; end = pos e }) (pos row) ≡ true → row < e
in_region-row a e row h = ground arith

above : (row : ℕ) → max_ℤ (sub_line (pos row) 1) (pos 0) ≡ pos (row - 1)
above row = ground arith

next_in : (row lines : ℕ) → ltb_ℤ (add_line (pos row) 1) (pos lines) ≡ true → row + 1 < lines
next_in row lines h = ground arith

and-right : (a b : Bool) → (a && b) ≡ true → b ≡ true
and-right true b h = h
and-right false b h = cc

module _ {T : Type 0} ⦃cell : GridCell T⦄ where
  -- A handler that does nothing.
  pub idle-Safe : (t : Term T) → IsValid t → Safe (some t)
  idle-Safe t v = record { out = t; returns = refl; valid = v }

  assert-Safe : (b : Bool) (m : Option (Term T)) → b ≡ true → Safe m → Safe (assert b >> m)
  assert-Safe true m h s = s
  assert-Safe false m h s = cc

  -- A test chooses between two handlers.
  pub if-Safe :
      (b : Bool) (m n : Option (Term T))
      → (b ≡ true → Safe m)
      → (b ≡ false → Safe n)
      → Safe (if b then m else n)
  if-Safe true m n h k = h refl
  if-Safe false m n h k = k refl

module _ {T : Type 0} ⦃cell : GridCell T⦄ (lawful : IsLawful cell) (t : Term T)
    (v : IsValid t) where
  scroll_up_from :
      (origin : ℤ) (a lines : ℕ)
      → origin ≡ pos a
      → a ≤ v.motion.bottom
      → Safe (scroll_up_relative t origin lines)
  scroll_up_from origin a lines e h =
      subst (λ o. Safe (scroll_up_relative t o lines)) (sym e)
        (scroll_up_relative-Safe lawful t v a lines h)

  scroll_down_from :
      (origin : ℤ) (a lines : ℕ)
      → origin ≡ pos a
      → a ≤ v.motion.bottom
      → Safe (scroll_down_relative t origin lines)
  scroll_down_from origin a lines e h =
      subst (λ o. Safe (scroll_down_relative t o lines)) (sym e)
        (scroll_down_relative-Safe lawful t v a lines h)

  step_line_to :
      (line : ℤ) (row : ℕ) → line ≡ pos row → row < t.grid.lines → Safe (step_line t line)
  step_line_to line row e h = subst (λ l. Safe (step_line t l)) (sym e) (step_line-Safe t v row h)

  pub scroll_up-Safe : (lines : ℕ) → Safe (scroll_up t lines)
  unfolding scroll_up
  scroll_up-Safe lines =
      scroll_up_from t.scroll_region.start v.motion.top lines v.motion.start v.motion.ordered

  pub scroll_down-Safe : (lines : ℕ) → Safe (scroll_down t lines)
  unfolding scroll_down
  scroll_down-Safe lines =
      scroll_down_from t.scroll_region.start v.motion.top lines v.motion.start v.motion.ordered

  cursor_in : in_region t.scroll_region (cursor_line t) ≡ true → v.motion.row ≤ v.motion.bottom
  cursor_in h =
      let inside =
        in_region-row v.motion.top v.motion.bottom v.motion.row
          (rw (v.motion.start, v.motion.end, v.motion.at_row) at h) in
      omega arith

  pub insert_blank_lines-Safe : (lines : ℕ) → Safe (insert_blank_lines t lines)
  unfolding insert_blank_lines
  insert_blank_lines-Safe lines =
      if-Safe (in_region t.scroll_region (cursor_line t)) _ _
        (λ h. scroll_down_from (cursor_line t) v.motion.row lines v.motion.at_row (cursor_in h))
        (λ h. idle-Safe t v)

  pub delete_lines-Safe : (lines : ℕ) → Safe (delete_lines t lines)
  unfolding delete_lines
  delete_lines-Safe lines =
      let n = min (t.grid.lines - as_usize (cursor_line t)) lines in
      assert-Safe (leb (as_usize (cursor_line t)) t.grid.lines) _ inside (
        if-Safe (not (leb n 0) && in_region t.scroll_region (cursor_line t))
          (scroll_up_relative t (cursor_line t) n) (some t)
          (λ h.
            scroll_up_from (cursor_line t) v.motion.row n v.motion.at_row
              (cursor_in (and-right (not (leb n 0)) _ h)))
          (λ h. idle-Safe t v))
    where
      inside : leb (as_usize (cursor_line t)) t.grid.lines ≡ true
      inside =
          rw v.motion.at_row (le→leb v.motion.row t.grid.lines (omega (arith, v.motion.row_in)))

  pub linefeed-Safe : Safe (linefeed t)
  unfolding linefeed
  linefeed-Safe =
      let next = add_line (cursor_line t) 1 in
      if-Safe _ _ _ (λ h. scroll_up-Safe 1)
        (λ _.
          if-Safe (ltb_ℤ next (pos t.grid.lines)) (step_line t next) (some t)
            (λ k.
              step_line_to next (v.motion.row + 1) (rw v.motion.at_row refl)
                (next_in v.motion.row t.grid.lines (rw v.motion.at_row at k)))
            (λ k. idle-Safe t v))

  pub reverse_index-Safe : Safe (reverse_index t)
  unfolding reverse_index
  reverse_index-Safe =
      if-Safe _ _ _ (λ h. scroll_down-Safe 1)
        (λ _.
          step_line_to (max_ℤ (sub_line (cursor_line t) 1) (pos 0)) (v.motion.row - 1)
            (rw v.motion.at_row (above v.motion.row)) (omega (arith, v.motion.row_in)))

module _ {T : Type 0} ⦃cell : GridCell T⦄ (lawful : IsLawful cell) where
  pub carriage_return-Safe : (t : Term T) → IsValid t → Safe (carriage_return t)
  carriage_return-Safe t v =
      moved-Safe t v v.motion.row 0 (carriage_return t) (move_along_lem t v.motion 0).2

  pub newline-Safe : (t : Term T) → IsValid t → Safe (newline t)
  unfolding newline
  newline-Safe t v =
      Safe-bind (linefeed t) _ (linefeed-Safe lawful t v)
        λ t' w. if-Safe _ _ _ (λ h. carriage_return-Safe t' w) (λ h. idle-Safe t' w)
