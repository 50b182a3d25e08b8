-- ===== src/Term/Along.antt =====
-- The motions of the cursor along its line.
use alacritty_pro.Prelude.{ℕ, ◌+◌, ◌-◌, ◌≤◌, ◌<◌, min, refl, arith, some, ◌>>=◌}
use alacritty_pro.Damage.Report.{damage_line_lem}
use alacritty_pro.Term.{
  Term, place, no_wrap, cursor_line, cursor_column, damage_row, move_forward, move_backward,
  carriage_return,
}
use alacritty_pro.Term.Motion.{IsValid, Moved, moved_to, moved-IsValid}

module _ {T : Type 0} where
  -- The motions along a line, which damage all cells between the old and the new position.
  along :
      (t : Term T) (v : IsValid t) (left right column : ℕ)
      → left ≤ cursor_column t
      → cursor_column t ≤ right
      → left ≤ column
      → column ≤ right
      → column < t.grid.columns
      → Moved t v v.row column (
          damage_row t (cursor_line t) left right
          >>= (λ t'. some (no_wrap (place t' (record { line = cursor_line t'; column = column })))))
  unfolding damage_row
  along t v left right column a b c d h =
      let (dam, e, dv, ds, hit, old) =
        damage_line_lem t.damage v.row left right v.damage (omega (arith, v.entries, v.row_in)) in
      record {
        out = moved_to t dam v.row column;
        returns = rw (v.at_row, e) refl;
        valid = moved-IsValid t v dam v.row column dv ds v.row_in h;
        at = refl;
        column_at = refl;
        no_pending = refl;
        same_rows = refl;
        same_mode = refl;
        same_region = refl;
        frame = record { lines = refl; columns = refl; limit = refl; saved = refl; tabs = refl };
        from = hit (cursor_column t) a b;
        to = hit column c d;
        kept = old;
      }

  -- Moving along the line: forward up to the last column, backward and by a carriage return down to
  -- the first one; none of them panics.
  pub move_along_lem :
      (t : Term T) (v : IsValid t) (n : ℕ)
      → Moved t v v.row (min (cursor_column t + n) (t.grid.columns - 1)) (move_forward t n)
        × Moved t v v.row (cursor_column t - n) (move_backward t n)
        × Moved t v v.row 0 (carriage_return t)
  unfolding move_forward move_backward carriage_return
  move_along_lem t v n = (
    along t v (cursor_column t) (min (cursor_column t + n) (t.grid.columns - 1)) _ (omega arith)
        (omega (arith, v.column_in)) (omega (arith, v.column_in)) (omega arith)
        (omega (arith, v.column_in)),
    along t v (cursor_column t - n) (cursor_column t) _ (omega arith) (omega arith) (omega arith)
        (omega arith) (omega (arith, v.column_in)),
    along t v 0 (cursor_column t) 0 (omega arith) (omega arith) (omega arith) (omega arith)
        (omega (arith, v.column_in)),
  )
