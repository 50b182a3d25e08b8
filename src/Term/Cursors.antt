-- ===== src/Term/Cursors.antt =====
-- Saving and restoring the cursor, moving it by tabs and by a backspace, and setting the region keep the
-- screen well-formed, and do not panic.
use alacritty_pro.Prelude.{
  ℕ, suc, ◌-◌, ◌<◌, ◌≡◌, refl, sym, ◌∙◌, arith, Bool, false, Option, some, >>=-step, ◌>>=◌,
}
use mathlib.Core.Path.{subst}
use alacritty_pro.Row.{Row, GridCell}
use alacritty_pro.Grid.Up.{IsLine}
use alacritty_pro.Grid.Edits.{Keeps}
use alacritty_pro.Tabs
use alacritty_pro.Tabs.Stops.{backward_tabs_lem, forward_tabs_lem}
use alacritty_pro.Term.{
  Term, cursor_line, cursor_column, damage_row, backspace, restore_cursor_position,
  save_cursor_position, set_scrolling_region,
}
use alacritty_pro.Selection.{Selection}
use alacritty_pro.Term.Edit.{edit_line, move_backward_tabs, move_forward_tabs}
use alacritty_pro.Term.Scrolling.{set_scrolling_region_lem}
use alacritty_pro.Term.Write.{edit_row}
use alacritty_pro.Term.Safe.{IsValid, Safe}
use alacritty_pro.Term.Fed.{
  placed-IsValid, framed-Safe, damage_row-Reported, damage_cursor-Reported,
}
use alacritty_pro.Term.Feeding.{if-Safe, idle-Safe}
use alacritty_pro.Term.Written.Pen.{edit_row-Penned, cursor-InRange}

module _ {T : Type 0} ⦃cell : GridCell T⦄ where
  -- Damage reported on the cursor's line, and an edit of it.
  pub edited-Safe :
      (t : Term T) (left right : ℕ) (f : Row T → Option (Row T))
      → IsValid t
      → Keeps (IsLine t.grid.columns) f
      → Safe (damage_row t (cursor_line t) left right >>= (λ t'. edit_line t' f))
  unfolding edit_line edit_row
  edited-Safe t left right f v keeps =
      let reported = damage_row-Reported t v left right in
      let t1 = record t { damage = reported.damage } in
      let edited = edit_row-Penned t1 (cursor_line t) f reported.valid (cursor-InRange t v) keeps in
      record {
        out = _;
        returns = >>=-step _ _ reported.returns edited.returns;
        valid = edited.valid;
      }

  -- The cursor in another column of its line.
  column-IsValid :
      (t : Term T) (column : ℕ) (wrap : Bool)
      → IsValid t
      → column < t.grid.columns
      → IsValid (record t {
        grid = record t.grid {
          cursor = record t.grid.cursor {
            point = record { line = cursor_line t; column = column };
            input_needs_wrap = wrap;
          };
        };
      })
  column-IsValid t column wrap v h =
      placed-IsValid t t.damage
        (record t.grid.cursor {
          point = record { line = cursor_line t; column = column };
          input_needs_wrap = wrap;
        })
        v.motion.row v v.motion.damage refl v.motion.at_row v.motion.row_in h

  pub backspace-Safe : (t : Term T) → IsValid t → Safe (backspace t)
  unfolding backspace
  backspace-Safe t v =
      if-Safe _ _ _
        (λ _.
          let moved =
            column-IsValid t (cursor_column t - 1) false v (omega (arith, v.motion.column_in)) in
          let reported = damage_row-Reported _ moved (cursor_column t - 1) (cursor_column t) in
          record { out = _; returns = reported.returns; valid = reported.valid })
        (λ _. idle-Safe t v)

  -- Another selection.
  pub selected-IsValid :
      (t : Term T) (selection : Option Selection)
      → IsValid t
      → IsValid (record t { selection = selection })
  selected-IsValid t selection v = record {
    motion = record {
      damage = v.motion.damage;
      entries = v.motion.entries;
      row = v.motion.row;
      at_row = v.motion.at_row;
      row_in = v.motion.row_in;
      column_in = v.motion.column_in;
      top = v.motion.top;
      bottom = v.motion.bottom;
      start = v.motion.start;
      end = v.motion.end;
      ordered = v.motion.ordered;
      some_line = v.motion.some_line;
      bottom_in = v.motion.bottom_in;
    };
    grid = v.grid;
    saved_row = v.saved_row;
    saved_at = v.saved_at;
    saved_row_in = v.saved_row_in;
    saved_column_in = v.saved_column_in;
    tabs = v.tabs;
    columns = v.columns;
  }

  pub save_cursor_position-Safe : (t : Term T) → IsValid t → Safe (some (save_cursor_position t))
  unfolding save_cursor_position
  save_cursor_position-Safe t v = record {
    out = _;
    returns = refl;
    valid = record {
      motion = record {
        damage = v.motion.damage;
        entries = v.motion.entries;
        row = v.motion.row;
        at_row = v.motion.at_row;
        row_in = v.motion.row_in;
        column_in = v.motion.column_in;
        top = v.motion.top;
        bottom = v.motion.bottom;
        start = v.motion.start;
        end = v.motion.end;
        ordered = v.motion.ordered;
        some_line = v.motion.some_line;
        bottom_in = v.motion.bottom_in;
      };
      grid = record {
        raw = v.grid.raw;
        visible = v.grid.visible;
        some_column = v.grid.some_column;
        rows = v.grid.rows;
        limit = v.grid.limit;
      };
      saved_row = v.motion.row;
      saved_at = v.motion.at_row;
      saved_row_in = v.motion.row_in;
      saved_column_in = v.motion.column_in;
      tabs = v.tabs;
      columns = v.columns;
    };
  }

  pub restore_cursor_position-Safe : (t : Term T) → IsValid t → Safe (restore_cursor_position t)
  unfolding restore_cursor_position
  restore_cursor_position-Safe t v =
      let first = damage_cursor-Reported t v in
      let restored =
        placed-IsValid t first.damage t.grid.saved_cursor v.saved_row v first.valid.motion.damage
          (first.valid.motion.entries ∙ sym v.motion.entries) v.saved_at v.saved_row_in
          v.saved_column_in in
      let second = damage_cursor-Reported _ restored in
      record { out = _; returns = >>=-step _ _ first.returns second.returns; valid = second.valid }

  -- The protocol counts the top line from 1.
  pub set_scrolling_region-Safe :
      (t : Term T) (top : ℕ) (bottom : Option ℕ)
      → IsValid t
      → Safe (set_scrolling_region t (suc top) bottom)
  set_scrolling_region-Safe t top bottom v =
      let r = set_scrolling_region_lem t v.motion (suc top) bottom (omega arith) in
      framed-Safe t r.out _ v r.returns r.valid r.same_rows r.frame

  pub move_backward_tabs-Safe :
      (t : Term T) (count : ℕ) → IsValid t → Safe (move_backward_tabs t.tabs t count)
  unfolding move_backward_tabs
  move_backward_tabs-Safe t count v =
      let (col, e, h) =
        backward_tabs_lem t.tabs count (cursor_column t)
          (omega (arith, v.tabs, v.motion.column_in)) in
      let moved =
        column-IsValid t col t.grid.cursor.input_needs_wrap v (omega (arith, v.motion.column_in)) in
      let reported = damage_row-Reported _ moved col (cursor_column t) in
      record { out = _; returns = >>=-step _ _ e reported.returns; valid = reported.valid }

  pub move_forward_tabs-Safe :
      (t : Term T) (count : ℕ) → IsValid t → Safe (move_forward_tabs t.tabs t count)
  unfolding move_forward_tabs
  move_forward_tabs-Safe t count v =
      let (col, e, lo, h) =
        forward_tabs_lem t.tabs count (cursor_column t)
          (omega (arith, v.tabs, v.motion.column_in)) in
      let moved = column-IsValid t col t.grid.cursor.input_needs_wrap v (omega (arith, v.tabs)) in
      let reported = damage_row-Reported _ moved (cursor_column t) col in
      record {
        out = _;
        returns =
            >>=-step _ _
              (subst (λ n. Tabs.forward_tabs t.tabs n count (cursor_column t) ≡ some col) v.tabs e)
              reported.returns;
        valid = reported.valid;
      }
