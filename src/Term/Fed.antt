-- ===== src/Term/Fed.antt =====
-- Moving the cursor and feeding lines keeps the screen well-formed, and does not panic.
use alacritty_pro.Prelude.{ℕ, ◌<◌, ◌≡◌, refl, sym, ◌∙◌, ap, arith, Option, some, length}
use mathlib.Core.Path.{subst}
use alacritty_pro.Prelude.Int.{pos}
use alacritty_pro.Row.{GridCell}
use alacritty_pro.Storage
use alacritty_pro.Storage.{Storage}
use alacritty_pro.Damage.{TermDamageState, damage_point}
use alacritty_pro.Damage.Report
use alacritty_pro.Damage.Report.{damage_line_lem}
use alacritty_pro.Grid.Defs.{Grid, Cursor}
use alacritty_pro.Grid.Lines.{AllRows}
use alacritty_pro.Grid.Up
use alacritty_pro.Grid.Up.{IsLine}
use alacritty_pro.Term.{Term, cursor_line, cursor_column, damage_cursor, damage_row, place}
use alacritty_pro.Term.Motion
use alacritty_pro.Term.Motion.{Frame, Moved}
use alacritty_pro.Term.Lines.{step_line}
use alacritty_pro.Term.Safe.{IsValid, Safe}

module _ {T : Type 0} ⦃cell : GridCell T⦄ where
  -- The grid with another cursor is as valid.
  pub recursored : (g : Grid T) (c : Cursor T) → Up.IsValid g → Up.IsValid (record g { cursor = c })
  recursored g c v = record {
    raw = v.raw;
    visible = v.visible;
    some_column = v.some_column;
    rows = v.rows;
    limit = v.limit;
  }

  -- The screen with another cursor on it, and other damage.
  pub placed-IsValid :
      (t : Term T) (d : TermDamageState) (c : Cursor T) (row : ℕ)
      → IsValid t
      → Report.IsValid d
      → length d.lines ≡ length t.damage.lines
      → c.point.line ≡ pos row
      → row < t.grid.lines
      → c.point.column < t.grid.columns
      → IsValid (record t { damage = d; grid = record t.grid { cursor = c } })
  placed-IsValid t d c row v valid same at h k = record {
    motion = record {
      damage = valid;
      entries = same ∙ v.motion.entries;
      row = row;
      at_row = at;
      row_in = h;
      column_in = k;
      top = v.motion.top;
      bottom = v.motion.bottom;
      start = v.motion.start;
      end = v.motion.end;
      ordered = v.motion.ordered;
      some_line = v.motion.some_line;
      bottom_in = v.motion.bottom_in;
    };
    grid = recursored t.grid c v.grid;
    saved_row = v.saved_row;
    saved_at = v.saved_at;
    saved_row_in = v.saved_row_in;
    saved_column_in = v.saved_column_in;
    tabs = v.tabs;
    columns = v.columns;
  }

  -- A handler that keeps the rows and the frame is safe.
  pub framed-Safe :
      (t out : Term T) (m : Option (Term T))
      → IsValid t
      → m ≡ some out
      → Motion.IsValid out
      → out.grid.raw ≡ t.grid.raw
      → Frame t out
      → Safe m
  framed-Safe t out m v returns motion rows f = record {
    out = out;
    returns = returns;
    valid = record {
      motion = motion;
      grid = record {
        raw = subst Storage.View.IsValid (sym rows) v.grid.raw;
        visible = ap (λ (s : Storage T). s.visible_lines) rows ∙ v.grid.visible ∙ sym f.lines;
        some_column = omega (arith, f.columns, v.grid.some_column);
        rows =
            subst (λ s. AllRows (IsLine out.grid.columns) s) (sym rows)
              (subst (λ n. AllRows (IsLine n) t.grid.raw) (sym f.columns) v.grid.rows);
        limit = omega (arith, ap (λ (s : Storage T). s.len) rows, f.lines, f.limit, v.grid.limit);
      };
      saved_row = v.saved_row;
      saved_at = ap (λ (c : Cursor T). c.point.line) f.saved ∙ v.saved_at;
      saved_row_in = omega (arith, f.lines, v.saved_row_in);
      saved_column_in =
          omega
            (arith, ap (λ (c : Cursor T). c.point.column) f.saved, f.columns, v.saved_column_in);
      tabs = ap (λ (s : _). length s.tabs) f.tabs ∙ v.tabs ∙ sym f.columns;
      columns = omega (arith, f.columns, v.columns);
    };
  }

  -- A motion of the cursor is safe.
  pub moved-Safe :
      (t : Term T) (v : IsValid t) (row column : ℕ) (m : Option (Term T))
      → Moved t v.motion row column m
      → Safe m
  moved-Safe t v row column m h = framed-Safe t h.out m v h.returns h.valid h.same_rows h.frame

  -- Reporting damage changes the damage only.
  pub record Reported (t : Term T) (m : Option (Term T)) : Type 0 where
    pub damage : TermDamageState
    pub returns : m ≡ some (record t { damage = damage })
    pub valid : IsValid (record t { damage = damage })

  -- Reporting a range of the cursor's line as damaged, and the cursor itself.
  pub damage_row-Reported :
      (t : Term T)
      → IsValid t
      → (left right : ℕ) → Reported t (damage_row t (cursor_line t) left right)
  unfolding damage_row
  damage_row-Reported t v left right =
      let m = v.motion in
      let (d, e, dv, ds, _, _) =
        damage_line_lem t.damage m.row left right m.damage (omega (arith, m.entries, m.row_in)) in
      record {
        damage = d;
        returns = rw (m.at_row, e) refl;
        valid = placed-IsValid t d t.grid.cursor m.row v dv ds m.at_row m.row_in m.column_in;
      }

  pub damage_cursor-Reported : (t : Term T) → IsValid t → Reported t (damage_cursor t)
  unfolding damage_cursor damage_point damage_row
  damage_cursor-Reported t v = damage_row-Reported t v (cursor_column t) (cursor_column t)

  pub step_line-Safe :
      (t : Term T) → IsValid t → (row : ℕ) → row < t.grid.lines → Safe (step_line t (pos row))
  unfolding step_line damage_cursor damage_point
  step_line-Safe t v row h =
      let m = v.motion in
      let (d, e, dv, ds, _, _) =
        damage_line_lem t.damage m.row (cursor_column t) (cursor_column t) m.damage
          (omega (arith, m.entries, m.row_in)) in
      let (d', e', dv', ds', _, _) =
        damage_line_lem d row (cursor_column t) (cursor_column t) dv
          (omega (arith, ds, m.entries)) in
      record {
        out =
            place (record t { damage = d' }) (record { line = pos row; column = cursor_column t });
        returns = rw (m.at_row, e, e') refl;
        valid =
            placed-IsValid t d'
              (record t.grid.cursor { point = record { line = pos row; column = cursor_column t } })
              row v dv' (ds' ∙ ds) refl h m.column_in;
      }
