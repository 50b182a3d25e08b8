-- ===== src/Term/Written/Pen.antt =====
-- Changes of single cells: `update_cell`, `clear_related`, `write_at_cursor` and the flags of the
-- cursor's template.
use alacritty_pro.Prelude.{
  ℕ, ◌+◌, ◌-◌, ◌≤◌, ◌<◌, ◌≡◌, refl, ◌∙◌, arith, Bool, true, false, Option, some, if◌then◌else◌,
  >>=-step, ◌>>=◌, get_elem?-some, get_elem?-take,
}
use alacritty_pro.Prelude.Int.{ℤ, pos, neg, pos_part, neg_part, eq_ℤ}
use alacritty_pro.Index
use alacritty_pro.Index.{sub_line}
use alacritty_pro.Row
use alacritty_pro.Row.{Row, GridCell}
use alacritty_pro.Storage
use alacritty_pro.Storage.{Storage}
use alacritty_pro.Storage.View.{ring, length-ring}
use alacritty_pro.Storage.Access.{InRange, position, index-contents}
use alacritty_pro.Grid.Defs.{dimensions}
use alacritty_pro.Grid.Up
use alacritty_pro.Grid.Up.{IsLine}
use alacritty_pro.Grid.Edits.{Keeps, update-EditedLine}
use alacritty_pro.Term.{Term, cursor_line}
use alacritty_pro.Term.Write.{edit_row, update_cell, read_cell}
use alacritty_pro.Term.Safe.{IsValid}
use alacritty_pro.Term.Written.Rows.{edit_cell-Keeps}

module _ {T : Type 0} where
  -- The terminal with other rows, and another template of its cursor.
  abbrev pub with_pen : Term T → Storage T → T → Term T
  with_pen t raw template = record t {
    grid = record t.grid { raw = raw; cursor = record t.grid.cursor { template = template } };
  }

module _ {T : Type 0} ⦃cell : GridCell T⦄ where
  -- An operation that succeeds and changes no more than cells, and the template.
  pub record Penned (t : Term T) (template : T) (m : Option (Term T)) : Type 0 where
    pub raw : Storage T
    pub returns : m ≡ some (with_pen t raw template)
    pub valid : IsValid (with_pen t raw template)

  pub penned-IsValid :
      (t : Term T) (raw : Storage T) (template : T)
      → IsValid t
      → Up.IsValid (record t.grid { raw = raw })
      → IsValid (with_pen t raw template)
  penned-IsValid t raw template v w = record {
    motion = record {
      damage = v.motion.damage;
      entries = v.motion.entries;
      row = v.motion.row;
      at_row = v.motion.at_row;
      row_in = v.motion.row_in;
      column_in = v.motion.column_in;
      top = v.motion.top;
      bottom = v.motion.bottom;
      start = v.motion.start;
      end = v.motion.end;
      ordered = v.motion.ordered;
      some_line = v.motion.some_line;
      bottom_in = v.motion.bottom_in;
    };
    grid = record {
      raw = w.raw;
      visible = w.visible;
      some_column = w.some_column;
      rows = w.rows;
      limit = w.limit;
    };
    saved_row = v.saved_row;
    saved_at = v.saved_at;
    saved_row_in = v.saved_row_in;
    saved_column_in = v.saved_column_in;
    tabs = v.tabs;
    columns = v.columns;
  }

  pub edit_row-Penned :
      (t : Term T) (line : ℤ) (f : Row T → Option (Row T))
      → IsValid t
      → InRange t.grid.raw line
      → Keeps (IsLine t.grid.columns) f
      → Penned t t.grid.cursor.template (edit_row t line f)
  unfolding edit_row
  edit_row-Penned t line f v h keeps =
      let e = update-EditedLine t.grid line f v.grid h keeps in
      record {
        raw = e.raw;
        returns = >>=-step _ _ e.returns refl;
        valid = penned-IsValid t e.raw t.grid.cursor.template v e.valid;
      }

  pub update_cell-Penned :
      (t : Term T) (line : ℤ) (column : ℕ) (f : T → T)
      → IsValid t
      → InRange t.grid.raw line
      → column < t.grid.columns
      → Penned t t.grid.cursor.template (update_cell t line column f)
  unfolding update_cell
  update_cell-Penned t line column f v h k =
      edit_row-Penned t line _ v h (edit_cell-Keeps t.grid.columns column f k)

  pub unchanged-Penned : (t : Term T) → IsValid t → Penned t t.grid.cursor.template (some t)
  unchanged-Penned t v = record { raw = t.grid.raw; returns = refl; valid = v }

  pub if-Penned :
      (t : Term T) (template : T) (b : Bool) (m n : Option (Term T))
      → (b ≡ true → Penned t template m)
      → (b ≡ false → Penned t template n)
      → Penned t template (if b then m else n)
  if-Penned t template true m n h k = h refl
  if-Penned t template false m n h k = k refl

  pub Penned-bind :
      (t : Term T) (mid template : T) (m : Option (Term T)) (f : Term T → Option (Term T))
      → Penned t mid m
      → ((raw : Storage T)
          → IsValid (with_pen t raw mid)
          → Penned (with_pen t raw mid) template (f (with_pen t raw mid)))
      → Penned t template (m >>= f)
  Penned-bind t mid template m f first next =
      let second = next first.raw first.valid in
      record {
        raw = second.raw;
        returns = >>=-step _ _ first.returns second.returns;
        valid = second.valid;
      }

  -- A cell of the screen or of the history can be read.
  pub read_cell-some :
      (t : Term T) (line : ℤ) (column : ℕ)
      → IsValid t
      → InRange t.grid.raw line
      → column < t.grid.columns
      → (c : T) × (read_cell t line column ≡ some c)
  unfolding read_cell Row.index
  read_cell-some t line column v h k =
      let s = t.grid.raw in
      let p = position s line in
      let (row, at) =
        get_elem?-some (ring s) p (omega (arith, length-ring v.grid.raw, v.grid.raw)) in
      let shown : Storage.index s line ≡ some row =
        index-contents {s = s} line v.grid.raw h ∙ get_elem?-take s.len (ring s) p ∙ ground arith in
      let (c, e) = get_elem?-some row.inner column (omega (arith, (v.grid.rows p row at).width)) in
      (c, >>=-step _ _ shown e)

  -- The line of the cursor, and the line above unless it is the topmost of the history.
  pub cursor-InRange : (t : Term T) → IsValid t → InRange t.grid.raw (cursor_line t)
  cursor-InRange t v =
      rw v.motion.at_row (omega (arith, v.motion.row_in, v.grid.visible, v.grid.raw))

  pub above-InRange :
      (t : Term T)
      → IsValid t
      → eq_ℤ (cursor_line t) (Index.topmost_line (dimensions t.grid)) ≡ false
      → InRange t.grid.raw (sub_line (cursor_line t) 1)
  above-InRange t v h = rw v.motion.at_row (
      inside v.motion.row t.grid.raw.len t.grid.lines t.grid.raw.visible_lines v.grid.visible
        (omega (arith, v.motion.row_in)) (omega (arith, v.grid.raw, v.grid.visible))
        (rw v.motion.at_row at h))
    where
      inside :
          (row len lines visible : ℕ)
          → visible ≡ lines
          → row < lines
          → lines ≤ len
          → eq_ℤ (pos row) (neg (pos (len - lines))) ≡ false
          → (pos_part (sub_line (pos row) 1) < visible + neg_part (sub_line (pos row) 1))
            × (visible + neg_part (sub_line (pos row) 1) ≤ len + pos_part (sub_line (pos row) 1))
      inside row len lines visible e a b c = ground arith
