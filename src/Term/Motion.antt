-- ===== src/Term/Motion.antt =====
-- Where the motions of the cursor end, and what they report as damaged.
use mathlib.Core.Path.{subst}
use alacritty_pro.Prelude.{
  ℕ, ◌+◌, ◌-◌, ◌≤◌, ◌<◌, min, ◌≡◌, refl, ◌∙◌, arith, true, false, Option, some, inl, inr,
  if◌then◌else◌, Bool-cases, length,
}
use alacritty_pro.Prelude.Int.{ℤ, pos, negsuc, ◌+ℤ◌, min_ℤ, max_ℤ, sub_ℕ, pos_part, neg_part}
use alacritty_pro.Index.{sub_line, add_line}
use alacritty_pro.Damage.{TermDamageState, damage_point}
use alacritty_pro.Damage.Report
use alacritty_pro.Damage.Report.{Damaged, damage_line_lem}
use alacritty_pro.Term.{
  Term, place, no_wrap, cursor_line, cursor_column, damage_cursor, goto_target, goto, goto_col,
  move_up, move_down,
}

target_row :
    (line : ℤ) (first limit : ℕ)
    → 0 < limit
    → max_ℤ (min_ℤ (line +ℤ pos first) (sub_line (pos limit) 1)) (pos 0)
      ≡ pos (min (first + pos_part line - neg_part line) (limit - 1))
target_row (pos n) first limit h = ground arith
target_row (negsuc n) first limit h = ground arith

module _ {T : Type 0} where
  -- The cursor is on the screen, the damage has an entry for each line of it, and the scrolling
  -- region is a range of its lines that ends below the topmost one.
  pub record IsValid (t : Term T) : Type 0 where
    pub damage : Report.IsValid t.damage
    pub entries : length t.damage.lines ≡ t.grid.lines
    pub row : ℕ
    pub at_row : cursor_line t ≡ pos row
    pub row_in : row < t.grid.lines
    pub column_in : cursor_column t < t.grid.columns
    pub top : ℕ
    pub bottom : ℕ
    pub start : t.scroll_region.start ≡ pos top
    pub end : t.scroll_region.end ≡ pos bottom
    pub ordered : top ≤ bottom
    pub some_line : 0 < bottom
    pub bottom_in : bottom ≤ t.grid.lines

  -- The size of the screen, the saved cursor and the tabs are as before.
  pub record Frame (t out : Term T) : Type 0 where
    pub lines : out.grid.lines ≡ t.grid.lines
    pub columns : out.grid.columns ≡ t.grid.columns
    pub limit : out.grid.max_scroll_limit ≡ t.grid.max_scroll_limit
    pub saved : out.grid.saved_cursor ≡ t.grid.saved_cursor
    pub tabs : out.tabs ≡ t.tabs

  pub Frame-refl : (t : Term T) → Frame t t
  Frame-refl t = record { lines = refl; columns = refl; limit = refl; saved = refl; tabs = refl }

  -- A motion that succeeds and puts the cursor of a valid terminal to `row` and `column`: it clears
  -- the flag of a pending wrap, leaves the rest of the grid, its mode and its region, reports the
  -- cells of the old and of the new position as damaged, and keeps all damage that was there.
  pub record Moved (t : Term T) (v : IsValid t) (row column : ℕ) (m : Option (Term T))
      : Type 0 where
    pub out : Term T
    pub returns : m ≡ some out
    pub valid : IsValid out
    pub at : cursor_line out ≡ pos row
    pub column_at : cursor_column out ≡ column
    pub no_pending : out.grid.cursor.input_needs_wrap ≡ false
    pub same_rows : out.grid.raw ≡ t.grid.raw
    pub same_mode : out.origin_mode ≡ t.origin_mode
    pub same_region : out.scroll_region ≡ t.scroll_region
    pub frame : Frame t out
    pub from : Damaged out.damage v.row (cursor_column t)
    pub to : Damaged out.damage row column
    pub kept : (l c : ℕ) → Damaged t.damage l c → Damaged out.damage l c

  -- The terminal after its damage and its cursor have been replaced.
  abbrev pub moved_to : Term T → TermDamageState → ℕ → ℕ → Term T
  moved_to t d row column =
      no_wrap (place (record t { damage = d }) (record { line = pos row; column = column }))

  pub moved-IsValid :
      (t : Term T) (v : IsValid t) (d : TermDamageState) (row column : ℕ)
      → Report.IsValid d
      → length d.lines ≡ length t.damage.lines
      → row < t.grid.lines
      → column < t.grid.columns
      → IsValid (moved_to t d row column)
  moved-IsValid t v d row column valid same h k = record {
    damage = valid;
    entries = same ∙ v.entries;
    row = row;
    at_row = refl;
    row_in = h;
    column_in = k;
    top = v.top;
    bottom = v.bottom;
    start = v.start;
    end = v.end;
    ordered = v.ordered;
    some_line = v.some_line;
    bottom_in = v.bottom_in;
  }

  -- `goto` on a valid terminal, whatever the line and the column: the cursor ends on the target line,
  -- and at the given column or the last one.
  goto_to :
      (t : Term T) (v : IsValid t) (line : ℤ) (col row : ℕ)
      → goto_target t line ≡ pos row
      → row < t.grid.lines
      → Moved t v row (min col (t.grid.columns - 1)) (goto t line col)
  unfolding goto damage_cursor damage_point goto_target
  goto_to t v line col row target h =
      let column = min col (t.grid.columns - 1) in
      let (d, e, dv, ds, hit, old) =
        damage_line_lem t.damage v.row (cursor_column t) (cursor_column t) v.damage
          (omega (arith, v.entries, v.row_in)) in
      let (d', e', dv', ds', hit', old') =
        damage_line_lem d row column column dv (omega (arith, ds, v.entries)) in
      record {
        out = moved_to t d' row column;
        returns = rw (v.at_row, e, target, e') refl;
        valid = moved-IsValid t v d' row column dv' (ds' ∙ ds) h (omega (arith, v.column_in));
        at = refl;
        column_at = refl;
        no_pending = refl;
        same_rows = refl;
        same_mode = refl;
        same_region = refl;
        frame = record { lines = refl; columns = refl; limit = refl; saved = refl; tabs = refl };
        from = old' v.row (cursor_column t) (hit (cursor_column t) (omega arith) (omega arith));
        to = hit' column (omega arith) (omega arith);
        kept = λ l c k. old' l c (old l c k);
      }

  -- The lines that `goto` counts from and ends before: the screen's, and in origin mode the region's.
  abbrev pub first_row : (t : Term T) → IsValid t → ℕ
  first_row t v = if t.origin_mode then v.top else 0

  abbrev pub row_limit : (t : Term T) → IsValid t → ℕ
  row_limit t v = if t.origin_mode then v.bottom else t.grid.lines

  -- A line counted from the first one, kept inside these lines at the bottom and on the screen at the
  -- top.
  abbrev pub goto_row : (t : Term T) → IsValid t → ℤ → ℕ
  goto_row t v line = min (first_row t v + pos_part line - neg_part line) (row_limit t v - 1)

  goto_target-goto_row :
      (t : Term T) (v : IsValid t) (line : ℤ) → goto_target t line ≡ pos (goto_row t v line)
  unfolding goto_target
  goto_target-goto_row t v line = elim (Bool-cases t.origin_mode) [
    | inl on ↦ rw (on, v.start, v.end) (target_row line v.top v.bottom (omega (arith, v.some_line)))
    | inr off ↦ rw off (target_row line 0 t.grid.lines (omega (arith, v.row_in)))
  ]

  goto_row-bound : (t : Term T) (v : IsValid t) (line : ℤ) → goto_row t v line < t.grid.lines
  goto_row-bound t v line = elim (Bool-cases t.origin_mode) [
    | inl on ↦ rw on (omega (arith, v.some_line, v.bottom_in))
    | inr off ↦ rw off (omega (arith, v.row_in))
  ]

  -- On a valid terminal `goto` succeeds for every line and column and leaves a valid terminal: the
  -- cursor is at the line counted from the top of the screen, or of the region in origin mode, cut
  -- off at its bottom and at the top of the screen, and at the given column or the last one; the old
  -- and the new position are reported as damaged.
  pub goto_lem :
      (t : Term T) (v : IsValid t) (line : ℤ) (col : ℕ)
      → Moved t v (goto_row t v line) (min col (t.grid.columns - 1)) (goto t line col)
  goto_lem t v line col =
      goto_to t v line col (goto_row t v line) (goto_target-goto_row t v line)
        (goto_row-bound t v line)

  column_kept :
      (t : Term T) (v : IsValid t) → min (cursor_column t) (t.grid.columns - 1) ≡ cursor_column t
  column_kept t v = omega (arith, v.column_in)

  -- Without origin mode, moving up and down keeps the column, and stops at the first and at the last
  -- line of the screen.
  pub move_up-move_down :
      (t : Term T) (v : IsValid t) (n : ℕ)
      → t.origin_mode ≡ false
      → Moved t v (v.row - n) (cursor_column t) (move_up t n)
        × Moved t v (min (v.row + n) (t.grid.lines - 1)) (cursor_column t) (move_down t n)
  unfolding move_up move_down
  move_up-move_down t v n off = (
    subst (λ row. Moved t v row (cursor_column t) (move_up t n)) up
        (subst (λ c. Moved t v (goto_row t v (sub_line (cursor_line t) n)) c (move_up t n))
          (column_kept t v) (goto_lem t v (sub_line (cursor_line t) n) (cursor_column t))),
    subst (λ row. Moved t v row (cursor_column t) (move_down t n)) down
        (subst (λ c. Moved t v (goto_row t v (add_line (cursor_line t) n)) c (move_down t n))
          (column_kept t v) (goto_lem t v (add_line (cursor_line t) n) (cursor_column t))),
  )
    where
      up : goto_row t v (sub_line (cursor_line t) n) ≡ v.row - n
      up = rw (off, v.at_row) (above v.row n t.grid.lines v.row_in)
        where
          above :
              (row n lines : ℕ)
              → row < lines
              → min (0 + pos_part (sub_ℕ row n) - neg_part (sub_ℕ row n)) (lines - 1) ≡ row - n
          above row n lines h = ground arith

      down : goto_row t v (add_line (cursor_line t) n) ≡ min (v.row + n) (t.grid.lines - 1)
      down = rw (off, v.at_row) (omega arith)

  -- In origin mode, `goto_col` moves the cursor down as well, by the offset of the region: it counts
  -- the absolute line of the cursor from the top of the region again.
  pub goto_col_origin :
      (t : Term T) (v : IsValid t) (col : ℕ)
      → t.origin_mode ≡ true
      → Moved t v
          (min (v.top + v.row) (v.bottom - 1))
          (min col (t.grid.columns - 1))
          (goto_col t col)
  unfolding goto_col
  goto_col_origin t v col on =
      subst (λ row. Moved t v row (min col (t.grid.columns - 1)) (goto_col t col))
        (rw (on, v.at_row) (omega arith)) (goto_lem t v (cursor_line t) col)
