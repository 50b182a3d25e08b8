-- ===== src/Term/Safe.antt =====
-- The handlers that scroll keep the screen well-formed, and none of them panics.
use alacritty_pro.Prelude.{
  ℕ, zero, suc, ◌-◌, ◌≤◌, ◌<◌, min, ◌≡◌, refl, sym, ◌∙◌, ap, arith, Option, some, >>=-step, ◌>>=◌,
  length,
}
use alacritty_pro.Prelude.Int.{pos, ◌-ℤ◌}
use alacritty_pro.Row.{GridCell}
use alacritty_pro.Row.Occupied.{IsLawful}
use alacritty_pro.Grid.Defs
use alacritty_pro.Grid.Defs.{Grid, Region, Cursor}
use alacritty_pro.Grid.Up
use alacritty_pro.Grid.Up.{ScrolledUp, SameScreen}
use alacritty_pro.Grid.Scroll.{scroll_up-ScrolledUp}
use alacritty_pro.Grid.Region.{scroll_up-RegionUp}
use alacritty_pro.Grid.Fixed.{scroll_down-RegionDown}
use alacritty_pro.Term.{Term}
use alacritty_pro.Term.Motion
use alacritty_pro.Term.Motion.{Frame, Moved}
use alacritty_pro.Term.Lines.{
  as_usize, mark_fully_damaged, scroll_up_relative, scroll_down_relative,
}

pub height : (a e : ℕ) → a ≤ e → as_usize (pos e -ℤ pos a) ≡ e - a
height a e h = ground arith

module _ {T : Type 0} ⦃cell : GridCell T⦄ where
  -- A well-formed screen: the cursor, the region and the damage are (`Motion.IsValid`), the grid is, the
  -- saved cursor is on the screen, each column has its tab stop, and there are two columns at least.
  pub record IsValid (t : Term T) : Type 0 where
    pub motion : Motion.IsValid t
    pub grid : Up.IsValid t.grid
    pub saved_row : ℕ
    pub saved_at : t.grid.saved_cursor.point.line ≡ pos saved_row
    pub saved_row_in : saved_row < t.grid.lines
    pub saved_column_in : t.grid.saved_cursor.point.column < t.grid.columns
    pub tabs : length t.tabs.tabs ≡ t.grid.columns
    pub columns : 2 ≤ t.grid.columns

  -- A handler that does not panic and leaves a well-formed screen.
  pub record Safe (m : Option (Term T)) : Type 0 where
    pub out : Term T
    pub returns : m ≡ some out
    pub valid : IsValid out

  -- Two handlers in a row.
  pub Safe-bind :
      (m : Option (Term T)) (f : Term T → Option (Term T))
      → Safe m
      → ((t : Term T) → IsValid t → Safe (f t))
      → Safe (m >>= f)
  Safe-bind m f first next =
      let second = next first.out first.valid in
      record {
        out = second.out;
        returns = >>=-step _ _ first.returns second.returns;
        valid = second.valid;
      }

  -- The state after a handler has put another grid, with the same size and cursors, in place.
  pub regridded :
      (t : Term T) (h : Grid T) (selection : _) (vi : _)
      → IsValid t
      → SameScreen t.grid h
      → Up.IsValid h
      → IsValid
          (mark_fully_damaged (record t { grid = h; selection = selection; vi_mode_cursor = vi }))
  regridded t h selection vi v s w = record {
    motion = record {
      damage = record { numbered = v.motion.damage.numbered };
      entries = v.motion.entries ∙ sym s.lines;
      row = v.motion.row;
      at_row = ap (λ (c : Cursor T). c.point.line) s.cursor ∙ v.motion.at_row;
      row_in = omega (arith, s.lines, v.motion.row_in);
      column_in =
          omega
            (arith, ap (λ (c : Cursor T). c.point.column) s.cursor, s.columns, v.motion.column_in);
      top = v.motion.top;
      bottom = v.motion.bottom;
      start = v.motion.start;
      end = v.motion.end;
      ordered = v.motion.ordered;
      some_line = v.motion.some_line;
      bottom_in = omega (arith, s.lines, v.motion.bottom_in);
    };
    grid = w;
    saved_row = v.saved_row;
    saved_at = ap (λ (c : Cursor T). c.point.line) s.saved ∙ v.saved_at;
    saved_row_in = omega (arith, s.lines, v.saved_row_in);
    saved_column_in =
        omega (arith, ap (λ (c : Cursor T). c.point.column) s.saved, s.columns, v.saved_column_in);
    tabs = v.tabs ∙ sym s.columns;
    columns = omega (arith, s.columns, v.columns);
  }

  -- A grid operation that does not panic and keeps the grid valid and its frame.
  record Regridded (g : Grid T) (m : Option (Grid T)) : Type 0 where
    pub out : Grid T
    pub returns : m ≡ some out
    pub screen : SameScreen g out
    pub valid : Up.IsValid out

  grid_up :
      (lawful : IsLawful cell) (g : Grid T) (a e n : ℕ)
      → Up.IsValid g
      → a ≤ e
      → e ≤ g.lines
      → n ≤ e
      → Regridded g (Defs.scroll_up g (record { start = pos a; end = pos e }) n)
  grid_up lawful g zero e n v h l k =
      let r = scroll_up-ScrolledUp lawful g e n v k l in
      record { out = r.out; returns = r.returns; screen = r.screen; valid = r.valid }
  grid_up lawful g (suc a) e n v h l k =
      let r = scroll_up-RegionUp lawful g (suc a) e n v (omega arith) h l in
      record { out = r.out; returns = r.returns; screen = r.screen; valid = r.valid }

  -- Scrolling from a line of the region, or its end, to its end.
  pub scroll_up_relative-Safe :
      (lawful : IsLawful cell) (t : Term T) (v : IsValid t) (a lines : ℕ)
      → a ≤ v.motion.bottom
      → Safe (scroll_up_relative t (pos a) lines)
  unfolding scroll_up_relative
  scroll_up_relative-Safe lawful t v a lines h =
      let m = v.motion in
      let n = min lines (m.bottom - m.top) in
      let r = grid_up lawful t.grid a m.bottom n v.grid h m.bottom_in (omega arith) in
      let done : Defs.scroll_up t.grid (record { start = pos a; end = t.scroll_region.end })
            (min lines (as_usize (t.scroll_region.end -ℤ t.scroll_region.start)))
          ≡ some r.out =
        rw (m.start, m.end, height m.top m.bottom m.ordered) r.returns in
      record {
        out = _;
        returns = >>=-step _ _ done refl;
        valid = regridded t r.out _ _ v r.screen r.valid;
      }

  pub scroll_down_relative-Safe :
      (lawful : IsLawful cell) (t : Term T) (v : IsValid t) (a lines : ℕ)
      → a ≤ v.motion.bottom
      → Safe (scroll_down_relative t (pos a) lines)
  unfolding scroll_down_relative
  scroll_down_relative-Safe lawful t v a lines h =
      let m = v.motion in
      let n = min (min lines (m.bottom - m.top)) (m.bottom - a) in
      let r = scroll_down-RegionDown lawful t.grid a m.bottom n v.grid h m.bottom_in in
      let done : Defs.scroll_down t.grid (record { start = pos a; end = t.scroll_region.end })
            (min (min lines (as_usize (t.scroll_region.end -ℤ t.scroll_region.start)))
              (as_usize (t.scroll_region.end -ℤ pos a)))
          ≡ some r.out =
        rw (m.start, m.end, height m.top m.bottom m.ordered, height a m.bottom h) r.returns in
      record {
        out = _;
        returns = >>=-step _ _ done refl;
        valid = regridded t r.out _ _ v r.screen r.valid;
      }
