-- ===== src/Term/Lines.antt =====
-- The handlers of `Term` in alacritty_terminal/src/term/mod.rs that scroll, insert and delete lines, with
-- the selection and the cursor of the vi mode that move along.
use alacritty_pro.Prelude.{
  ℕ, suc, ◌-◌, ◌^◌, min, Bool, true, ◌&&◌, not, Option, none, some, leb, if◌then◌else◌, ◌>>=◌, ◌>>◌,
  assert,
}
use alacritty_pro.Prelude.Int.{ℤ, pos, negsuc, ◌-ℤ◌, neg, min_ℤ, max_ℤ, ltb_ℤ, leb_ℤ, eq_ℤ}
use alacritty_pro.Index.{Point, add_line, sub_line}
use alacritty_pro.Row.{GridCell}
use alacritty_pro.Grid.Defs
use alacritty_pro.Grid.Defs.{Grid, Region, dimensions, reset_region}
use alacritty_pro.Selection
use alacritty_pro.Selection.{Selection}
use alacritty_pro.Term.{
  Term, place, cursor_line, cursor_column, damage_cursor, carriage_return, set_scrolling_region,
}

-- `as usize` of an `i32`.
abbrev pub as_usize : ℤ → ℕ
as_usize (pos n) = n
as_usize (negsuc n) = 2 ^ 64 - suc n

-- `Range::contains`
abbrev pub in_region : Region → ℤ → Bool
in_region region line = leb_ℤ region.start line && ltb_ℤ line region.end

unfoldable pub lower_vi_cursor : Region → ℕ → Point → Point
lower_vi_cursor region lines p =
    if in_region region p.line
    then record p { line = min_ℤ (add_line p.line lines) (sub_line region.end 1) }
    else p

unfoldable pub raise_vi_cursor : Region → ℕ → ℕ → Point → Point
raise_vi_cursor region display_offset lines p =
    let viewport_top = neg (pos display_offset) in
    let top = if eq_ℤ region.start (pos 0) then viewport_top else region.start in
    if leb_ℤ top p.line && ltb_ℤ p.line region.end
    then record p { line = max_ℤ (sub_line p.line lines) top }
    else p

module _ {T : Type 0} where
  abbrev pub mark_fully_damaged : Term T → Term T
  mark_fully_damaged t = record t { damage = record t.damage { full = true } }

  unfoldable pub rotate_selection : Term T → Region → ℤ → Option Selection
  unfolding Selection.rotate
  rotate_selection t region delta =
      t.selection >>= (λ s. Selection.rotate s (dimensions t.grid) region delta)

  -- The selection without one that intersects a range of lines.
  unfoldable pub keep_selection : Term T → Option ℤ → Option ℤ → Option Selection
  unfolding Selection.intersects_range
  keep_selection t top bottom =
      t.selection >>= (λ s. if Selection.intersects_range s top bottom then none else some s)

  -- A motion of the cursor by whole lines that reports both its places.
  unfoldable pub step_line : Term T → ℤ → Option (Term T)
  unfolding damage_cursor
  step_line t line = do
    t1 ← damage_cursor t
    damage_cursor (place t1 (record { line = line; column = cursor_column t1 }))

module _ {T : Type 0} ⦃cell : GridCell T⦄ where
  unfoldable pub scroll_down_relative : Term T → ℤ → ℕ → Option (Term T)
  unfolding rotate_selection lower_vi_cursor Defs.scroll_down
  scroll_down_relative t origin lines =
      let height = min lines (as_usize (t.scroll_region.end -ℤ t.scroll_region.start)) in
      let n = min height (as_usize (t.scroll_region.end -ℤ origin)) in
      let region : Region = record { start = origin; end = t.scroll_region.end } in
      Defs.scroll_down t.grid region n >>= (λ grid. some (
        mark_fully_damaged (record t {
          grid = grid;
          selection = rotate_selection t region (neg (pos n));
          vi_mode_cursor = lower_vi_cursor region n t.vi_mode_cursor;
        })))

  unfoldable pub scroll_up_relative : Term T → ℤ → ℕ → Option (Term T)
  unfolding rotate_selection raise_vi_cursor Defs.scroll_up
  scroll_up_relative t origin lines =
      let n = min lines (as_usize (t.scroll_region.end -ℤ t.scroll_region.start)) in
      let region : Region = record { start = origin; end = t.scroll_region.end } in
      Defs.scroll_up t.grid region n >>= (λ grid. some (
        mark_fully_damaged (record t {
          grid = grid;
          selection = rotate_selection t region (pos n);
          vi_mode_cursor = raise_vi_cursor region grid.display_offset n t.vi_mode_cursor;
        })))

  unfoldable pub scroll_up : Term T → ℕ → Option (Term T)
  unfolding scroll_up_relative
  scroll_up t lines = scroll_up_relative t t.scroll_region.start lines

  unfoldable pub scroll_down : Term T → ℕ → Option (Term T)
  unfolding scroll_down_relative
  scroll_down t lines = scroll_down_relative t t.scroll_region.start lines

  unfoldable pub insert_blank_lines : Term T → ℕ → Option (Term T)
  unfolding scroll_down_relative
  insert_blank_lines t lines =
      let inserted = scroll_down_relative t (cursor_line t) lines in
      if in_region t.scroll_region (cursor_line t) then inserted else some t

  unfoldable pub delete_lines : Term T → ℕ → Option (Term T)
  unfolding scroll_up_relative
  delete_lines t lines =
      let origin = cursor_line t in
      let n = min (t.grid.lines - as_usize origin) lines in
      let deleted = scroll_up_relative t origin n in
      assert (leb (as_usize origin) t.grid.lines)
      >> (if not (leb n 0) && in_region t.scroll_region origin then deleted else some t)

  unfoldable pub linefeed : Term T → Option (Term T)
  unfolding scroll_up step_line
  linefeed t =
      let next = add_line (cursor_line t) 1 in
      let scrolled = scroll_up t 1 in
      let stepped = step_line t next in
      if eq_ℤ next t.scroll_region.end
      then scrolled
      else if ltb_ℤ next (pos t.grid.lines)
      then stepped
      else some t

  unfoldable pub newline : Term T → Option (Term T)
  unfolding linefeed carriage_return
  newline t = do t' ← linefeed t; if t'.line_feed_new_line then carriage_return t' else some t'

  unfoldable pub reverse_index : Term T → Option (Term T)
  unfolding scroll_down step_line
  reverse_index t =
      let scrolled = scroll_down t 1 in
      let stepped = step_line t (max_ℤ (sub_line (cursor_line t) 1) (pos 0)) in
      if eq_ℤ (cursor_line t) t.scroll_region.start then scrolled else stepped

  unfoldable pub deccolm : Term T → Option (Term T)
  unfolding set_scrolling_region reset_region
  deccolm t = do
    t1 ← set_scrolling_region t 1 none
    grid ← reset_region t1.grid (pos 0) (pos t1.grid.lines)
    some (mark_fully_damaged (record t1 { grid = grid }))
