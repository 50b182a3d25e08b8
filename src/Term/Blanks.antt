-- ===== src/Term/Blanks.antt =====
-- Inserting and deleting lines at the cursor scrolls the region from the cursor's line on.
use alacritty_pro.Prelude.{
  ℕ, ◌-◌, ◌≤◌, ◌<◌, min, ◌≡◌, refl, ◌∙◌, ap, ap₂, arith, Bool, true, ◌&&◌, not, Option, some, leb,
  >>=-step, assert, le→leb, if-on,
}
use alacritty_pro.Prelude.Int.{pos, ◌-ℤ◌}
use alacritty_pro.Row.{GridCell}
use alacritty_pro.Row.Occupied.{IsLawful}
use alacritty_pro.Grid.Defs
use alacritty_pro.Grid.Defs.{Grid, Region}
use alacritty_pro.Grid.Region.{RegionUp, RegionDown, scroll_up-RegionUp}
use alacritty_pro.Grid.Fixed.{scroll_down-RegionDown}
use alacritty_pro.Term.{Term, cursor_line}
use alacritty_pro.Term.Lines.{
  as_usize, in_region, scroll_up_relative, scroll_down_relative, insert_blank_lines, delete_lines,
}
use alacritty_pro.Term.Safe.{IsValid, height}

both : {a b : Bool} → a ≡ true → b ≡ true → (a && b) ≡ true
both {a} {b} e f = rw (e, f) refl

positive : (a b : ℕ) → 0 < a → 0 < b → not (leb (min a b) 0) ≡ true
positive a b h k = ground arith

asserted : {b : Bool} → b ≡ true → assert b ≡ some tt
asserted {b} e = rw e refl

module _ {T : Type 0} ⦃cell : GridCell T⦄ (lawful : IsLawful cell) (t : Term T) (v : IsValid t)
    (inside : in_region t.scroll_region (cursor_line t) ≡ true) where
  -- The grid that scrolling the lines from the cursor's to the end of the region gives.
  abbrev scrolled : (Grid T → Region → ℕ → Option (Grid T)) → ℕ → Option (Grid T)
  scrolled scroll n =
      scroll t.grid (record { start = pos v.motion.row; end = pos v.motion.bottom }) n

  in_region_rows : (v.motion.top ≤ v.motion.row) × (v.motion.row < v.motion.bottom)
  in_region_rows =
      rows v.motion.top v.motion.bottom v.motion.row
        (rw (v.motion.start, v.motion.end, v.motion.at_row) at inside)
    where
      rows :
          (a e row : ℕ)
          → in_region (record { start = pos a; end = pos e }) (pos row) ≡ true
          → (a ≤ row) × (row < e)
      rows a e row h = ground arith

  region_eq :
      ◌≡◌ {A = Region}
        (record { start = cursor_line t; end = t.scroll_region.end })
        (record { start = pos v.motion.row; end = pos v.motion.bottom })
  region_eq = ap₂ (λ s e. record { start = s; end = e }) v.motion.at_row v.motion.end

  down_count :
      (lines : ℕ)
      → min
          (min lines (as_usize (t.scroll_region.end -ℤ t.scroll_region.start)))
          (as_usize (t.scroll_region.end -ℤ cursor_line t))
        ≡ min lines (v.motion.bottom - v.motion.row)
  down_count lines =
      let m = v.motion in
      let (lo, hi) = in_region_rows in
      rw
        (
          m.start,
          m.end,
          m.at_row,
          height m.top m.bottom m.ordered,
          height m.row m.bottom (omega arith),
        )
        (omega arith)

  up_count :
      (lines : ℕ)
      → min
          (min (t.grid.lines - as_usize (cursor_line t)) lines)
          (as_usize (t.scroll_region.end -ℤ t.scroll_region.start))
        ≡ min (min (t.grid.lines - v.motion.row) lines) (v.motion.bottom - v.motion.top)
  up_count lines =
      let m = v.motion in
      ap₂ min (ap (λ l. min (t.grid.lines - as_usize l) lines) m.at_row)
        (rw (m.start, m.end) (height m.top m.bottom m.ordered))

  -- On a well-formed screen whose cells keep the promises of the rows, with the cursor inside the region,
  -- inserting lines succeeds, and its grid is that of the region's lines from the cursor's on scrolled down by as many, at most all of them.
  pub insert_blank_lines_lem :
      (lines : ℕ)
      → (down : RegionDown t.grid v.motion.row v.motion.bottom
          (min lines (v.motion.bottom - v.motion.row))
          (scrolled Defs.scroll_down (min lines (v.motion.bottom - v.motion.row))))
        × (out : Term T) × (insert_blank_lines t lines ≡ some out)
        × (out.grid ≡ down.out)
  unfolding insert_blank_lines scroll_down_relative
  insert_blank_lines_lem lines =
      let m = v.motion in
      let (lo, hi) = in_region_rows in
      let n = min lines (m.bottom - m.row) in
      let down =
        scroll_down-RegionDown lawful t.grid m.row m.bottom n v.grid (omega arith) m.bottom_in in
      let done =
        ap₂ (λ r k. Defs.scroll_down t.grid r k) region_eq (down_count lines) ∙ down.returns in
      (
        down,
        _,
        if-on (in_region t.scroll_region (cursor_line t)) _ (some t) _ inside
            (>>=-step _ _ done refl),
        refl,
      )

  -- On a well-formed screen whose cells keep the promises of the rows, with the cursor inside the region,
  -- but not on the topmost line of the screen, deleting some lines succeeds, and its grid is that of the region's lines from the cursor's on scrolled
  -- up by as many, at most the height of the region.
  pub delete_lines_lem :
      (lines : ℕ)
      → 0 < v.motion.row
      → 0 < lines
      → (up : RegionUp t.grid v.motion.row v.motion.bottom
          (min (min (t.grid.lines - v.motion.row) lines) (v.motion.bottom - v.motion.top))
          (scrolled Defs.scroll_up
            (min (min (t.grid.lines - v.motion.row) lines) (v.motion.bottom - v.motion.top))))
        × (out : Term T) × (delete_lines t lines ≡ some out)
        × (out.grid ≡ up.out)
  unfolding delete_lines scroll_up_relative
  delete_lines_lem lines first some_lines =
      let m = v.motion in
      let (lo, hi) = in_region_rows in
      let n = min (min (t.grid.lines - m.row) lines) (m.bottom - m.top) in
      let up =
        scroll_up-RegionUp lawful t.grid m.row m.bottom n v.grid first (omega arith) m.bottom_in in
      let done = ap₂ (λ r k. Defs.scroll_up t.grid r k) region_eq (up_count lines) ∙ up.returns in
      let allowed : leb (as_usize (cursor_line t)) t.grid.lines ≡ true =
        rw m.at_row (le→leb m.row t.grid.lines (omega (arith, m.row_in))) in
      let some_left : (not (leb (min (t.grid.lines - as_usize (cursor_line t)) lines) 0)
            && in_region t.scroll_region (cursor_line t))
          ≡ true =
        both
          (ap (λ l. not (leb (min (t.grid.lines - as_usize l) lines) 0)) m.at_row
            ∙ positive (t.grid.lines - m.row) lines (omega (arith, m.row_in)) some_lines)
          inside in
      (
        up,
        _,
        >>=-step _ _ (asserted allowed) (if-on _ _ (some t) _ some_left (>>=-step _ _ done refl)),
        refl,
      )
