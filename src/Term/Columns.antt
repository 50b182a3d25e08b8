-- ===== src/Term/Columns.antt =====
-- `deccolm` of alacritty_terminal/src/term/mod.rs, with `reset_region` of alacritty_terminal/src/grid/mod.rs:
-- the effects of a change of the number of columns.
use alacritty_pro.Prelude.{
  ℕ, ◌-◌, ◌≤◌, ◌<◌, ◌≡◌, refl, ◌∙◌, arith, true, Option, none, some, >>=-step, inl, inr,
}
use alacritty_pro.Prelude.Int.{pos, ltb_ℤ, leb_ℤ}
use alacritty_pro.Row.{GridCell}
use alacritty_pro.Row.Occupied.{IsLawful}
use alacritty_pro.Storage.Access.{SameShape-IsValid}
use alacritty_pro.Grid.Defs.{Grid, reset_region}
use alacritty_pro.Grid.Lines.{row_at}
use alacritty_pro.Grid.Up
use alacritty_pro.Grid.Up.{SameScreen}
use alacritty_pro.Grid.Region.{blank_of, reset_region_lines}
use alacritty_pro.Term.{Term}
use alacritty_pro.Term.Lines.{deccolm}
use alacritty_pro.Term.Safe.{IsValid, Safe, regridded}
use alacritty_pro.Term.Cursors.{set_scrolling_region-Safe}

module _ {T : Type 0} ⦃cell : GridCell T⦄ where
  -- A grid whose lines `a` up to `e` are blank, the others as before.
  pub record ResetRegion (g : Grid T) (a e : ℕ) (r : Option (Grid T)) : Type 0 where
    pub out : Grid T
    pub returns : r ≡ some out
    pub valid : Up.IsValid out
    pub screen : SameScreen g out
    pub cleared : (q : ℕ) → g.lines - e ≤ q → q < g.lines - a → row_at out.raw q ≡ some (blank_of g)
    pub below : (q : ℕ) → q < g.lines - e → row_at out.raw q ≡ row_at g.raw q
    pub above : (q : ℕ) → g.lines - a ≤ q → row_at out.raw q ≡ row_at g.raw q

  pub reset_region_lem :
      (lawful : IsLawful cell) (g : Grid T) (a e : ℕ)
      → Up.IsValid g
      → a < g.lines
      → a ≤ e
      → e ≤ g.lines
      → ResetRegion g a e (reset_region g (pos a) (pos e))
  unfolding reset_region
  reset_region_lem lawful g a e v first h l =
      let r =
        reset_region_lines lawful g g.raw a e v.some_column v.raw h (omega (arith, v.visible))
          v.rows in
      let top : ltb_ℤ (pos a) (pos g.lines) ≡ true = ground arith in
      let bottom : leb_ℤ (pos e) (pos g.lines) ≡ true = ground arith in
      record {
        out = record g { raw = r.out };
        returns = rw (top, bottom) (>>=-step _ _ r.returns refl);
        valid = record {
          raw = SameShape-IsValid r.shape v.raw;
          visible = r.shape.same_visible ∙ v.visible;
          some_column = v.some_column;
          rows = r.all;
          limit = omega (arith, r.shape, v.limit);
        };
        screen = record { lines = refl; columns = refl; cursor = refl; saved = refl; limit = refl };
        cleared = λ q x y. r.cleared q (omega (arith, v.visible)) (omega (arith, v.visible));
        below = λ q x. r.kept q (inl (omega (arith, v.visible)));
        above = λ q x. r.kept q (inr (omega (arith, v.visible)));
      }

  pub deccolm-Safe : IsLawful cell → (t : Term T) → IsValid t → Safe (deccolm t)
  unfolding deccolm
  deccolm-Safe lawful t v =
      let set = set_scrolling_region-Safe t 0 none v in
      let w = set.valid in
      let r =
        reset_region_lem lawful set.out.grid 0 set.out.grid.lines w.grid
          (omega (arith, w.motion.row_in)) (omega arith) (omega arith) in
      record {
        out = _;
        returns = >>=-step _ _ set.returns (>>=-step _ _ r.returns refl);
        valid = regridded set.out r.out _ _ w r.screen r.valid;
      }
