-- ===== src/Grid/Down.antt =====
-- `scroll_down` of alacritty_terminal/src/grid/mod.rs on lines of the screen, with and without a
-- history.
use alacritty_pro.Prelude.{
  ℕ, zero, suc, ◌+◌, ◌-◌, ◌≤◌, ◌<◌, ◌≡◌, refl, ◌∙◌, ap, true, false, Option, some, arith, ◌==◌,
  >>=-step,
}
use alacritty_pro.Prelude.Int.{ℤ, pos, leb_ℤ, ◌-ℤ◌}
use alacritty_pro.Row
use alacritty_pro.Row.{Row, GridCell}
use alacritty_pro.Row.Occupied.{IsLawful}
use alacritty_pro.Storage
use alacritty_pro.Storage.{Storage}
use alacritty_pro.Storage.View.{ring, length-ring}
use alacritty_pro.Storage.Access.{SameShape-IsValid, SameShape-trans}
use alacritty_pro.Grid.Defs.{
  Grid, scroll_down, reset_lines, reset_line, for_lines_rev, for_down, swap_up,
}
use alacritty_pro.Grid.Lines.{AllRows, Cleared, reset_line-Cleared, SameShape-refl}
use alacritty_pro.Grid.Up.{IsLine, IsValid, blank-IsLine, reset-IsLine, between}
use alacritty_pro.Grid.Rounds.{LoweredLines, swap_up-LoweredLines}
use alacritty_pro.Grid.Region.{RegionDown, blank_of, part_test, reset_region_lines}

whole_down_test : (a e k : ℕ) → a ≤ e → e - a ≤ k → leb_ℤ (pos e -ℤ pos a) (pos k) ≡ true
whole_down_test a e k h w = ground arith

module _ {T : Type 0} ⦃cell : GridCell T⦄ where
  -- Resetting `n` lines of the screen, from line `l + n - 1` up to line `l`.
  reset_rev_step :
      (P : Row T → Type 0) (blank : Row T) (template : T) (n l : ℕ) (s : Storage T)
      → l + suc n ≤ s.visible_lines
      → (step : Cleared P blank
          (s.visible_lines - (l + n) - 1)
          (s.visible_lines - (l + n))
          s
          (reset_line template (pos (l + n)) s))
      → Cleared P blank
          (step.out.visible_lines - l - n)
          (step.out.visible_lines - l)
          step.out
          (for_down (reset_line template) n (pos l) step.out)
      → Cleared P blank
          (s.visible_lines - l - suc n)
          (s.visible_lines - l)
          s
          (for_down (reset_line template) (suc n) (pos l) s)
  unfolding for_down
  reset_rev_step P blank template n l s h step rest = record {
    out = rest.out;
    returns = >>=-step _ _ step.returns rest.returns;
    shape = SameShape-trans step.shape rest.shape;
    cleared = λ q a b. ground (arith, step.shape, rest.cleared q, rest.kept q, step.cleared q);
    kept = λ q a. ground (arith, step.shape, rest.kept q, step.kept q);
    all = rest.all;
  }

  reset_rev_lem :
      (P : Row T → Type 0) (blank : Row T) (template : T) (n l : ℕ) (s : Storage T)
      → ((row : Row T) → P row → Row.reset row template ≡ some blank)
      → P blank
      → Storage.View.IsValid s
      → l + n ≤ s.visible_lines
      → AllRows P s
      → Cleared P blank
          (s.visible_lines - l - n)
          (s.visible_lines - l)
          s
          (for_down (reset_line template) n (pos l) s)
  unfolding for_down
  reset_rev_lem P blank template zero l s can pb v h all = record {
    out = s;
    returns = refl;
    shape = SameShape-refl s;
    cleared = λ q a b. absurd (omega arith);
    kept = λ q a. refl;
    all = all;
  }
  reset_rev_lem P blank template (suc n) l s can pb v h all =
      let step = reset_line-Cleared P blank template (l + n) s can pb v (omega arith) all in
      reset_rev_step P blank template n l s h step (
        reset_rev_lem P blank template n l step.out can pb (SameShape-IsValid step.shape v)
          (omega (arith, step.shape)) step.all)

  whole_down :
      (g : Grid T) (a e k : ℕ) (v : IsValid g)
      → a ≤ e
      → e ≤ g.lines
      → e - a ≤ k
      → Cleared
          (IsLine g.columns)
          (blank_of g)
          (g.raw.visible_lines - a - (e - a))
          (g.raw.visible_lines - a)
          g.raw
          (reset_lines g.cursor.template (pos a) (pos e) g.raw)
      → RegionDown g a e k (scroll_down g (record { start = pos a; end = pos e }) k)
  unfolding scroll_down
  whole_down g a e k v h l w cleared = record {
    out = record g { raw = cleared.out };
    returns = rw (whole_down_test a e k h w) (>>=-step _ _ cleared.returns refl);
    valid = record {
      raw = SameShape-IsValid cleared.shape v.raw;
      visible = cleared.shape.same_visible ∙ v.visible;
      some_column = v.some_column;
      rows = cleared.all;
      limit = omega (arith, cleared.shape, v.limit);
    };
    screen = record { lines = refl; columns = refl; cursor = refl; saved = refl; limit = refl };
    same_len = cleared.shape.same_len;
    moved = λ q x y. absurd (omega arith);
    entered = λ q x y z. cleared.cleared q (omega (arith, v.visible)) (omega (arith, v.visible));
    kept = λ q x y. cleared.kept q (omega (arith, v.visible));
  }

  -- With a history, the lines of the region are swapped down, from the last one on.
  rounds_down :
      (body : ℤ → Storage T → Option (Storage T)) (a e : ℕ) (s : Storage T)
      → for_lines_rev body (pos a) (pos e) s ≡ for_down body (e - a) (pos a) s
  unfolding for_lines_rev
  rounds_down body a e s = ap (λ n. for_down body n (pos a) s) (between a e)

  part_down :
      (g : Grid T) (a e k : ℕ) (v : IsValid g)
      → (g.max_scroll_limit == 0) ≡ false
      → e ≤ g.lines
      → a + k < e
      → (lowered : LoweredLines
          (IsLine g.columns)
          k
          a
          (e - (a + k))
          g.raw
          (for_down (swap_up k) (e - (a + k)) (pos (a + k)) g.raw))
      → Cleared
          (IsLine g.columns)
          (blank_of g)
          (lowered.out.visible_lines - a - (a + k - a))
          (lowered.out.visible_lines - a)
          lowered.out
          (for_down (reset_line g.cursor.template) (a + k - a) (pos a) lowered.out)
      → RegionDown g a e k (scroll_down g (record { start = pos a; end = pos e }) k)
  unfolding scroll_down
  part_down g a e k v limited l w lowered cleared = record {
    out = record g { raw = cleared.out };
    returns =
        rw (part_test a e k w, limited)
          (>>=-step _ _ (rounds_down (swap_up k) (a + k) e g.raw ∙ lowered.returns) (
            >>=-step _ _
              (rounds_down (reset_line g.cursor.template) a (a + k) lowered.out ∙ cleared.returns)
              refl));
    valid = record {
      raw = SameShape-IsValid cleared.shape (SameShape-IsValid lowered.shape v.raw);
      visible = omega (arith, cleared.shape, lowered.shape, v.visible);
      some_column = v.some_column;
      rows = cleared.all;
      limit = omega (arith, cleared.shape, lowered.shape, v.limit);
    };
    screen = record { lines = refl; columns = refl; cursor = refl; saved = refl; limit = refl };
    same_len = omega (arith, cleared.shape, lowered.shape);
    moved = λ q x y.
        cleared.kept q (omega (arith, lowered.shape, v.visible))
        ∙ lowered.moved q (omega (arith, v.visible)) (omega (arith, v.visible));
    entered = λ q x y z.
        cleared.cleared q (omega (arith, lowered.shape, v.visible))
          (omega (arith, lowered.shape, v.visible));
    kept = λ q x y.
        ground (arith, lowered.shape, v.visible, cleared.kept q, lowered.above q, lowered.below q);
  }

  -- `scroll_down` of a region that is not higher than what it scrolls.
  pub full_down :
      (lawful : IsLawful cell) (g : Grid T) (a e k : ℕ)
      → IsValid g
      → a ≤ e
      → e ≤ g.lines
      → e ≤ a + k
      → RegionDown g a e k (scroll_down g (record { start = pos a; end = pos e }) k)
  full_down lawful g a e k v h l whole = whole_down g a e k v h l (omega arith) (
      reset_region_lines lawful g g.raw a e v.some_column v.raw h (omega (arith, v.visible)) v.rows)

  -- `scroll_down` of a higher region, where the grid has a history.
  pub limited_down :
      (lawful : IsLawful cell) (g : Grid T) (a e k : ℕ)
      → IsValid g
      → (g.max_scroll_limit == 0) ≡ false
      → e ≤ g.lines
      → a + k < e
      → RegionDown g a e k (scroll_down g (record { start = pos a; end = pos e }) k)
  limited_down lawful g a e k v limited l part =
      let lowered =
        swap_up-LoweredLines (IsLine g.columns) k a (e - (a + k)) g.raw v.raw
          (omega (arith, v.visible)) in
      part_down g a e k v limited l part lowered (
        reset_rev_lem (IsLine g.columns) (blank_of g) g.cursor.template (a + k - a) a lowered.out
          (reset-IsLine lawful g.columns g.cursor.template v.some_column)
          (blank-IsLine g.columns g.cursor.template) (SameShape-IsValid lowered.shape v.raw)
          (omega (arith, lowered.shape, v.visible)) (lowered.all v.rows))
