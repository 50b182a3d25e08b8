-- ===== src/Grid/Region.antt =====
-- Scrolling a part of the screen: `scroll_up` of a region that does not start at the top of the screen,
-- and `scroll_down`, of alacritty_terminal/src/grid/mod.rs.
use alacritty_pro.Prelude.{
  ℕ, ◌+◌, ◌-◌, ◌≤◌, ◌<◌, ◌≡◌, refl, ◌∙◌, ap, true, false, Option, some, arith, ◌==◌, if◌then◌else◌,
  le_or_lt, min, inl, inr, ◌⊎◌, >>=-step, ◌&&◌, not,
}
use alacritty_pro.Prelude.Int.{pos, leb_ℤ, eq_ℤ, ◌-ℤ◌}
use alacritty_pro.Row.{Row, GridCell}
use alacritty_pro.Row.Occupied.{IsLawful, blank_row}
use alacritty_pro.Storage
use alacritty_pro.Storage.{Storage}
use alacritty_pro.Storage.View.{ring, length-ring}
use alacritty_pro.Storage.Access.{SameShape-IsValid}
use alacritty_pro.Grid.Defs.{Grid, scroll_up, reset_lines, reset_line, for_lines, for_up, swap_down}
use alacritty_pro.Grid.Lines.{row_at, AllRows, Cleared, reset_lines_lem}
use alacritty_pro.Grid.Up.{IsLine, IsValid, SameScreen, blank-IsLine, reset-IsLine, between}
use alacritty_pro.Grid.Rounds.{up_line, RaisedLines, swap_down-RaisedLines}

whole_test :
    (a e k : ℕ)
    → 0 < a
    → a ≤ e
    → e - a ≤ k
    → (leb_ℤ (pos e -ℤ pos a) (pos k) && not (eq_ℤ (pos a) (pos 0))) ≡ true
whole_test a e k top h w = ground arith

pub part_test : (a e k : ℕ) → a + k < e → leb_ℤ (pos e -ℤ pos a) (pos k) ≡ false
part_test a e k w = ground arith

top_test : (a : ℕ) → 0 < a → eq_ℤ (pos a) (pos 0) ≡ false
top_test a h = ground arith

module _ {T : Type 0} ⦃cell : GridCell T⦄ where
  abbrev pub blank_of : Grid T → Row T
  blank_of g = blank_row g.columns g.cursor.template

  -- The grid after scrolling its lines `a` up to `e` by `k` lines, up or down, read from the bottommost
  -- line up: the `k` lines that come in, or the whole region if it is not higher than that, are blank,
  -- the others are those `k` lines away, and the lines outside the region are as before.
  pub record RegionUp (g : Grid T) (a e k : ℕ) (r : Option (Grid T)) : Type 0 where
    pub out : Grid T
    pub returns : r ≡ some out
    pub valid : IsValid out
    pub screen : SameScreen g out
    pub same_len : out.raw.len ≡ g.raw.len
    pub moved :
        (q : ℕ) → g.lines - e + k ≤ q → q < g.lines - a → row_at out.raw q ≡ row_at g.raw (q - k)
    pub entered :
        (q : ℕ)
        → g.lines - e ≤ q
        → q < g.lines - e + k
        → q < g.lines - a
        → row_at out.raw q ≡ some (blank_of g)
    pub kept : (q : ℕ) → (q < g.lines - e) ⊎ (g.lines - a ≤ q) → row_at out.raw q ≡ row_at g.raw q

  pub record RegionDown (g : Grid T) (a e k : ℕ) (r : Option (Grid T)) : Type 0 where
    pub out : Grid T
    pub returns : r ≡ some out
    pub valid : IsValid out
    pub screen : SameScreen g out
    pub same_len : out.raw.len ≡ g.raw.len
    pub moved :
        (q : ℕ) → g.lines - e ≤ q → q + k < g.lines - a → row_at out.raw q ≡ row_at g.raw (q + k)
    pub entered :
        (q : ℕ)
        → g.lines - e ≤ q
        → g.lines - a ≤ q + k
        → q < g.lines - a
        → row_at out.raw q ≡ some (blank_of g)
    pub kept :
        (q : ℕ)
        → (q < g.lines - e) ⊎ (g.lines - a ≤ q)
        → q < g.raw.len
        → row_at out.raw q ≡ row_at g.raw q

  -- `reset_lines` on lines of the screen, as its rounds.
  pub reset_rounds_from :
      (template : T) (a e : ℕ) (s : Storage T)
      → reset_lines template (pos a) (pos e) s ≡ for_up (reset_line template) (e - a) (pos a) s
  unfolding reset_lines for_lines
  reset_rounds_from template a e s =
      ap (λ n. for_up (reset_line template) n (pos a) s) (between a e)

  pub reset_region_lines :
      IsLawful cell
      → (g : Grid T) (raw : Storage T) (a e : ℕ) → 0 < g.columns
      → Storage.View.IsValid raw
      → a ≤ e
      → e ≤ raw.visible_lines
      → AllRows (IsLine g.columns) raw
      → Cleared
          (IsLine g.columns)
          (blank_of g)
          (raw.visible_lines - a - (e - a))
          (raw.visible_lines - a)
          raw
          (reset_lines g.cursor.template (pos a) (pos e) raw)
  reset_region_lines lawful g raw a e some_column v h l all =
      rw (reset_rounds_from g.cursor.template a e raw) (
        reset_lines_lem (IsLine g.columns) (blank_of g) g.cursor.template (e - a) a raw
          (reset-IsLine lawful g.columns g.cursor.template some_column)
          (blank-IsLine g.columns g.cursor.template) v (omega arith) all)

  -- The region is reset as a whole.
  whole_up :
      (g : Grid T) (a e k : ℕ) (v : IsValid g)
      → 0 < a
      → a ≤ e
      → e ≤ g.lines
      → e - a ≤ k
      → Cleared
          (IsLine g.columns)
          (blank_of g)
          (g.raw.visible_lines - a - (e - a))
          (g.raw.visible_lines - a)
          g.raw
          (reset_lines g.cursor.template (pos a) (pos e) g.raw)
      → RegionUp g a e k (scroll_up g (record { start = pos a; end = pos e }) k)
  unfolding scroll_up
  whole_up g a e k v top h l w cleared = record {
    out = record g { raw = cleared.out };
    returns = rw (whole_test a e k top h w) (>>=-step _ _ cleared.returns refl);
    valid = record {
      raw = SameShape-IsValid cleared.shape v.raw;
      visible = cleared.shape.same_visible ∙ v.visible;
      some_column = v.some_column;
      rows = cleared.all;
      limit = omega (arith, cleared.shape, v.limit);
    };
    screen = record { lines = refl; columns = refl; cursor = refl; saved = refl; limit = refl };
    same_len = cleared.shape.same_len;
    moved = λ q x y. absurd (omega arith);
    entered = λ q x y z. cleared.cleared q (omega (arith, v.visible)) (omega (arith, v.visible));
    kept = λ q x. cleared.kept q (omega (arith, v.visible));
  }

  rounds_up :
      (k a e : ℕ) (s : Storage T)
      → for_lines (swap_down k) (pos a) (pos e) s ≡ for_up (swap_down k) (e - a) (pos a) s
  unfolding for_lines
  rounds_up k a e s = ap (λ n. for_up (swap_down k) n (pos a) s) (between a e)

  -- Lines of the region move.
  part_up :
      (g : Grid T) (a e k : ℕ) (v : IsValid g)
      → 0 < a
      → e ≤ g.lines
      → a + k < e
      → (raised : RaisedLines
          (IsLine g.columns)
          k
          a
          (e - k - a)
          g.raw
          (for_up (swap_down k) (e - k - a) (pos a) g.raw))
      → Cleared
          (IsLine g.columns)
          (blank_of g)
          (raised.out.visible_lines - (e - k) - (e - (e - k)))
          (raised.out.visible_lines - (e - k))
          raised.out
          (reset_lines g.cursor.template (pos (e - k)) (pos e) raised.out)
      → RegionUp g a e k (scroll_up g (record { start = pos a; end = pos e }) k)
  unfolding scroll_up for_lines
  part_up g a e k v top l w raised cleared = record {
    out = record g {
      raw = cleared.out;
      display_offset =
          if g.display_offset == 0
          then g.display_offset
          else min (g.display_offset + k) g.max_scroll_limit;
    };
    returns =
        rw (part_test a e k w, top_test a top, up_line e k (omega arith))
          (>>=-step _ _ (rounds_up k a (e - k) g.raw ∙ raised.returns)
            (>>=-step _ _ cleared.returns refl));
    valid = record {
      raw = SameShape-IsValid cleared.shape (SameShape-IsValid raised.shape v.raw);
      visible = omega (arith, cleared.shape, raised.shape, v.visible);
      some_column = v.some_column;
      rows = cleared.all;
      limit = omega (arith, cleared.shape, raised.shape, v.limit);
    };
    screen = record { lines = refl; columns = refl; cursor = refl; saved = refl; limit = refl };
    same_len = omega (arith, cleared.shape, raised.shape);
    moved = λ q x y.
        cleared.kept q (omega (arith, raised.shape, v.visible))
        ∙ raised.moved q (omega (arith, v.visible)) (omega (arith, v.visible));
    entered = λ q x y z.
        cleared.cleared q (omega (arith, raised.shape, v.visible))
          (omega (arith, raised.shape, v.visible));
    kept = λ q x.
        ground (arith, raised.shape, v.visible, cleared.kept q, raised.above q, raised.below q);
  }

  -- On a valid grid whose cells keep the promises of the rows, scrolling a range of lines of the screen
  -- that does not start at its top up by any count does not panic and leaves a valid grid of the same
  -- size: as many lines at the bottom of the range are blank, the others of the range moved up, and the
  -- lines outside it are as before.
  pub scroll_up-RegionUp :
      (lawful : IsLawful cell) (g : Grid T) (a e k : ℕ)
      → IsValid g
      → 0 < a
      → a ≤ e
      → e ≤ g.lines
      → RegionUp g a e k (scroll_up g (record { start = pos a; end = pos e }) k)
  scroll_up-RegionUp lawful g a e k v top h l = elim (le_or_lt e (a + k)) [
    | inr part ↦
        let raised =
          swap_down-RaisedLines (IsLine g.columns) k a (e - k - a) g.raw v.raw
            (omega (arith, v.visible)) in
        part_up g a e k v top l (omega arith) raised (
          reset_region_lines lawful g raised.out (e - k) e v.some_column
            (SameShape-IsValid raised.shape v.raw) (omega arith)
            (omega (arith, raised.shape, v.visible)) (raised.all v.rows))
    | inl whole ↦ whole_up g a e k v top h l (omega arith) (
        reset_region_lines lawful g g.raw a e v.some_column v.raw h (omega (arith, v.visible))
          v.rows)
  ]
