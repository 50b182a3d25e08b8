-- ===== src/Grid/Scroll.antt =====
-- `scroll_up` of a region that starts at the top of the screen: what every line holds afterwards.
use alacritty_pro.Prelude.{
  ℕ, ◌+◌, ◌-◌, ◌≤◌, ◌≡◌, refl, ◌∙◌, ap, Bool, true, false, arith, ◌==◌, if◌then◌else◌, min, inl,
  inr, >>=-step, ◌&&◌,
}
use alacritty_pro.Prelude.Int.{pos, neg, pos_part, neg_part}
use alacritty_pro.Index.{sub_line}
use alacritty_pro.Row.{Row, GridCell}
use alacritty_pro.Row.Occupied.{IsLawful, blank_row}
use alacritty_pro.Storage
use alacritty_pro.Storage.{Storage}
use alacritty_pro.Storage.View.{ring, length-ring}
use alacritty_pro.Storage.Access.{SameShape-IsValid}
use alacritty_pro.Grid.Defs.{
  Grid, increase_scroll_limit, scroll_up, for_lines, for_lines_rev, for_up, for_down, reset_line,
  reset_lines, swap_up,
}
use alacritty_pro.Grid.Lines.{row_at, AllRows, Lifted, fixed_lines, Cleared, reset_lines_lem}
use alacritty_pro.Grid.Up.{
  IsLine, IsValid, blank-IsLine, reset-IsLine, gained, Grown, increase_scroll_limit-Grown, Rotated,
  rotate-Rotated, between, ScrolledUp,
}

start_of : (e k : ℕ) → k ≤ e → sub_line (pos e) k ≡ pos (e - k)
start_of e k h = ground arith

and-false : (b : Bool) → (b && false) ≡ false
and-false true = refl
and-false false = refl

module _ {T : Type 0} ⦃cell : GridCell T⦄ where
  down_rounds :
      (k e l : ℕ) (s : Storage T)
      → for_lines_rev (swap_up k) (pos e) (pos l) s ≡ for_down (swap_up k) (l - e) (pos e) s
  unfolding for_lines_rev
  down_rounds k e l s = ap (λ n. for_down (swap_up k) n (pos e) s) (between e l)

  reset_rounds :
      (template : T) (e k : ℕ) (s : Storage T)
      → k ≤ e
      → reset_lines template (sub_line (pos e) k) (pos e) s
        ≡ for_up (reset_line template) k (pos (e - k)) s
  unfolding reset_lines for_lines
  reset_rounds template e k s h =
      ap (λ l. for_up (reset_line template) (pos_part (pos e) + neg_part l - (pos_part l + 0)) l s)
        (start_of e k h)
      ∙ ap (λ n. for_up (reset_line template) n (pos (e - k)) s) (omega arith)

  -- The grid with the display offset that a scroll sets first.
  abbrev shown : Grid T → ℕ → Grid T
  shown g k = record g {
    display_offset =
        if g.display_offset == 0
        then g.display_offset
        else min (g.display_offset + k) g.max_scroll_limit;
  }

  shown-IsValid : (g : Grid T) (k : ℕ) → IsValid g → IsValid (shown g k)
  shown-IsValid g k v = record {
    raw = v.raw;
    visible = v.visible;
    some_column = v.some_column;
    rows = v.rows;
    limit = v.limit;
  }

  -- The scrolled grid, put together from the steps of the code.
  assemble :
      (g : Grid T) (e k : ℕ) (v : IsValid g)
      → k ≤ e
      → e ≤ g.lines
      → (grown : Grown (shown g k) (gained g k) (increase_scroll_limit (shown g k) k))
      → (rotated : Rotated (IsLine g.columns) k grown.raw (Storage.rotate grown.raw (neg (pos k))))
      → (lifted : Lifted
          (IsLine g.columns)
          (row_at rotated.out)
          k
          (rotated.out.visible_lines - e)
          rotated.out
          (for_down (swap_up k) (g.lines - e) (pos e) rotated.out))
      → (cleared : Cleared
          (IsLine g.columns)
          (blank_row g.columns g.cursor.template)
          (lifted.out.visible_lines - (e - k) - k)
          (lifted.out.visible_lines - (e - k))
          lifted.out
          (for_up (reset_line g.cursor.template) k (pos (e - k)) lifted.out))
      → ScrolledUp g e k (scroll_up g (record { start = pos 0; end = pos e }) k)
  unfolding scroll_up for_lines_rev reset_lines for_lines
  assemble g e k v hk he grown rotated lifted cleared = record {
    out = record (shown g k) { raw = cleared.out };
    returns =
        rw (and-false, grown.returns, rotated.returns)
          (>>=-step _ _ (down_rounds k e g.lines rotated.out ∙ lifted.returns) (
            >>=-step _ _ (reset_rounds g.cursor.template e k lifted.out hk ∙ cleared.returns)
              refl));
    valid = record {
      raw = SameShape-IsValid cleared.shape (SameShape-IsValid lifted.shape rotated.valid);
      visible = omega (arith, cleared.shape, lifted.shape, rotated.same, grown.visible);
      some_column = v.some_column;
      rows = cleared.all;
      limit = omega (arith, cleared.shape, lifted.shape, rotated.same, grown.len, v.limit);
    };
    screen = record { lines = refl; columns = refl; cursor = refl; saved = refl; limit = refl };
    history = omega (arith, cleared.shape, lifted.shape, rotated.same, grown.len, v.raw, v.visible);
    below = λ q h.
        cleared.kept q (inl (omega (arith, lifted.shape, rotated.same, grown.visible)))
        ∙ (lifted.below q (omega (arith, rotated.same, grown.visible))
            ∙ (rotated.moved (q + k) (omega arith) (omega (arith, grown.valid, grown.visible))
                ∙ (ap (row_at grown.raw) (omega arith)
                    ∙ grown.prefix q (omega (arith, length-ring v.raw, v.raw, v.visible)))));
    entered = λ q a b.
        cleared.cleared q (omega (arith, lifted.shape, rotated.same, grown.visible))
          (omega (arith, lifted.shape, rotated.same, grown.visible));
    above = λ q a b.
        cleared.kept q (inr (omega (arith, lifted.shape, rotated.same, grown.visible)))
        ∙ (lifted.above q (omega (arith, rotated.same, grown.visible))
              (omega (arith, cleared.shape, lifted.shape, rotated.same, grown.valid, grown.visible))
            ∙ (rotated.moved q (omega arith) (
                  omega
                    (arith, cleared.shape, lifted.shape, rotated.same, grown.valid, grown.visible))
                ∙ grown.prefix (q - k) (
                    omega (
                      arith,
                      cleared.shape,
                      lifted.shape,
                      rotated.same,
                      grown.len,
                      length-ring v.raw,
                      v.raw,
                      v.visible,
                    ))));
    offset = ground arith;
  }

  lift :
      (P : Row T → Type 0) (e k l : ℕ) (s : Storage T)
      → Storage.View.IsValid s
      → k ≤ e
      → e ≤ l
      → s.visible_lines ≡ l
      → AllRows P s
      → Lifted P (row_at s) k (s.visible_lines - e) s (for_down (swap_up k) (l - e) (pos e) s)
  lift P e k l s v hk he visible all =
      fixed_lines P (row_at s) k e (l - e) s v hk (omega arith) (λ q h. absurd (omega arith))
        (λ q a b. refl) all

  after_rotation :
      (g : Grid T) (e k : ℕ) (v : IsValid g) (lawful : IsLawful cell)
      → k ≤ e
      → e ≤ g.lines
      → (grown : Grown (shown g k) (gained g k) (increase_scroll_limit (shown g k) k))
      → (rotated : Rotated (IsLine g.columns) k grown.raw (Storage.rotate grown.raw (neg (pos k))))
      → (lifted : Lifted
          (IsLine g.columns)
          (row_at rotated.out)
          k
          (rotated.out.visible_lines - e)
          rotated.out
          (for_down (swap_up k) (g.lines - e) (pos e) rotated.out))
      → ScrolledUp g e k (scroll_up g (record { start = pos 0; end = pos e }) k)
  after_rotation g e k v lawful hk he grown rotated lifted =
      assemble g e k v hk he grown rotated lifted (
        reset_lines_lem (IsLine g.columns) (blank_row g.columns g.cursor.template) g.cursor.template
          k (e - k) lifted.out (reset-IsLine lawful g.columns g.cursor.template v.some_column)
          (blank-IsLine g.columns g.cursor.template) (SameShape-IsValid lifted.shape rotated.valid)
          (omega (arith, lifted.shape, rotated.same, grown.visible)) lifted.all)

  after_growth :
      (g : Grid T) (e k : ℕ) (v : IsValid g) (lawful : IsLawful cell)
      → k ≤ e
      → e ≤ g.lines
      → (grown : Grown (shown g k) (gained g k) (increase_scroll_limit (shown g k) k))
      → (rotated : Rotated (IsLine g.columns) k grown.raw (Storage.rotate grown.raw (neg (pos k))))
      → ScrolledUp g e k (scroll_up g (record { start = pos 0; end = pos e }) k)
  after_growth g e k v lawful hk he grown rotated =
      after_rotation g e k v lawful hk he grown rotated (
        lift (IsLine g.columns) e k g.lines rotated.out rotated.valid hk he
          (omega (arith, rotated.same, grown.visible)) rotated.all)

  -- On a valid grid whose cells keep the promises of the rows, scrolling a region from the top of the
  -- screen to line `e` up by at most its
  -- height does not panic, leaves a valid grid, and moves the lines as `ScrolledUp` says; the history
  -- grows by the number of lines scrolled, up to its limit.
  pub scroll_up-ScrolledUp :
      (lawful : IsLawful cell) (g : Grid T) (e k : ℕ)
      → IsValid g
      → k ≤ e
      → e ≤ g.lines
      → ScrolledUp g e k (scroll_up g (record { start = pos 0; end = pos e }) k)
  scroll_up-ScrolledUp lawful g e k v hk he =
      let grown = increase_scroll_limit-Grown lawful (shown g k) k (shown-IsValid g k v) in
      after_growth g e k v lawful hk he grown (
        rotate-Rotated (IsLine g.columns) k grown.raw grown.valid
          (omega (arith, grown.valid, grown.visible)) grown.rows)
