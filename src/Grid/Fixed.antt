-- ===== src/Grid/Fixed.antt =====
-- `scroll_down` of alacritty_terminal/src/grid/mod.rs on a grid without a history: the whole screen is
-- rotated, and the lines outside the region are swapped back into their place.
use alacritty_pro.Prelude.{
  ℕ, ◌+◌, ◌-◌, ◌≤◌, ◌<◌, ◌≡◌, refl, sym, ◌∙◌, ap, Option, some, arith, ◌==◌, le_or_lt, inl, inr,
  Bool-cases, >>=-step, length, get_elem?,
}
use alacritty_pro.Prelude.Int.{ℤ, pos}
use alacritty_pro.Row.{Row, GridCell}
use alacritty_pro.Row.Occupied.{IsLawful}
use alacritty_pro.Storage
use alacritty_pro.Storage.{Storage, rotate_left, rotate_down}
use alacritty_pro.Storage.View.{ring, length-ring, get_elem?-rotate_left}
use alacritty_pro.Storage.Rotate.{rotate_lem, rotate_down-rotate}
use alacritty_pro.Storage.Access.{SameShape-IsValid}
use alacritty_pro.Grid.Defs.{Grid, scroll_down, reset_lines, for_lines, for_up, swap_up, swap_down}
use alacritty_pro.Grid.Lines.{row_at, AllRows, Cleared}
use alacritty_pro.Grid.Up.{IsLine, IsValid, between, AllRows-rotate_left}
use alacritty_pro.Grid.Rounds.{RaisedLines, swap_up-RaisedLines, swap_down-RaisedLines}
use alacritty_pro.Grid.Region.{RegionDown, blank_of, part_test, reset_region_lines}
use alacritty_pro.Grid.Down.{limited_down, full_down}

module _ {T : Type 0} where
  -- A rotation by `k` moves every row `k` positions down.
  record Sunk (P : Row T → Type 0) (k : ℕ) (s : Storage T) (r : Option (Storage T)) : Type 0 where
    pub out : Storage T
    pub returns : r ≡ some out
    pub valid : Storage.View.IsValid out
    pub same :
        (length out.inner ≡ length s.inner)
        × (out.len ≡ s.len)
        × (out.visible_lines ≡ s.visible_lines)
    pub moved : (q : ℕ) → q + k < length s.inner → row_at out q ≡ row_at s (q + k)
    pub all : AllRows P out

  rotate_down-Sunk :
      (P : Row T → Type 0) (k : ℕ) (s : Storage T)
      → Storage.View.IsValid s
      → k ≤ length s.inner
      → AllRows P s
      → Sunk P k s (rotate_down s k)
  rotate_down-Sunk P k s v h all =
      let (t, et, valid, same, ring_t) = rotate_lem (pos k) v (omega arith) in
      let whole = length-ring v in
      record {
        out = t;
        returns = rotate_down-rotate k v h ∙ et;
        valid = valid;
        same = same;
        moved = λ q a.
            ap (λ l. get_elem? l q) ring_t
            ∙ (get_elem?-rotate_left k (ring s) q (omega (arith, whole)) (omega (arith, whole))
                ∙ ap (λ i. get_elem? (ring s) i) (ground (arith, whole)));
        all = λ p row e.
            AllRows-rotate_left P k (ring s) (omega (arith, whole)) all p row
              (sym (ap (λ l. get_elem? l p) ring_t) ∙ e);
      }

  rounds :
      (body : ℤ → Storage T → Option (Storage T)) (a e : ℕ) (s : Storage T)
      → for_lines body (pos a) (pos e) s ≡ for_up body (e - a) (pos a) s
  unfolding for_lines
  rounds body a e s = ap (λ n. for_up body n (pos a) s) (between a e)

module _ {T : Type 0} ⦃cell : GridCell T⦄ where
  fixed_rounds :
      (k e l : ℕ) (s : Storage T)
      → k ≤ e
      → for_lines (swap_up k) (pos e) (pos l) s ≡ for_up (swap_up k) (l - e) (pos (e - k + k)) s
  fixed_rounds k e l s h =
      rounds (swap_up k) e l s ∙ ap (λ n. for_up (swap_up k) (l - e) (pos n) s) (omega arith)

  top_rounds :
      (k a : ℕ) (s : Storage T)
      → for_lines (swap_down k) (pos 0) (pos a) s ≡ for_up (swap_down k) a (pos 0) s
  top_rounds k a s =
      rounds (swap_down k) 0 a s ∙ ap (λ n. for_up (swap_down k) n (pos 0) s) (omega arith)

  -- The scrolled grid, put together from the steps of the code.
  assemble_down :
      (g : Grid T) (a e k : ℕ) (v : IsValid g)
      → g.max_scroll_limit ≡ 0
      → e ≤ g.lines
      → a + k < e
      → (fixed : RaisedLines
          (IsLine g.columns)
          k
          (e - k)
          (g.lines - e)
          g.raw
          (for_up (swap_up k) (g.lines - e) (pos (e - k + k)) g.raw))
      → (sunk : Sunk (IsLine g.columns) k fixed.out (rotate_down fixed.out k))
      → (cleared : Cleared
          (IsLine g.columns)
          (blank_of g)
          (sunk.out.visible_lines - 0 - (k - 0))
          (sunk.out.visible_lines - 0)
          sunk.out
          (reset_lines g.cursor.template (pos 0) (pos k) sunk.out))
      → RaisedLines
          (IsLine g.columns)
          k
          0
          a
          cleared.out
          (for_up (swap_down k) a (pos 0) cleared.out)
      → RegionDown g a e k (scroll_down g (record { start = pos a; end = pos e }) k)
  unfolding scroll_down
  assemble_down g a e k v no_limit l w fixed sunk cleared raised = record {
    out = record g { raw = raised.out };
    returns =
        rw (part_test a e k w, no_limit)
          (>>=-step _ _ (fixed_rounds k e g.lines g.raw (omega arith) ∙ fixed.returns) (
            >>=-step _ _ sunk.returns (
              >>=-step _ _ cleared.returns
                (>>=-step _ _ (top_rounds k a cleared.out ∙ raised.returns) refl))));
    valid = record {
      raw = SameShape-IsValid raised.shape (SameShape-IsValid cleared.shape sunk.valid);
      visible = omega (arith, raised.shape, cleared.shape, sunk.same, fixed.shape, v.visible);
      some_column = v.some_column;
      rows = raised.all cleared.all;
      limit = omega (arith, raised.shape, cleared.shape, sunk.same, fixed.shape, v.limit);
    };
    screen = record { lines = refl; columns = refl; cursor = refl; saved = refl; limit = refl };
    same_len = omega (arith, raised.shape, cleared.shape, sunk.same, fixed.shape);
    moved = λ q x y.
        raised.below q (omega (arith, cleared.shape, sunk.same, fixed.shape, v.visible))
        ∙ cleared.kept q (inl (omega (arith, sunk.same, fixed.shape, v.visible)))
        ∙ sunk.moved q (omega (arith, fixed.shape, v.visible, v.raw))
        ∙ fixed.above (q + k) (omega (arith, v.visible));
    entered = λ q x y z.
        raised.carried (some (blank_of g))
          (λ p u o. cleared.cleared p (omega (arith, cleared.shape)) (omega (arith, cleared.shape)))
          q (omega (arith, cleared.shape, sunk.same, fixed.shape, v.visible))
          (omega (arith, cleared.shape, sunk.same, fixed.shape, v.visible));
    kept = λ q x y. elim x [
      | inl low ↦
          raised.below q (omega (arith, cleared.shape, sunk.same, fixed.shape, v.visible))
          ∙ cleared.kept q (inl (omega (arith, sunk.same, fixed.shape, v.visible)))
          ∙ sunk.moved q (omega (arith, fixed.shape, v.visible, v.raw))
          ∙ fixed.moved (q + k) (omega (arith, v.visible)) (omega (arith, v.visible))
          ∙ ap (row_at g.raw) (omega arith)
      | inr high ↦
          raised.moved q (omega (arith, cleared.shape, sunk.same, fixed.shape, v.visible)) (
            omega
              (arith, cleared.shape, sunk.same, fixed.shape, v.visible, no_limit, v.limit, v.raw))
          ∙ cleared.kept (q - k)
              (inl (omega (arith, sunk.same, fixed.shape, v.visible, no_limit, v.limit, v.raw)))
          ∙ sunk.moved (q - k) (omega (arith, fixed.shape, v.visible, v.raw, no_limit, v.limit))
          ∙ fixed.above (q - k + k) (omega (arith, v.visible))
          ∙ ap (row_at g.raw) (omega arith)
    ];
  }

  unlimited_down :
      (lawful : IsLawful cell) (g : Grid T) (a e k : ℕ)
      → IsValid g
      → g.max_scroll_limit ≡ 0
      → e ≤ g.lines
      → a + k < e
      → RegionDown g a e k (scroll_down g (record { start = pos a; end = pos e }) k)
  unlimited_down lawful g a e k v no_limit l w =
      let fixed =
        swap_up-RaisedLines (IsLine g.columns) k (e - k) (g.lines - e) g.raw v.raw
          (omega (arith, v.visible)) in
      let sunk =
        rotate_down-Sunk (IsLine g.columns) k fixed.out (SameShape-IsValid fixed.shape v.raw)
          (omega (arith, fixed.shape, v.visible, v.raw)) (fixed.all v.rows) in
      let cleared =
        reset_region_lines lawful g sunk.out 0 k v.some_column sunk.valid (omega arith)
          (omega (arith, sunk.same, fixed.shape, v.visible)) sunk.all in
      assemble_down g a e k v no_limit l w fixed sunk cleared (
        swap_down-RaisedLines (IsLine g.columns) k 0 a cleared.out
          (SameShape-IsValid cleared.shape sunk.valid)
          (omega (arith, cleared.shape, sunk.same, fixed.shape, v.visible)))

  -- On a valid grid whose cells keep the promises of the rows, scrolling any range of lines of the screen
  -- down by any count does not panic and leaves a valid grid of the same size: as many lines at the top of
  -- the range are blank, the others of the range moved down, and the lines outside it are as before.
  pub scroll_down-RegionDown :
      (lawful : IsLawful cell) (g : Grid T) (a e k : ℕ)
      → IsValid g
      → a ≤ e
      → e ≤ g.lines
      → RegionDown g a e k (scroll_down g (record { start = pos a; end = pos e }) k)
  scroll_down-RegionDown lawful g a e k v h l = elim (le_or_lt e (a + k)) [
    | inl whole ↦ full_down lawful g a e k v h l whole
    | inr part ↦ elim (Bool-cases (g.max_scroll_limit == 0)) [
      | inl no_limit ↦ unlimited_down lawful g a e k v (ground arith) l part
      | inr limited ↦ limited_down lawful g a e k v limited l part
    ]
  ]
