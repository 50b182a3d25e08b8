-- ===== src/Grid/Display.antt =====
-- The display offset and the size of the history.
use alacritty_pro.Prelude.{
  ℕ, ◌+◌, ◌-◌, ◌≤◌, min, ◌≡◌, refl, ◌∙◌, ap, arith, Option, some, ltb, ◌==◌, take, take-all, sym,
  inl, inr, Bool-cases, ◌>>=◌,
}
use alacritty_pro.Storage
use alacritty_pro.Storage.{Storage}
use alacritty_pro.Storage.View
use alacritty_pro.Storage.View.{length-contents}
use alacritty_pro.Storage.Resize.{shrink_lines_lem}
use alacritty_pro.Grid.Defs.{
  Grid, Scroll, history_size, scroll_display, update_history, clear_history, decrease_scroll_limit,
}

module _ {T : Type 0} where
  -- Scrolling the display by any amount, a delta outside of the `i32` range included, keeps the
  -- offset within the history, and changes nothing but the offset.
  pub scroll_display_lem :
      (g : Grid T) (s : Scroll)
      → g.display_offset ≤ history_size g
      → ((scroll_display g s).display_offset ≤ history_size g)
        × (record (scroll_display g s) { display_offset = g.display_offset } ≡ g)
  unfolding scroll_display
  scroll_display_lem g (Scroll.delta count) h = (omega arith, refl)
  scroll_display_lem g Scroll.page_up h = (omega arith, refl)
  scroll_display_lem g Scroll.page_down h = (omega arith, refl)
  scroll_display_lem g Scroll.top h = (omega arith, refl)
  scroll_display_lem g Scroll.bottom h = (omega arith, refl)

  -- A grid whose history is cut off at `kept` lines: the screen and the youngest `kept` lines stay as
  -- they are, the display offset stays within the history, and the history may grow to `limit` lines.
  pub record HistoryCut (g : Grid T) (kept limit : ℕ) (m : Option (Grid T)) : Type 0 where
    pub out : Grid T
    pub returns : m ≡ some out
    pub valid : View.IsValid out.raw
    pub visible : out.raw.visible_lines ≡ out.lines
    pub size : history_size out ≡ kept
    pub rows : View.contents out.raw ≡ take (g.lines + kept) (View.contents g.raw)
    pub offset : out.display_offset ≡ min g.display_offset kept
    pub new_limit : out.max_scroll_limit ≡ limit
    pub frame : (out.cursor ≡ g.cursor) × (out.lines ≡ g.lines) × (out.columns ≡ g.columns)

  -- What the three cuts share: the storage after `shrink_lines`, with an offset and a limit.
  cut :
      (g : Grid T) (n kept : ℕ) (offset : Storage T → ℕ) (limit : ℕ)
      → View.IsValid g.raw
      → g.raw.visible_lines ≡ g.lines
      → n + kept ≡ history_size g
      → ((raw : Storage T) → raw.len - g.lines ≡ kept → offset raw ≡ min g.display_offset kept)
      → HistoryCut g kept limit (
          Storage.shrink_lines g.raw n >>= (λ raw.
            some (record g { raw = raw; display_offset = offset raw; max_scroll_limit = limit })))
  cut g n kept offset limit v visible e h =
      let (raw, r, rv, (len, same), rows, _) = shrink_lines_lem g.raw n v (omega (arith, v)) in
      record {
        out = record g { raw = raw; display_offset = offset raw; max_scroll_limit = limit };
        returns = rw r refl;
        valid = rv;
        visible = same ∙ visible;
        size = omega (arith, v);
        rows = rows ∙ ap (λ k. take k (View.contents g.raw)) (omega (arith, v));
        offset = h raw (omega (arith, v));
        new_limit = refl;
        frame = (refl, refl, refl);
      }

  -- Clearing the history succeeds, keeps the screen as it is, and leaves no history and no offset.
  pub clear_history_lem :
      (g : Grid T)
      → View.IsValid g.raw
      → g.raw.visible_lines ≡ g.lines
      → HistoryCut g 0 g.max_scroll_limit (clear_history g)
  unfolding clear_history
  clear_history_lem g v visible =
      cut g (history_size g) 0 (λ raw. 0) g.max_scroll_limit v visible (omega arith)
        (λ raw e. omega arith)

  -- On a grid with a valid storage and its offset in the history, a new limit for the history cuts it off
  -- at that limit and becomes the limit; the screen, its cursor and size and the youngest lines of the
  -- history stay as they are, and the display offset is cut off at the new history.
  pub update_history_lem :
      (g : Grid T) (size : ℕ)
      → View.IsValid g.raw
      → g.raw.visible_lines ≡ g.lines
      → g.display_offset ≤ history_size g
      → HistoryCut g (min (history_size g) size) size (update_history g size)
  unfolding update_history
  update_history_lem g size v visible h = elim (Bool-cases (ltb size (history_size g))) [
    | inl less ↦ rw less (
        cut g (history_size g - size) (min (history_size g) size) (λ raw. min g.display_offset size)
          size v visible (ground arith) (λ raw e. ground arith))
    | inr more ↦ rw more (record {
      out = record g { display_offset = min g.display_offset size; max_scroll_limit = size };
      returns = refl;
      valid = v;
      visible = visible;
      size = ground arith;
      rows = sym (
          take-all (g.lines + min (history_size g) size) (View.contents g.raw)
            (ground (arith, length-contents v, v)));
      offset = omega arith;
      new_limit = refl;
      frame = (refl, refl, refl);
    })
  ]

  -- Taking `count` lines off the history, or all it has, keeps the screen and the youngest lines of
  -- the history as they are, and the display offset in the history.
  pub decrease_scroll_limit_lem :
      (g : Grid T) (count : ℕ)
      → View.IsValid g.raw
      → g.raw.visible_lines ≡ g.lines
      → g.display_offset ≤ history_size g
      → HistoryCut g (history_size g - count) g.max_scroll_limit (decrease_scroll_limit g count)
  unfolding decrease_scroll_limit
  decrease_scroll_limit_lem g count v visible h =
      elim (Bool-cases (min count (history_size g) == 0)) [
        | inl nothing ↦ rw nothing (record {
          out = g;
          returns = refl;
          valid = v;
          visible = visible;
          size = ground arith;
          rows = sym (
              take-all (g.lines + (history_size g - count)) (View.contents g.raw)
                (ground (arith, length-contents v, v)));
          offset = ground arith;
          new_limit = refl;
          frame = (refl, refl, refl);
        })
        | inr some_lines ↦ rw some_lines (
            cut g (min (min count (history_size g)) (history_size g)) (history_size g - count)
              (λ raw. min g.display_offset (raw.len - g.lines)) g.max_scroll_limit v visible
              (omega arith) (λ raw e. omega arith))
      ]
