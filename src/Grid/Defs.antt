-- ===== src/Grid/Defs.antt =====
-- The state of a grid and its operations. The character sets of a cursor, a table of the crate
-- `vte`, are left out of the model.
use alacritty_pro.Prelude.{
  ℕ, zero, suc, ◌+◌, ◌-◌, min, Bool, false, not, ◌&&◌, Option, some, leb, ltb, ◌==◌, if◌then◌else◌,
  ◌>>=◌, ◌>>◌, assert,
}
use alacritty_pro.Prelude.Int.{
  ℤ, pos, negsuc, ◌+ℤ◌, ◌-ℤ◌, neg, pos_part, neg_part, ltb_ℤ, leb_ℤ, eq_ℤ, max_ℤ, wrap_i32,
}
use alacritty_pro.Index
use alacritty_pro.Index.{Point, Dimensions, add_line, sub_line}
use alacritty_pro.Row
use alacritty_pro.Row.{Row, GridCell}
use alacritty_pro.Storage
use alacritty_pro.Storage.{Storage}

pub record Cursor (T : Type 0) : Type 0 where
  pub point : Point
  pub template : T
  pub input_needs_wrap : Bool

pub data Scroll : Type 0 where
  delta : ℤ → Scroll
  page_up page_down top bottom : Scroll

pub record Grid (T : Type 0) : Type 0 where
  pub cursor : Cursor T
  pub saved_cursor : Cursor T
  pub raw : Storage T
  pub columns : ℕ
  pub lines : ℕ
  pub display_offset : ℕ
  pub max_scroll_limit : ℕ

-- `Range<Line>`
pub record Region : Type 0 where
  pub start : ℤ
  pub end : ℤ

-- The next line below.
abbrev pub next_line : ℤ → ℤ
next_line (pos n) = pos (suc n)
next_line (negsuc zero) = pos 0
next_line (negsuc (suc n)) = negsuc n

-- The number of lines in `lo..hi`.
abbrev pub lines_between : ℤ → ℤ → ℕ
lines_between lo hi = pos_part hi + neg_part lo - (pos_part lo + neg_part hi)

module _ {S : Type 0} (body : ℤ → S → Option S) where
  -- `n` rounds from line `line` on.
  unfoldable pub for_up : ℕ → ℤ → S → Option S
  for_up zero line s = some s
  for_up (suc n) line s = body line s >>= for_up n (next_line line)

  -- `n` rounds, from line `line + n - 1` up to `line`.
  unfoldable pub for_down : ℕ → ℤ → S → Option S
  for_down zero line s = some s
  for_down (suc n) line s = body (add_line line n) s >>= for_down n line

  -- `for i in lo..hi`
  unfoldable pub for_lines : ℤ → ℤ → S → Option S
  unfolding for_up
  for_lines lo hi = for_up (lines_between lo hi) lo

  -- `for i in (lo..hi).rev()`
  unfoldable pub for_lines_rev : ℤ → ℤ → S → Option S
  unfolding for_down
  for_lines_rev lo hi = for_down (lines_between lo hi) lo

module _ {T : Type 0} where
  abbrev pub dimensions : Grid T → Dimensions
  dimensions g = record { total_lines = g.raw.len; screen_lines = g.lines; columns = g.columns }

  abbrev pub history_size : Grid T → ℕ
  history_size g = Index.history_size (dimensions g)

  -- `self.raw.swap(i, i - positions)` and `self.raw.swap(i, i + positions)`
  abbrev pub swap_up : ℕ → ℤ → Storage T → Option (Storage T)
  swap_up positions i raw = Storage.swap raw i (sub_line i positions)

  abbrev pub swap_down : ℕ → ℤ → Storage T → Option (Storage T)
  swap_down positions i raw = Storage.swap raw i (add_line i positions)

  unfoldable pub index : Grid T → ℤ → Option (Row T)
  unfolding Storage.index
  index g line = Storage.index g.raw line

  unfoldable pub clear_history : Grid T → Option (Grid T)
  unfolding Storage.shrink_lines
  clear_history g = do
    raw ← Storage.shrink_lines g.raw (history_size g)
    some (record g { raw = raw; display_offset = 0 })

  unfoldable pub truncate : Grid T → Option (Grid T)
  unfolding Storage.truncate
  truncate g = do raw ← Storage.truncate g.raw; some (record g { raw = raw })

  unfoldable pub update_history : Grid T → ℕ → Option (Grid T)
  unfolding Storage.shrink_lines
  update_history g size = do
    raw ←
        if ltb size (history_size g)
        then Storage.shrink_lines g.raw (history_size g - size)
        else some g.raw
    some (record g {
      raw = raw;
      display_offset = min g.display_offset size;
      max_scroll_limit = size;
    })

  -- The sum of the offset and a delta is one of `i32`.
  unfoldable pub scroll_display : Grid T → Scroll → Grid T
  scroll_display g (Scroll.delta count) = record g {
    display_offset =
        min (pos_part (max_ℤ (wrap_i32 (pos g.display_offset +ℤ count)) (pos 0))) (history_size g);
  }
  scroll_display g Scroll.page_up = record g {
    display_offset = min (g.display_offset + g.lines) (history_size g);
  }
  scroll_display g Scroll.page_down = record g { display_offset = g.display_offset - g.lines }
  scroll_display g Scroll.top = record g { display_offset = history_size g }
  scroll_display g Scroll.bottom = record g { display_offset = 0 }

  unfoldable pub decrease_scroll_limit : Grid T → ℕ → Option (Grid T)
  unfolding Storage.shrink_lines
  decrease_scroll_limit g count =
      let n = min count (history_size g) in
      if n == 0
      then some g
      else Storage.shrink_lines g.raw (min n (history_size g)) >>= (λ raw.
        some (record g { raw = raw; display_offset = min g.display_offset (raw.len - g.lines) }))

module _ {T : Type 0} ⦃cell : GridCell T⦄ where
  abbrev pub default_cursor : Cursor T
  default_cursor = record {
    point = record { line = pos 0; column = 0 };
    template = cell.default;
    input_needs_wrap = false;
  }

  -- A new grid on its rows.
  abbrev pub with_rows : ℕ → ℕ → ℕ → Storage T → Grid T
  with_rows lines columns max_scroll_limit raw = record {
    cursor = default_cursor;
    saved_cursor = default_cursor;
    raw = raw;
    columns = columns;
    lines = lines;
    display_offset = 0;
    max_scroll_limit = max_scroll_limit;
  }

  unfoldable pub new : ℕ → ℕ → ℕ → Option (Grid T)
  unfolding Storage.with_capacity
  new lines columns max_scroll_limit =
      Storage.with_capacity lines columns
      >>= (λ raw. some (with_rows lines columns max_scroll_limit raw))

  unfoldable pub increase_scroll_limit : Grid T → ℕ → Option (Grid T)
  unfolding Storage.initialize
  increase_scroll_limit g count = do
    assert (leb (history_size g) g.max_scroll_limit)
    let n = min count (g.max_scroll_limit - history_size g)
    if n == 0
        then some g
        else Storage.initialize g.raw n g.columns >>= (λ raw. some (record g { raw = raw }))

  -- `self.raw[line].reset(&self.cursor.template)`
  unfoldable pub reset_line : T → ℤ → Storage T → Option (Storage T)
  unfolding Storage.update
  reset_line template line raw = Storage.update raw line (λ row. Row.reset row template)

  unfoldable pub reset_lines : T → ℤ → ℤ → Storage T → Option (Storage T)
  unfolding for_lines reset_line
  reset_lines template lo hi raw = for_lines (reset_line template) lo hi raw

  unfoldable pub scroll_down : Grid T → Region → ℕ → Option (Grid T)
  unfolding for_lines for_lines_rev reset_lines Storage.swap Storage.rotate_down
  scroll_down g region positions =
      let template = g.cursor.template in
      let screen_lines = pos g.lines in
      if leb_ℤ (region.end -ℤ region.start) (pos positions)
      then reset_lines template region.start region.end g.raw
        >>= (λ raw. some (record g { raw = raw }))
      else if g.max_scroll_limit == 0
      then for_lines (swap_up positions) region.end screen_lines g.raw >>= (λ fixed.
        Storage.rotate_down fixed positions >>= (λ rotated.
          reset_lines template (pos 0) (pos positions) rotated >>= (λ cleared.
            for_lines (swap_down positions) (pos 0) region.start cleared
            >>= (λ raw. some (record g { raw = raw })))))
      else for_lines_rev (swap_up positions) (add_line region.start positions) region.end g.raw
        >>= (λ moved.
            for_lines_rev (reset_line template) region.start (add_line region.start positions) moved
            >>= (λ raw. some (record g { raw = raw })))

  unfoldable pub scroll_up : Grid T → Region → ℕ → Option (Grid T)
  unfolding for_lines for_lines_rev reset_lines increase_scroll_limit Storage.swap Storage.rotate
  scroll_up g region positions =
      let template = g.cursor.template in
      let screen_lines = pos g.lines in
      if leb_ℤ (region.end -ℤ region.start) (pos positions) && not (eq_ℤ region.start (pos 0))
      then reset_lines template region.start region.end g.raw
        >>= (λ raw. some (record g { raw = raw }))
      else let offset =
          if g.display_offset == 0
          then g.display_offset
          else min (g.display_offset + positions) g.max_scroll_limit in
        let shown : Grid T = record g { display_offset = offset } in
        (if eq_ℤ region.start (pos 0)
          then increase_scroll_limit shown positions >>= (λ grown.
            for_lines_rev (swap_down positions) (pos 0) region.start grown.raw >>= (λ fixed.
              Storage.rotate fixed (neg (pos positions))
              >>= (λ rotated. for_lines_rev (swap_up positions) region.end screen_lines rotated)))
          else for_lines (swap_down positions) region.start (sub_line region.end positions)
              shown.raw)
        >>= (λ moved.
            reset_lines template (sub_line region.end positions) region.end moved
            >>= (λ raw. some (record shown { raw = raw })))

  -- `reset_region` at the bounds `start..end`.
  unfoldable pub reset_region : Grid T → ℤ → ℤ → Option (Grid T)
  unfolding reset_lines
  reset_region g start end = do
    assert (ltb_ℤ start (pos g.lines))
    assert (leb_ℤ end (pos g.lines))
    raw ← reset_lines g.cursor.template start end g.raw
    some (record g { raw = raw })

  unfoldable pub reset : Grid T → Option (Grid T)
  unfolding clear_history reset_lines
  reset g = do
    g' ← clear_history g
    raw ← reset_lines cell.default (Index.topmost_line (dimensions g')) (pos g'.lines) g'.raw
    some (record g' {
      raw = raw;
      cursor = default_cursor;
      saved_cursor = default_cursor;
      display_offset = 0;
    })

  unfoldable pub initialize_all : Grid T → Option (Grid T)
  unfolding truncate Storage.initialize
  initialize_all g = do
    g' ← truncate g
    assert (leb (history_size g') g'.max_scroll_limit)
    raw ← Storage.initialize g'.raw (g'.max_scroll_limit - history_size g') g'.columns
    some (record g' { raw = raw })
