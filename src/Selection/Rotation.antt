-- ===== src/Selection/Rotation.antt =====
-- What scrolling does to a selection that lies in the lines that scroll.
use alacritty_pro.Prelude.{
  ℕ, true, ◌+◌, ◌-◌, ◌≤◌, ◌<◌, ◌≡◌, refl, arith, some, none, max, ltb, if◌then◌else◌,
}
use alacritty_pro.Prelude.Int.{pos}
use alacritty_pro.Index.{Direction, Dimensions, last_column, sub_line}
use alacritty_pro.Grid.Defs.{Region}
use alacritty_pro.Selection.{
  Selection, SelectionType, Anchor, first, last, rotate, rotate_start, rotate_end, is_block_type,
  with_ends, scrolled_line, is_scrolled,
}

abbrev pub lines : ℕ → ℕ → Region
lines a b = record { start = pos a; end = pos b }

-- An anchor on another line.
abbrev pub on_line : Anchor → ℕ → Anchor
on_line anchor line = record anchor { point = record anchor.point { line = pos line } }

-- The anchor that takes the place of one that has left the region at its top, or at its bottom.
abbrev pub at_top : SelectionType → ℕ → Anchor → Anchor
at_top ty line anchor =
    if is_block_type ty
    then on_line anchor line
    else record { point = record { line = pos line; column = 0 }; side = Direction.left }

abbrev pub at_bottom : SelectionType → Dimensions → ℕ → Anchor → Anchor
at_bottom ty d line anchor = if is_block_type ty then on_line anchor line else record {
  point = record { line = pos line; column = last_column d };
  side = Direction.right;
}

scrolled_up :
    (d : Dimensions) (i k : ℕ)
    → i < d.screen_lines
    → scrolled_line d (pos k) (pos i) ≡ sub_line (pos i) k
unfolding scrolled_line
scrolled_up d i k h = ground arith

inside : (a b i : ℕ) → 0 < a → a ≤ i → i < b → is_scrolled (lines a b) (pos i) ≡ true
unfolding is_scrolled
inside a b i h u v = ground arith

module _ (ty : SelectionType) (d : Dimensions) (a b k : ℕ) (start end : Anchor) (i j : ℕ) where
  start_up :
      start.point.line ≡ pos i
      → end.point.line ≡ pos j
      → 0 < a
      → a ≤ i
      → i < b
      → b ≤ d.screen_lines
      → rotate_start ty d (lines a b) (pos k) start end
        ≡ some (if ltb i (a + k) then at_top ty a start else on_line start (i - k))
  unfolding rotate_start
  start_up e f h u v w =
      rw (e, f, inside a b i h u v, scrolled_up d i k (omega arith)) (ground arith)

  end_up :
      (top : Anchor) (line : ℕ)
      → top.point.line ≡ pos line
      → line ≡ max a (i - k)
      → end.point.line ≡ pos j
      → 0 < a
      → a ≤ i
      → i ≤ j
      → j < b
      → b ≤ d.screen_lines
      → rotate_end ty d (lines a b) (pos k) top end
        ≡ (if ltb j (a + k) then none else some (on_line end (j - k)))
  unfolding rotate_end
  end_up top line e g f h u v w x =
      rw (e, f, inside a b j h (omega arith) w, scrolled_up d j k (omega arith)) (ground arith)

at_top-line :
    (ty : SelectionType) (line : ℕ) (anchor : Anchor)
    → (at_top ty line anchor).point.line ≡ pos line
at_top-line ty line anchor = ground arith

-- Scrolling a region below the top of the screen up by `k` lines: a selection inside the region, from
-- line `i` to line `j`, goes away if all its lines leave the region. Otherwise its end moves up with its
-- line, and its start does so, too, or is clamped to the first cell of the region, in a block selection
-- to its first line only.
pub rotate_up_lem :
    (s : Selection) (d : Dimensions) (a b k i j : ℕ)
    → (first s).point.line ≡ pos i
    → (last s).point.line ≡ pos j
    → 0 < a
    → a ≤ i
    → i ≤ j
    → j < b
    → b ≤ d.screen_lines
    → rotate s d (lines a b) (pos k) ≡ (
        if ltb j (a + k)
        then none
        else some (
            with_ends s
              (if ltb i (a + k) then at_top s.ty a (first s) else on_line (first s) (i - k))
              (on_line (last s) (j - k))))
unfolding rotate
rotate_up_lem s d a b k i j e f h u v w x =
    let top = if ltb i (a + k) then at_top s.ty a (first s) else on_line (first s) (i - k) in
    let on : top.point.line ≡ pos (max a (i - k)) = ground (arith, at_top-line s.ty a (first s)) in
    rw
      (
        start_up s.ty d a b k (first s) (last s) i j e f h u (omega arith) x,
        end_up s.ty d a b k (first s) (last s) i j top (max a (i - k)) on refl f h u v w x,
      )
      (ground arith)
