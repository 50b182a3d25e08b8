-- ===== src/Index/Clamp.antt =====
-- Clamping a point or a line to a boundary of the grid.
use native.Mathlib.Nat.{mod-eq_of_lt, mod-lt}
use alacritty_pro.Prelude.{
  ℕ, zero, suc, ◌+◌, ◌-◌, ◌%◌, ◌≤◌, ◌<◌, ◌≡◌, ◌∙◌, ap, arith, inl, inr, leb, ltb, Bool-cases,
  le→leb, true, false,
}
use alacritty_pro.Prelude.Int.{ℤ, pos, negsuc, ◌+ℤ◌, ◌-ℤ◌, ◌≤ℤ◌, neg, pos_part, neg_part, ltb_ℤ}
use alacritty_pro.Index.{
  Dimensions, Boundary, Point, topmost_line, bottommost_line, clamp_line, grid_clamp, rem,
}

-- A grid has a line and a column at least, and the lines of the screen are in the buffer.
pub record IsValid (d : Dimensions) : Type 0 where
  pub some_line : 0 < d.screen_lines
  pub some_column : 0 < d.columns
  pub screen_in : d.screen_lines ≤ d.total_lines

-- The topmost line that a boundary allows.
abbrev pub top_of : Dimensions → Boundary → ℤ
top_of d Boundary.cursor = pos 0
top_of d Boundary.grid = topmost_line d
top_of d Boundary.unbounded = topmost_line d

not_le : (a b : ℕ) → ltb a b ≡ true → leb b a ≡ false
not_le a b h = ground arith

up_bounds :
    (d : Dimensions) (r : ℕ)
    → IsValid d
    → r < d.total_lines
    → (topmost_line d ≤ℤ bottommost_line d +ℤ neg (pos r))
      × (bottommost_line d +ℤ neg (pos r) ≤ℤ bottommost_line d)
up_bounds d r v h = ground arith

down_bounds :
    (d : Dimensions) (r : ℕ)
    → IsValid d
    → r < d.total_lines
    → (topmost_line d ≤ℤ topmost_line d +ℤ pos r) × (topmost_line d +ℤ pos r ≤ℤ bottommost_line d)
down_bounds d r v h = ground arith

pos_sub : (n m : ℕ) → m ≤ n → pos n -ℤ pos m ≡ pos (n - m)
pos_sub n m h = ground arith

-- The distance of a line above the bottommost one, as the code computes it.
distance :
    (s : ℕ) (line : ℤ)
    → ltb_ℤ line (pos s) ≡ true
    → line -ℤ pos s +ℤ pos 1 ≡ neg (pos (s + neg_part line - pos_part line - 1))
distance s (pos n) h = ground arith
distance s (negsuc n) h = ground arith

rem-neg : (b t : ℕ) → rem (neg (pos b)) t ≡ neg (pos (b % t))
rem-neg zero t = ground arith
rem-neg (suc b) t = ap (λ a. rem a t) (negative b)
  where
    negative : (b : ℕ) → neg (pos (suc b)) ≡ negsuc b
    negative b = ground arith

-- An unbounded line below the screen wraps round to the top of the history.
wrap_below :
    (d : Dimensions) (n : ℕ)
    → d.screen_lines ≤ n
    → clamp_line d Boundary.unbounded (pos n)
      ≡ topmost_line d +ℤ pos ((n - d.screen_lines) % d.total_lines)
unfolding clamp_line
wrap_below d n h =
    rw (le→leb (d.screen_lines + 0) (n + 0) (omega arith), pos_sub n d.screen_lines h)

-- An unbounded line above the bottommost one wraps round to the bottom of the screen.
wrap_above :
    (d : Dimensions) (line : ℤ)
    → ltb_ℤ line (pos d.screen_lines) ≡ true
    → clamp_line d Boundary.unbounded line
      ≡ bottommost_line d
        +ℤ neg (pos ((d.screen_lines + neg_part line - pos_part line - 1) % d.total_lines))
unfolding clamp_line
wrap_above d line h = rw (
  not_le (pos_part line + 0) (d.screen_lines + neg_part line) h,
  distance d.screen_lines line h,
  rem-neg (d.screen_lines + neg_part line - pos_part line - 1) d.total_lines,
)

unbounded_bounds :
    (d : Dimensions) (line : ℤ)
    → IsValid d
    → (topmost_line d ≤ℤ clamp_line d Boundary.unbounded line)
      × (clamp_line d Boundary.unbounded line ≤ℤ bottommost_line d)
unbounded_bounds d (pos n) v = elim (Bool-cases (ltb_ℤ (pos n) (pos d.screen_lines))) [
  | inl above ↦ rw (wrap_above d (pos n) above) (up_bounds d _ v (mod-lt _ (omega arith)))
  | inr below ↦ rw (wrap_below d n (ground arith)) (down_bounds d _ v (mod-lt _ (omega arith)))
]
unbounded_bounds d (negsuc n) v =
    rw (wrap_above d (negsuc n) (ground arith)) (up_bounds d _ v (mod-lt _ (omega arith)))

up_fixed :
    (d : Dimensions) (line : ℤ)
    → IsValid d
    → line ≤ℤ bottommost_line d
    → bottommost_line d +ℤ neg (pos (d.screen_lines + neg_part line - pos_part line - 1)) ≡ line
up_fixed d (pos n) v k = ground arith
up_fixed d (negsuc n) v k = ground arith

up_distance :
    (d : Dimensions) (line : ℤ)
    → IsValid d
    → topmost_line d ≤ℤ line
    → d.screen_lines + neg_part line - pos_part line - 1 < d.total_lines
up_distance d line v h = ground arith

up_test :
    (d : Dimensions) (line : ℤ)
    → IsValid d
    → line ≤ℤ bottommost_line d
    → ltb_ℤ line (pos d.screen_lines) ≡ true
up_test d line v k = ground arith

-- Whatever the boundary, a clamped line lies between its topmost line and the bottommost one.
pub clamp_line_bounds :
    (d : Dimensions) (boundary : Boundary) (line : ℤ)
    → IsValid d
    → (top_of d boundary ≤ℤ clamp_line d boundary line)
      × (clamp_line d boundary line ≤ℤ bottommost_line d)
unfolding clamp_line
clamp_line_bounds d Boundary.cursor line v = ground arith
clamp_line_bounds d Boundary.grid line v = ground arith
clamp_line_bounds d Boundary.unbounded line v = unbounded_bounds d line v

-- A line within the boundary stays.
pub clamp_line_fixed :
    (d : Dimensions) (boundary : Boundary) (line : ℤ)
    → IsValid d
    → top_of d boundary ≤ℤ line
    → line ≤ℤ bottommost_line d
    → clamp_line d boundary line ≡ line
unfolding clamp_line
clamp_line_fixed d Boundary.cursor (pos n) v h k = ground arith
clamp_line_fixed d Boundary.cursor (negsuc n) v h k = ground arith
clamp_line_fixed d Boundary.grid (pos n) v h k = ground arith
clamp_line_fixed d Boundary.grid (negsuc n) v h k = ground arith
clamp_line_fixed d Boundary.unbounded line v h k =
    wrap_above d line (up_test d line v k)
    ∙ (ap (λ r. bottommost_line d +ℤ neg (pos r)) (mod-eq_of_lt (up_distance d line v h))
        ∙ up_fixed d line v k)

-- In a grid with a line and a column at least, a clamped point lies between the topmost line that the
-- boundary allows and the bottommost line, and in a column of the grid, whatever the boundary.
pub grid_clamp_bounds :
    (d : Dimensions) (boundary : Boundary) (p : Point)
    → IsValid d
    → (top_of d boundary ≤ℤ (grid_clamp d boundary p).line)
      × ((grid_clamp d boundary p).line ≤ℤ bottommost_line d)
      × ((grid_clamp d boundary p).column < d.columns)
unfolding grid_clamp
grid_clamp_bounds d Boundary.cursor p v = ground arith
grid_clamp_bounds d Boundary.grid p v = ground arith
grid_clamp_bounds d Boundary.unbounded p v =
    let (a, b) = clamp_line_bounds d Boundary.unbounded p.line v in (a, b, omega arith)
