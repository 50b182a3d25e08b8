-- ===== src/Damage.antt =====
-- The damage tracking of the terminal: `LineDamageBounds`, `TermDamageIterator` and
-- `TermDamageState` of alacritty_terminal/src/term/mod.rs. A line out of range is a panic, `none`.
pub mod Report
mod Tests
use package.alacritty_pro.Prelude.{
  ℕ, zero, suc, ◌+◌, ◌-◌, min, max, Bool, true, false, Option, none, some, List, [], ◌∷◌, map, leb,
  if◌then◌else◌, ◌>>=◌, length, get_elem?, set, take,
}
use package.alacritty_pro.Prelude.Int.{ℤ, pos}
use package.alacritty_pro.Index.{Point}

pub record LineDamageBounds : Type 0 where
  pub line : ℕ
  pub left : ℕ
  pub right : ℕ

unfoldable pub undamaged : ℕ → ℕ → LineDamageBounds
undamaged line num_cols = record { line = line; left = num_cols; right = 0 }

unfoldable pub reset_bounds : ℕ → LineDamageBounds → LineDamageBounds
unfolding undamaged
reset_bounds num_cols b = undamaged b.line num_cols

unfoldable pub expand : LineDamageBounds → ℕ → ℕ → LineDamageBounds
expand b left right = record b { left = min b.left left; right = max b.right right }

unfoldable pub is_damaged : LineDamageBounds → Bool
is_damaged b = leb b.left b.right

pub record TermDamageState : Type 0 where
  pub full : Bool
  pub lines : List LineDamageBounds
  pub last_cursor : Point

abbrev pub origin : Point
origin = record { line = pos 0; column = 0 }

-- One undamaged entry for each of `n` lines from `line` on.
unfoldable pub undamaged_lines : ℕ → ℕ → ℕ → List LineDamageBounds
unfolding undamaged
undamaged_lines num_cols zero line = []
undamaged_lines num_cols (suc n) line =
    undamaged line num_cols ∷ undamaged_lines num_cols n (suc line)

unfoldable pub new : ℕ → ℕ → TermDamageState
unfolding undamaged_lines
new num_cols num_lines = record {
  full = true;
  lines = undamaged_lines num_cols num_lines 0;
  last_cursor = origin;
}

unfoldable pub resize : TermDamageState → ℕ → ℕ → TermDamageState
unfolding undamaged_lines
resize d num_cols num_lines = record {
  full = true;
  lines = undamaged_lines num_cols num_lines 0;
  last_cursor = origin;
}

unfoldable pub damage_line : TermDamageState → ℕ → ℕ → ℕ → Option TermDamageState
unfolding expand
damage_line d line left right = do
  b ← get_elem? d.lines line
  some (record d { lines = set d.lines line (expand b left right) })

-- The point is one of the viewport, at a line that is not negative.
unfoldable pub damage_point : TermDamageState → ℕ → ℕ → Option TermDamageState
unfolding damage_line
damage_point d line column = damage_line d line column column

unfoldable pub reset : TermDamageState → ℕ → TermDamageState
unfolding reset_bounds
reset d num_cols = record d { full = false; lines = map (reset_bounds num_cols) d.lines }

-- What the iterator yields: `next` finds the next damaged line, until none is left.
unfoldable pub damaged_lines : ℕ → List LineDamageBounds → List LineDamageBounds
unfolding is_damaged
damaged_lines display_offset [] = []
damaged_lines display_offset (b ∷ bs) =
    let rest = damaged_lines display_offset bs in
    if is_damaged b
    then record { line = b.line + display_offset; left = b.left; right = b.right } ∷ rest
    else rest

-- `TermDamageIterator::new` over the lines that the display offset leaves visible.
unfoldable pub iterator : List LineDamageBounds → ℕ → List LineDamageBounds
unfolding damaged_lines
iterator line_damage display_offset =
    damaged_lines display_offset (take (length line_damage - display_offset) line_damage)
