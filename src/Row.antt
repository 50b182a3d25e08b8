-- ===== src/Row.antt =====
-- A row of the grid: `Row` of alacritty_terminal/src/grid/row.rs, and the trait `GridCell` of
-- alacritty_terminal/src/grid/mod.rs with `ResetDiscriminant` of term/cell.rs.
-- A slice or an index out of range is a panic, the result `none`.
pub mod Occupied
pub mod Cells
pub mod Edit
pub mod Shift
pub mod Chars
mod Tests
use package.alacritty_pro.Prelude.{
  ℕ, zero, suc, ◌+◌, ◌-◌, min, max, Bool, true, false, not, ◌&&◌, Option, none, some, List, [], ◌∷◌,
  ◌++◌, map, leb, ltb, ◌==◌, if◌then◌else◌, ◌>>=◌, ◌>>◌, assert, length, get_elem?, set, take, drop,
  replicate,
}

-- What a grid asks of its cells. `same_discriminant` is the test that `Row::reset` makes, the
-- equality of two cells' discriminants.
pub record GridCell (T : Type 0) : Type 0 where
  pub default : T
  pub is_empty : T → Bool
  pub reset : T → T → T
  pub same_discriminant : T → T → Bool

pub record Row (T : Type 0) : Type 0 where
  pub inner : List T
  pub occ : ℕ

module _ {T : Type 0} where
  -- `all(is_empty)` over the cells
  unfoldable pub all_empty : (T → Bool) → List T → Bool
  all_empty e [] = true
  all_empty e (c ∷ cs) = e c && all_empty e cs

  -- The cells up to the last one that is not empty: the list truncated behind it.
  unfoldable pub trim_empty : (T → Bool) → List T → List T
  unfolding all_empty
  trim_empty e [] = []
  trim_empty e (c ∷ cs) = if e c && all_empty e cs then [] else c ∷ trim_empty e cs

  unfoldable pub len : Row T → ℕ
  len r = length r.inner

  unfoldable pub last : Row T → Option T
  last r = get_elem? r.inner (length r.inner - 1)

  unfoldable pub from_vec : List T → ℕ → Row T
  from_vec vec occ = record { inner = vec; occ = occ }

  unfoldable pub append : Row T → List T → Row T
  append r vec = record { inner = r.inner ++ vec; occ = r.occ + length vec }

  unfoldable pub append_front : Row T → List T → Row T
  append_front r vec = record { inner = vec ++ r.inner; occ = r.occ + length vec }

  -- Returns the cells in front of `at`; `split_off` panics beyond the end.
  unfoldable pub front_split_off : Row T → ℕ → Option (List T × Row T)
  front_split_off r at = do
    assert (leb at (length r.inner))
    some (take at r.inner, record { inner = drop at r.inner; occ = r.occ - at })

  -- Reading a cell.
  unfoldable pub index : Row T → ℕ → Option T
  index r column = get_elem? r.inner column

  -- Writing `c` through the mutable reference to the cell at `column`.
  unfoldable pub write : Row T → ℕ → T → Option (Row T)
  write r column c = do
    assert (ltb column (length r.inner))
    some (record { inner = set r.inner column c; occ = max r.occ (column + 1) })

  -- Overwriting every cell of the mutable slice `left..right` by `c`.
  unfoldable pub fill_range : Row T → ℕ → ℕ → T → Option (Row T)
  fill_range r left right c = do
    assert (leb left right)
    assert (leb right (length r.inner))
    some (record {
      inner = take left r.inner ++ (replicate (right - left) c ++ drop right r.inner);
      occ = max r.occ right;
    })

  -- The mutable slice of the whole row marks every cell as occupied.
  unfoldable pub full_slice : Row T → Row T
  full_slice r = record r { occ = length r.inner }

module _ {T : Type 0} ⦃cell : GridCell T⦄ where
  abbrev pub default_row : ℕ → Row T
  default_row columns = record { inner = replicate columns cell.default; occ = 0 }

  -- `Row::new`, which asserts that there is a column.
  unfoldable pub new : ℕ → Option (Row T)
  new columns = assert (leb 1 columns) >> some (default_row columns)

  unfoldable pub grow : Row T → ℕ → Row T
  grow r columns =
      if leb columns (length r.inner)
      then r
      else record r { inner = r.inner ++ replicate (columns - length r.inner) cell.default }

  -- Returns the cells that are cut off, without the empty ones at their end.
  unfoldable pub shrink : Row T → ℕ → Option (List T) × Row T
  unfolding trim_empty
  shrink r columns =
      if leb (length r.inner) columns
      then (none, r)
      else let new_row = trim_empty cell.is_empty (drop columns r.inner) in
        let rest : Row T = record { inner = take columns r.inner; occ = min r.occ columns } in
        (if length new_row == 0 then none else some new_row, rest)

  unfoldable pub is_clear : Row T → Bool
  unfolding all_empty
  is_clear r = all_empty cell.is_empty r.inner

  -- Resets the cells in front of `occ`, or all if the discriminant of the template differs from
  -- that of the last cell.
  unfoldable pub reset : Row T → T → Option (Row T)
  reset r template = do
    let n = length r.inner
    last ← get_elem? r.inner (n - 1)
    let occ = if cell.same_discriminant last template then r.occ else n
    assert (leb occ n)
    some (record {
      inner = map (λ c. cell.reset c template) (take occ r.inner) ++ drop occ r.inner;
      occ = 0;
    })
