-- ===== src/Storage.antt =====
-- The ring buffer of rows: `Storage` of alacritty_terminal/src/grid/storage.rs.
-- An operation that panics, by an index out of range, a failed assertion or an arithmetic
-- underflow (both checked in a debug build), has the result `none`.
pub mod View
pub mod Access
pub mod Rotate
pub mod Resize
mod Tests
use package.alacritty_pro.Prelude.{
  ℕ, zero, suc, ◌+◌, ◌-◌, ◌%◌, max, Bool, ◌||◌, Option, none, some, List, [], ◌∷◌, ◌++◌, leb, ltb,
  ◌==◌, if◌then◌else◌, ◌>>=◌, ◌>>◌, assert, length, get_elem?, set, take, drop, replicate,
}
use package.alacritty_pro.Prelude.Int.{ℤ, pos, ◌+ℤ◌, ◌-ℤ◌, neg, pos_part, neg_part, ltb_ℤ}
use package.alacritty_pro.Row
use package.alacritty_pro.Row.{Row, GridCell}

pub record Storage (T : Type 0) : Type 0 where
  pub inner : List (Row T)
  pub zero : ℕ
  pub visible_lines : ℕ
  pub len : ℕ

abbrev pub max_cache_size : ℕ
max_cache_size = 1000

-- `[T]::rotate_left`
abbrev pub rotate_left {ℓ} : {A : Type ℓ} → ℕ → List A → List A
rotate_left n xs = drop n xs ++ take n xs

module _ {T : Type 0} where
  unfoldable pub rezero : Storage T → Option (Storage T)
  rezero s = if s.zero == 0 then some s else do
    assert (leb s.zero (length s.inner))
    some (record s { inner = rotate_left s.zero s.inner; zero = 0 })

  unfoldable pub truncate : Storage T → Option (Storage T)
  unfolding rezero
  truncate s = do s' ← rezero s; some (record s' { inner = take s'.len s'.inner })

  unfoldable pub shrink_lines : Storage T → ℕ → Option (Storage T)
  unfolding truncate
  shrink_lines s shrinkage = do
    assert (leb shrinkage s.len)
    let s' : Storage T = record s { len = s.len - shrinkage }
    if ltb (s'.len + max_cache_size) (length s'.inner) then truncate s' else some s'

  unfoldable pub shrink_visible_lines : Storage T → ℕ → Option (Storage T)
  unfolding shrink_lines
  shrink_visible_lines s next = do
    assert (leb next s.visible_lines)
    s' ← shrink_lines s (s.visible_lines - next)
    some (record s' { visible_lines = next })

  -- The index of a line in `inner`.
  unfoldable pub compute_index : Storage T → ℤ → Option ℕ
  compute_index s requested = do
    assert (ltb_ℤ requested (pos s.visible_lines))
    let positive = pos_part (neg (requested -ℤ pos s.visible_lines)) - 1
    assert (ltb positive s.len)
    let zeroed = s.zero + positive
    some (if leb (length s.inner) zeroed then zeroed - length s.inner else zeroed)

  unfoldable pub index : Storage T → ℤ → Option (Row T)
  unfolding compute_index
  index s line = do i ← compute_index s line; get_elem? s.inner i

  -- A write through the mutable reference to the row of a line.
  unfoldable pub update : Storage T → ℤ → (Row T → Option (Row T)) → Option (Storage T)
  unfolding compute_index
  update s line f = do
    i ← compute_index s line
    row ← get_elem? s.inner i
    row' ← f row
    some (record s { inner = set s.inner i row' })

  unfoldable pub swap : Storage T → ℤ → ℤ → Option (Storage T)
  unfolding compute_index
  swap s a b = do
    i ← compute_index s a
    j ← compute_index s b
    x ← get_elem? s.inner i
    y ← get_elem? s.inner j
    some (record s { inner = set (set s.inner i y) j x })

  unfoldable pub rotate : Storage T → ℤ → Option (Storage T)
  rotate s count = do
    let n = length s.inner
    assert (leb (pos_part count + neg_part count) n)
    assert (ltb 0 n)
    some (record s { zero = pos_part (pos s.zero +ℤ count +ℤ pos n) % n })

  unfoldable pub rotate_down : Storage T → ℕ → Option (Storage T)
  rotate_down s count = do
    assert (ltb 0 (length s.inner))
    some (record s { zero = (s.zero + count) % length s.inner })

  unfoldable pub replace_inner : Storage T → List (Row T) → Storage T
  replace_inner s vec = record s { inner = vec; zero = 0; len = length vec }

  unfoldable pub take_all : Storage T → Option (List (Row T) × Storage T)
  unfolding truncate
  take_all s = do s' ← truncate s; some (s'.inner, record s' { inner = []; len = 0 })

module _ {T : Type 0} ⦃cell : GridCell T⦄ where
  -- The rows that `resize_with` appends.
  unfoldable pub new_rows : ℕ → ℕ → Option (List (Row T))
  unfolding Row.new
  new_rows zero columns = some []
  new_rows (suc n) columns = do row ← Row.new columns; rows ← new_rows n columns; some (row ∷ rows)

  unfoldable pub with_capacity : ℕ → ℕ → Option (Storage T)
  unfolding new_rows
  with_capacity visible_lines columns = do
    inner ← new_rows visible_lines columns
    some (record { inner = inner; zero = 0; visible_lines = visible_lines; len = visible_lines })

  unfoldable pub initialize : Storage T → ℕ → ℕ → Option (Storage T)
  unfolding rezero new_rows
  initialize s additional_rows columns = do
    s' ←
        if ltb (length s.inner) (s.len + additional_rows)
        then rezero s >>= (λ z.
          new_rows (max additional_rows max_cache_size) columns
          >>= (λ rows. some (record z { inner = z.inner ++ rows })))
        else some s
    some (record s' { len = s'.len + additional_rows })

  unfoldable pub grow_visible_lines : Storage T → ℕ → Option (Storage T)
  unfolding initialize index
  grow_visible_lines s next = do
    assert (leb s.visible_lines next)
    row ← index s (pos 0)
    s' ← initialize s (next - s.visible_lines) (length row.inner)
    some (record s' { visible_lines = next })
