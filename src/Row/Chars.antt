-- ===== src/Row/Chars.antt =====
-- Inserting and deleting characters in the line of the cursor.
use alacritty_pro.Prelude.{
  ℕ, ◌+◌, ◌-◌, ◌≤◌, ◌<◌, min, ◌≡◌, refl, ◌∙◌, ap, arith, Option, some, inl, inr, ltb, if◌then◌else◌,
  Bool-cases, le→leb, length, get_elem?,
}
use alacritty_pro.Row.{Row, full_slice}
use alacritty_pro.Row.Edit.{shift_right, shift_left, insert_blank, delete_chars}
use alacritty_pro.Row.Shift.{
  ShiftedRight, ShiftedLeft, shift_right-ShiftedRight, shift_left-ShiftedLeft, fill_lem,
}

module _ {T : Type 0} where
  abbrev pub cell_at : Row T → ℕ → Option T
  cell_at r i = get_elem? r.inner i

  -- The row after an edit that succeeds, with every cell of it given and marked as occupied.
  pub record Edited (r : Row T) (after : ℕ → Option T) (m : Option (Row T)) : Type 0 where
    pub out : Row T
    pub returns : m ≡ some out
    pub size : length out.inner ≡ length r.inner
    pub occupied : out.occ ≡ length r.inner
    pub cells : (i : ℕ) → i < length r.inner → cell_at out i ≡ after i

  -- Inserting `count` blanks at a column of the row: the cells in front of it stay, blanks follow, as
  -- many as fit, then the old cells, moved to the right; those that do not fit are lost. The row keeps
  -- its length, and nothing panics, whatever the count.
  pub insert_blank_lem :
      (r : Row T) (blank : T) (column count : ℕ)
      → column < length r.inner
      → Edited r
          (λ i.
            if ltb i column
            then cell_at r i
            else if ltb i (column + min count (length r.inner - column))
            then some blank
            else cell_at r (i - min count (length r.inner - column)))
          (insert_blank (length r.inner) blank column count r)
  unfolding insert_blank full_slice
  insert_blank_lem r blank column count h =
      let columns = length r.inner in
      let n = min count (columns - column) in
      let destination = column + n in
      let fits : destination ≤ columns = omega arith in
      let shifted =
        shift_right-ShiftedRight (columns - destination) destination column r.inner (omega arith)
          (omega arith) in
      let (out, e, size, at) =
        fill_lem column destination blank shifted.out (omega arith) (omega (arith, shifted.size)) in
      record {
        out = record (full_slice r) { inner = out };
        returns = rw (le→leb column columns (omega arith), shifted.returns, e) refl;
        size = size ∙ shifted.size;
        occupied = refl;
        cells = λ i a. at i ∙ place i a shifted;
      }
    where
      place :
          (i : ℕ)
          → i < length r.inner
          → (s : ShiftedRight
              (length r.inner - (column + min count (length r.inner - column)))
              (column + min count (length r.inner - column))
              column
              r.inner
              (shift_right
                (length r.inner - (column + min count (length r.inner - column)))
                (column + min count (length r.inner - column))
                column
                r.inner))
          → (if ltb i column
              then get_elem? s.out i
              else if ltb i (column + min count (length r.inner - column))
              then some blank
              else get_elem? s.out i)
            ≡ (if ltb i column
                then cell_at r i
                else if ltb i (column + min count (length r.inner - column))
                then some blank
                else cell_at r (i - min count (length r.inner - column)))
      place i a s = elim (Bool-cases (ltb i column)) [
        | inl front ↦ rw front (s.below i (ground arith))
        | inr behind ↦ elim (Bool-cases (ltb i (column + min count (length r.inner - column)))) [
          | inl new ↦ rw (behind, new) refl
          | inr old ↦
              let d = column + min count (length r.inner - column) in
              let k : i ≡ d + (i - d) = ground arith in
              rw (behind, old)
                (ap (get_elem? s.out) k
                  ∙ (s.moved (i - d) (ground arith) ∙ ap (get_elem? r.inner) (ground arith)))
        ]
      ]

  -- Deleting `count` cells at a column of the row, at most as many as are there from it on: the cells
  -- in front of the column stay, the cells behind the deleted ones move to it, and blanks fill the end.
  pub delete_chars_lem :
      (r : Row T) (blank : T) (column count : ℕ)
      → column < length r.inner
      → column + count ≤ length r.inner
      → Edited r
          (λ i.
            if ltb i column
            then cell_at r i
            else if ltb i (length r.inner - count)
            then cell_at r (i + count)
            else some blank)
          (delete_chars (length r.inner) blank column count r)
  unfolding delete_chars full_slice
  delete_chars_lem r blank column count h fits =
      let columns = length r.inner in
      let n = min count columns in
      let same : n ≡ count = omega arith in
      let end = min (column + n) (columns - 1) in
      let shifted =
        shift_left-ShiftedLeft (columns - end) column end r.inner (omega arith) (omega arith) in
      let (out, e, size, at) =
        fill_lem (columns - n) (length shifted.out) blank shifted.out (omega (arith, shifted.size))
          (omega arith) in
      record {
        out = record (full_slice r) { inner = out };
        returns = rw (shifted.returns, e) refl;
        size = size ∙ shifted.size;
        occupied = refl;
        cells = λ i a. at i ∙ place i a shifted;
      }
    where
      place :
          (i : ℕ)
          → i < length r.inner
          → (s : ShiftedLeft
              (length r.inner - min (column + min count (length r.inner)) (length r.inner - 1))
              column
              (min (column + min count (length r.inner)) (length r.inner - 1))
              r.inner
              (shift_left
                (length r.inner - min (column + min count (length r.inner)) (length r.inner - 1))
                column
                (min (column + min count (length r.inner)) (length r.inner - 1))
                r.inner))
          → (if ltb i (length r.inner - min count (length r.inner))
              then get_elem? s.out i
              else if ltb i (length s.out)
              then some blank
              else get_elem? s.out i)
            ≡ (if ltb i column
                then cell_at r i
                else if ltb i (length r.inner - count)
                then cell_at r (i + count)
                else some blank)
      place i a s = elim (Bool-cases (ltb i column)) [
        | inl front ↦ ground (arith, s.below i (ground arith))
        | inr behind ↦ ground (arith, s.size, s.moved (i - column))
      ]

  -- Deleting more cells than there are from the column on, at most as many as the row has, blanks the
  -- last `count` cells of the row, also those in front of the column.
  pub delete_chars_beyond :
      (r : Row T) (blank : T) (column count : ℕ)
      → column < length r.inner
      → length r.inner < column + count
      → count ≤ length r.inner
      → Edited r
          (λ i. if ltb i (length r.inner - count) then cell_at r i else some blank)
          (delete_chars (length r.inner) blank column count r)
  unfolding delete_chars full_slice
  delete_chars_beyond r blank column count h beyond most =
      let columns = length r.inner in
      let n = min count columns in
      let end = min (column + n) (columns - 1) in
      let shifted =
        shift_left-ShiftedLeft (columns - end) column end r.inner (omega arith) (omega arith) in
      let (out, e, size, at) =
        fill_lem (columns - n) (length shifted.out) blank shifted.out (omega (arith, shifted.size))
          (omega arith) in
      record {
        out = record (full_slice r) { inner = out };
        returns = rw (shifted.returns, e) refl;
        size = size ∙ shifted.size;
        occupied = refl;
        cells = λ i a. at i ∙ ground (arith, shifted.size, shifted.below i);
      }
