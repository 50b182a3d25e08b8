-- ===== src/Term/Written/Rows.antt =====
-- The edits of a row that writing characters makes keep its cells and its `occ` in order.
use alacritty_pro.Prelude.{
  ℕ, ◌+◌, ◌-◌, ◌≤◌, ◌<◌, ◌≡◌, refl, ◌∙◌, arith, some, length, set, take, drop, ◌++◌, replicate,
  get_elem?-some, >>=-step, lt→ltb, min, le→leb, max,
}
use alacritty_pro.Row
use alacritty_pro.Row.{Row, GridCell, full_slice, fill_range}
use alacritty_pro.Row.Occupied.{write-IsValid, fill_range-IsValid}
use mathlib.Core.Path.{subst}
use alacritty_pro.Row.Edit
use alacritty_pro.Row.Chars.{insert_blank_lem}
use alacritty_pro.Row.Shift.{shift_right-ShiftedRight, shift_left-ShiftedLeft, fill_lem}
use alacritty_pro.Grid.Up.{IsLine}
use alacritty_pro.Grid.Edits.{Keeps}
use alacritty_pro.Term.Write.{edit_cell, insert_cells}

module _ {T : Type 0} ⦃cell : GridCell T⦄ where
  pub edit_cell-Keeps :
      (columns column : ℕ) (f : T → T)
      → column < columns
      → Keeps (IsLine columns) (edit_cell column f)
  unfolding edit_cell Row.index Row.write
  edit_cell-Keeps columns column f h row line =
      let (c, e) = get_elem?-some row.inner column (omega (arith, line.width)) in
      let out : Row T = record {
        inner = set row.inner column (f c);
        occ = max row.occ (column + 1);
      } in
      let wrote : Row.write row column (f c) ≡ some out =
        rw (lt→ltb column (length row.inner) (omega (arith, line.width))) refl in
      let (valid, size) = write-IsValid row column (f c) line.valid wrote in
      (out, >>=-step _ _ e wrote, record { valid = valid; width = size ∙ line.width })

  pub fill_range-Keeps :
      (columns left right : ℕ) (c : T)
      → left ≤ right
      → right ≤ columns
      → Keeps (IsLine columns) (λ row. fill_range row left right c)
  unfolding fill_range
  fill_range-Keeps columns left right c h k row line =
      let out : Row T = record {
        inner = take left row.inner ++ (replicate (right - left) c ++ drop right row.inner);
        occ = max row.occ right;
      } in
      let done : fill_range row left right c ≡ some out =
        rw (le→leb left right h, le→leb right (length row.inner) (omega (arith, line.width)))
          refl in
      let (valid, size) = fill_range-IsValid row left right c line.valid done in
      (out, done, record { valid = valid; width = size ∙ line.width })

  pub insert_cells-Keeps :
      (columns width column : ℕ)
      → column + width ≤ columns
      → Keeps {T = T} (IsLine columns) (insert_cells columns width column)
  unfolding insert_cells full_slice
  insert_cells-Keeps columns width column h row line =
      let s =
        shift_right-ShiftedRight (columns - width - column) (column + width) column row.inner
          (omega arith) (omega (arith, line.width)) in
      (
        record { inner = s.out; occ = length row.inner },
        >>=-step _ _ s.returns refl,
        record {
          valid = record {
            within = omega (arith, s.size);
            base = line.valid.base;
            blank = λ i a b. absurd (omega (arith, s.size));
          };
          width = s.size ∙ line.width;
        },
      )

  -- A row whose cells are all marked as occupied is in order.
  full-IsLine :
      (columns : ℕ) (row out : Row T)
      → IsLine columns row
      → length out.inner ≡ length row.inner
      → out.occ ≡ length row.inner
      → IsLine columns out
  full-IsLine columns row out line size occ = record {
    valid = record {
      within = omega arith;
      base = line.valid.base;
      blank = λ i a b. absurd (omega arith);
    };
    width = size ∙ line.width;
  }

  pub insert_blank-Keeps :
      (columns column count : ℕ) (blank : T)
      → column < columns
      → Keeps {T = T} (IsLine columns) (Edit.insert_blank columns blank column count)
  insert_blank-Keeps columns column count blank h row line =
      let e = insert_blank_lem row blank column count (omega (arith, line.width)) in
      (
        e.out,
        subst (λ n. Edit.insert_blank n blank column count row ≡ some e.out) line.width e.returns,
        full-IsLine columns row e.out line e.size e.occupied,
      )

  pub delete_chars-Keeps :
      (columns column count : ℕ) (blank : T)
      → column < columns
      → Keeps {T = T} (IsLine columns) (Edit.delete_chars columns blank column count)
  unfolding Edit.delete_chars full_slice
  delete_chars-Keeps columns column count blank h row line =
      let n = min count columns in
      let end = min (column + n) (columns - 1) in
      let shifted =
        shift_left-ShiftedLeft (columns - end) column end row.inner (omega arith)
          (omega (arith, line.width)) in
      let (out, e, size, _) =
        fill_lem (columns - n) (length shifted.out) blank shifted.out
          (omega (arith, shifted.size, line.width)) (omega arith) in
      let full : Row T = record { inner = out; occ = length row.inner } in
      (
        full,
        >>=-step _ _ shifted.returns (>>=-step _ _ e refl),
        full-IsLine columns row full line (size ∙ shifted.size) refl,
      )
