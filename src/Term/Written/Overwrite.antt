-- ===== src/Term/Written/Overwrite.antt =====
-- Overwriting one cell of the buffer, through `update_cell`.
use alacritty_pro.Prelude.{
  List, ℕ, ◌+◌, ◌<◌, ◌≡◌, ◌≢◌, ◌⊎◌, refl, sym, ◌∙◌, ap, arith, Option, some, >>=-step, ◌>>=◌, ◌==◌,
  inl, inr, Bool-cases, lt→ltb, length, get_elem?, set, max, get_elem?-set, get_elem?-some,
  get_elem?-take,
}
use alacritty_pro.Prelude.Int.{ℤ}
use alacritty_pro.Row
use alacritty_pro.Row.{Row, GridCell}
use alacritty_pro.Storage
use alacritty_pro.Storage.{Storage}
use alacritty_pro.Storage.View.{ring, contents, length-ring}
use alacritty_pro.Storage.Access.{
  InRange, position, SameShape, SameShape-IsValid, index-contents, update-set,
}
use alacritty_pro.Term.{Term}
use alacritty_pro.Term.Write.{edit_row, edit_cell, update_cell, read_cell}
use alacritty_pro.Term.Safe.{IsValid}

module _ {T : Type 0} where
  -- The terminal with other rows.
  abbrev pub with_rows : Term T → Storage T → Term T
  with_rows t raw = record t { grid = record t.grid { raw = raw } }

  cell_of : Option (Row T) → ℕ → Option T
  cell_of m column = m >>= (λ row. get_elem? row.inner column)

  -- Reading a cell, by the position of its line.
  read_cell-ring :
      (t : Term T) (line : ℤ) (column : ℕ)
      → Storage.View.IsValid t.grid.raw
      → InRange t.grid.raw line
      → read_cell t line column
        ≡ cell_of (get_elem? (ring t.grid.raw) (position t.grid.raw line)) column
  unfolding read_cell Row.index cell_of
  read_cell-ring t line column v h =
      let s = t.grid.raw in
      ap (λ m. m >>= (λ (row : Row T). get_elem? row.inner column))
        (index-contents {s = s} line v h
          ∙ get_elem?-take s.len (ring s) (position s line)
          ∙ ground arith)

  -- A row is replaced by one that differs in one cell.
  set_cells :
      (xs : List (Row T)) (p column : ℕ) (row row' : Row T) (new : T)
      → get_elem? xs p ≡ some row
      → p < length xs
      → column < length row.inner
      → row'.inner ≡ set row.inner column new
      → (cell_of (get_elem? (set xs p row') p) column ≡ some new)
        × ((q k : ℕ)
            → (q ≢ p) ⊎ (k ≢ column)
            → cell_of (get_elem? (set xs p row') q) k ≡ cell_of (get_elem? xs q) k)
  unfolding cell_of
  set_cells xs p column row row' new at hp inside e = (
    ap cell_at_column {x = get_elem? (set xs p row') p} {y = some row'}
          (get_elem?-set xs p p row' hp ∙ ground arith)
        ∙ ap (λ l. get_elem? l column) e
        ∙ get_elem?-set row.inner column column new inside
        ∙ ground arith,
    λ q k h. elim (Bool-cases (q == p)) [
      | inl same ↦ elim h [
        | inl other ↦ absurd (other (ground arith))
        | inr apart ↦
            let kept : get_elem? (set row.inner column new) k ≡ get_elem? row.inner k =
              get_elem?-set row.inner column k new inside ∙ ground arith in
            ap (in_column k) {x = get_elem? (set xs p row') q} {y = some row'}
              (get_elem?-set xs p q row' hp ∙ ground arith)
            ∙ ap (λ l. get_elem? l k) e
            ∙ kept
            ∙ sym (
                ap (in_column k) {x = get_elem? xs q} {y = some row}
                  (ap (get_elem? xs) {x = q} {y = p} (ground arith) ∙ at))
      ]
      | inr other ↦
          ap (in_column k) {x = get_elem? (set xs p row') q} {y = get_elem? xs q}
            (get_elem?-set xs p q row' hp ∙ ground arith)
    ],
  )
    where
      in_column : ℕ → Option (Row T) → Option T
      in_column k m = m >>= (λ (r : Row T). get_elem? r.inner k)

      cell_at_column : Option (Row T) → Option T
      cell_at_column = in_column column

  -- A cell is overwritten: it can be read back, and all other cells are as before.
  pub record Overwritten (t : Term T) (line : ℤ) (column : ℕ) (new : T) (m : Option (Term T))
      : Type 0 where
    pub raw : Storage T
    pub returns : m ≡ some (with_rows t raw)
    pub shape : SameShape t.grid.raw raw
    pub here : read_cell (with_rows t raw) line column ≡ some new
    pub elsewhere :
        (l : ℤ) (k : ℕ)
        → InRange t.grid.raw l
        → (position t.grid.raw l ≢ position t.grid.raw line) ⊎ (k ≢ column)
        → read_cell (with_rows t raw) l k ≡ read_cell t l k

  overwrite_row :
      (t : Term T) (line : ℤ) (column : ℕ) (new : T) (row : Row T)
      → Storage.View.IsValid t.grid.raw
      → InRange t.grid.raw line
      → get_elem? (ring t.grid.raw) (position t.grid.raw line) ≡ some row
      → position t.grid.raw line < length (ring t.grid.raw)
      → column < length row.inner
      → Overwritten t line column new (update_cell t line column (λ _. new))
  unfolding update_cell edit_row edit_cell Row.index Row.write
  overwrite_row t line column new row v h at hp inside =
      let s = t.grid.raw in
      let (old, e) = get_elem?-some row.inner column inside in
      let row' : Row T = record {
        inner = set row.inner column new;
        occ = max row.occ (column + 1);
      } in
      let wrote : edit_cell column (λ _. new) row ≡ some row' =
        >>=-step _ _ e (rw (lt→ltb column (length row.inner) inside) refl) in
      let (raw, done, shape, ring_raw) =
        update-set {s = s} line (edit_cell column (λ _. new)) v h
          (get_elem?-take s.len (ring s) (position s line) ∙ ground arith) wrote in
      let cells = set_cells (ring s) (position s line) column row row' new at hp inside refl in
      let same = shape.same_visible in
      let at_set = λ (l : ℤ) (k : ℕ) (b : InRange s l).
        read_cell-ring (with_rows t raw) l k (SameShape-IsValid shape v) (omega (arith, shape))
        ∙ ap (λ xs. cell_of (get_elem? xs (position raw l)) k) ring_raw
        ∙ ap (λ q. cell_of (get_elem? (set (ring s) (position s line) row') q) k)
            {x = position raw l} {y = position s l} (omega (arith, shape)) in
      record {
        raw = raw;
        returns = >>=-step _ _ done refl;
        shape = shape;
        here = at_set line column h ∙ cells.0;
        elsewhere =
            λ l k b o. at_set l k b ∙ cells.1 (position s l) k o ∙ sym (read_cell-ring t l k v b);
      }

module _ {T : Type 0} ⦃cell : GridCell T⦄ where
  pub overwrite :
      (t : Term T) (line : ℤ) (column : ℕ) (new : T)
      → IsValid t
      → InRange t.grid.raw line
      → column < t.grid.columns
      → Overwritten t line column new (update_cell t line column (λ _. new))
  overwrite t line column new v h k =
      let s = t.grid.raw in
      let hp : position s line < length (ring s) =
        omega (arith, length-ring v.grid.raw, v.grid.raw) in
      let (row, at) = get_elem?-some (ring s) (position s line) hp in
      overwrite_row t line column new row v.grid.raw h at hp
        (omega (arith, (v.grid.rows (position s line) row at).width))
