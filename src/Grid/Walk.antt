-- ===== src/Grid/Walk.antt =====
-- The iterator visits the cells of the grid one after the other, in both directions.
use alacritty_pro.Prelude.{
  ℕ, ◌+◌, ◌*◌, ◌<◌, ◌≡◌, refl, ◌∙◌, arith, Option, none, some, ◌⊎◌, inl, inr, >>=-step, Bool-cases,
  length, get_elem?, get_elem?-some, get_elem?-take,
}
use alacritty_pro.Prelude.Int.{ℤ, pos, negsuc, ◌≤ℤ◌}
use alacritty_pro.Index
use alacritty_pro.Index.{Point, Dimensions, Boundary, add_line, sub_line, point_le}
use alacritty_pro.Index.Clamp
use alacritty_pro.Index.Steps.{Inside, cell_number}
use alacritty_pro.Row
use alacritty_pro.Row.{Row, GridCell}
use alacritty_pro.Storage.{Storage}
use alacritty_pro.Storage.View.{ring, contents, length-contents}
use alacritty_pro.Storage.Access.{InRange, position, index-contents}
use alacritty_pro.Grid.Defs
use alacritty_pro.Grid.Defs.{Grid, dimensions}
use alacritty_pro.Grid.Up
use alacritty_pro.Grid.Iter.{
  GridIterator, Indexed, point_behind, point_before, cell, next, prev, iter_from,
}
use alacritty_pro.Grid.Neighbours.{
  first_point, last_point, point_behind_lem, point_before_lem, last_number, first_number,
}

in_ring :
    {T : Type 0} (s : Storage T) (q : ℕ) (row : Row T)
    → q < s.len
    → get_elem? (contents s) q ≡ some row
    → get_elem? (ring s) q ≡ some row
in_ring s q row h e = ground (arith, get_elem?-take s.len (ring s) q)

module _ {T : Type 0} ⦃grid_cell : GridCell T⦄ where
  dimensions-IsValid : (g : Grid T) → Up.IsValid g → Clamp.IsValid (dimensions g)
  dimensions-IsValid g v = record {
    some_line = omega (arith, v.raw, v.visible);
    some_column = v.some_column;
    screen_in = omega (arith, v.raw, v.visible);
  }

  in_range :
      (g : Grid T) (line : ℤ)
      → Up.IsValid g
      → Index.topmost_line (dimensions g) ≤ℤ line
      → line ≤ℤ Index.bottommost_line (dimensions g)
      → InRange g.raw line
  in_range g (pos n) v a b = (ground (arith, v.raw, v.visible), ground (arith, v.raw, v.visible))
  in_range g (negsuc n) v a b = (ground (arith, v.raw, v.visible), ground (arith, v.raw, v.visible))

  -- Every point of a valid grid has a cell.
  cell_lem :
      (g : Grid T) (p : Point)
      → Up.IsValid g
      → Inside (dimensions g) Boundary.grid p
      → (c : T) × (cell g p ≡ some c)
  unfolding cell Row.index Defs.index
  cell_lem g p v i =
      let line_in : InRange g.raw p.line = in_range g p.line v i.above i.below in
      let (row, e) =
        get_elem?-some (contents g.raw) (position g.raw p.line)
          (omega (arith, length-contents v.raw, line_in)) in
      let width : length row.inner ≡ g.columns =
        (v.rows (position g.raw p.line) row
          (in_ring g.raw (position g.raw p.line) row (omega (arith, v.raw, line_in)) e)).width in
      let (c, f) = get_elem?-some row.inner p.column (omega (arith, i.within)) in
      (c, >>=-step _ _ (index-contents p.line v.raw line_in ∙ e) f)

  -- What a step of the iterator gives at a point `p`: no item if the point is an end of the grid, and
  -- else the cell at the next point, which lies in the grid, where the iterator stands afterwards.
  pub record Stepped (g : Grid T) (it : GridIterator) (p : Point)
      (m : Option (Option (Indexed T) × GridIterator)) : Type 0 where
    pub item : T
    pub reads : cell g p ≡ some item
    pub returns : m ≡ some (some (record { point = p; cell = item }), record it { point = p })
    pub inside : Inside (dimensions g) Boundary.grid p

  -- On a valid grid, an iterator that stands at a point of the grid and ends at its last cell does not
  -- panic: it yields nothing if it stands at the last cell, and else the cell that follows in the
  -- order of the rows, where it stands afterwards.
  pub next_lem :
      (g : Grid T) (p : Point)
      → Up.IsValid g
      → Inside (dimensions g) Boundary.grid p
      → ((cell_number (dimensions g) p + 1 ≡ (dimensions g).total_lines * g.columns)
          × (next g (iter_from g p) ≡ some (none, iter_from g p)))
        ⊎ ((q : Point) × (cell_number (dimensions g) q ≡ cell_number (dimensions g) p + 1)
            × Stepped g (iter_from g p) q (next g (iter_from g p)))
  unfolding next iter_from
  next_lem g p v i = elim (Bool-cases (point_le (last_point (dimensions g)) p)) [
    | inl last ↦ inl (last_number (dimensions g) p (dimensions-IsValid g v) i last, rw last refl)
    | inr more ↦
        let (inside, number) = point_behind_lem (dimensions g) p (dimensions-IsValid g v) i more in
        let q = point_behind (dimensions g) p in
        let (c, e) = cell_lem g q v inside in
        inr
          (q, number, record { item = c; reads = e; returns = rw (more, e) refl; inside = inside })
  ]

  -- Backwards likewise, for an iterator at any point of the grid: nothing at the first cell of the
  -- history, and else the cell in front.
  pub prev_lem :
      (g : Grid T) (p : Point)
      → Up.IsValid g
      → Inside (dimensions g) Boundary.grid p
      → ((cell_number (dimensions g) p ≡ 0) × (prev g (iter_from g p) ≡ some (none, iter_from g p)))
        ⊎ ((q : Point) × (cell_number (dimensions g) q + 1 ≡ cell_number (dimensions g) p)
            × Stepped g (iter_from g p) q (prev g (iter_from g p)))
  unfolding prev iter_from
  prev_lem g p v i = elim (Bool-cases (point_le p (first_point (dimensions g)))) [
    | inl first ↦
        inl (first_number (dimensions g) p (dimensions-IsValid g v) i first, rw first refl)
    | inr more ↦
        let (inside, number) = point_before_lem (dimensions g) p (dimensions-IsValid g v) i more in
        let q = point_before (dimensions g) p in
        let (c, e) = cell_lem g q v inside in
        inr
          (q, number, record { item = c; reads = e; returns = rw (more, e) refl; inside = inside })
  ]
