-- ===== src/Row/Shift.antt =====
-- Where the cells of a line go when cells are inserted and deleted.
use alacritty_pro.Prelude.{
  ℕ, zero, suc, ◌+◌, ◌-◌, ◌≤◌, ◌<◌, ◌≡◌, refl, ◌∙◌, ap, arith, Option, some, List, ◌++◌, inl, inr,
  ltb, ◌==◌, if◌then◌else◌, Bool-cases, >>=-step, le→leb, length, get_elem?, set, take, drop,
  replicate, length-set, get_elem?-set, get_elem?-some, get_elem?-append, get_elem?-take,
  get_elem?-drop, length-take, length-replicate, length-drop, length-append,
}
use alacritty_pro.Row.Occupied.{get_elem?-replicate}
use alacritty_pro.Row.Edit.{swap_cells, shift_right, shift_left, fill}

module _ {T : Type 0} where
  -- One swap, read by indices.
  pub swap_cells_lem :
      (cells : List T) (a b : ℕ)
      → a < length cells
      → b < length cells
      → (out : List T) × (swap_cells cells a b ≡ some out)
        × (length out ≡ length cells)
        × ((i : ℕ)
            → get_elem? out i ≡ (
                if i == a
                then get_elem? cells b
                else if i == b
                then get_elem? cells a
                else get_elem? cells i))
  unfolding swap_cells
  swap_cells_lem cells a b ha hb =
      let (x, ex) = get_elem?-some cells a ha in
      let (y, ey) = get_elem?-some cells b hb in
      (
        set (set cells a y) b x,
        >>=-step _ _ ex (>>=-step _ _ ey refl),
        length-set (set cells a y) b x ∙ length-set cells a y,
        λ i. ground (
          arith,
          get_elem?-set (set cells a y) b i x,
          get_elem?-set cells a i y,
          length-set cells a y,
        ),
      )

  -- `n` cells from `from` on are copied to `to`, and the cells in front of both and behind the last
  -- one that is written stay.
  pub record ShiftedRight (n to from : ℕ) (cells : List T) (m : Option (List T)) : Type 0 where
    pub out : List T
    pub returns : m ≡ some out
    pub size : length out ≡ length cells
    pub moved : (k : ℕ) → k < n → get_elem? out (to + k) ≡ get_elem? cells (from + k)
    pub below : (i : ℕ) → i < from → get_elem? out i ≡ get_elem? cells i
    pub above : (i : ℕ) → to + n ≤ i → get_elem? out i ≡ get_elem? cells i

  pub shift_right-ShiftedRight :
      (n to from : ℕ) (cells : List T)
      → from ≤ to
      → to + n ≤ length cells
      → ShiftedRight n to from cells (shift_right n to from cells)
  unfolding shift_right
  shift_right-ShiftedRight zero to from cells h l = record {
    out = cells;
    returns = refl;
    size = refl;
    moved = λ k a. absurd (omega arith);
    below = λ i a. refl;
    above = λ i a. refl;
  }
  shift_right-ShiftedRight (suc n) to from cells h l =
      let (mid, e, size, at) =
        swap_cells_lem cells (to + n) (from + n) (omega arith) (omega arith) in
      let rest = shift_right-ShiftedRight n to from mid h (omega arith) in
      record {
        out = rest.out;
        returns = >>=-step _ _ e rest.returns;
        size = rest.size ∙ size;
        moved = λ k a. elim (Bool-cases (k == n)) [
          | inl last ↦ ground (arith, rest.above (to + k), at (to + k))
          | inr inner ↦ rest.moved k (ground arith) ∙ at (from + k) ∙ ground arith
        ];
        below = λ i a. rest.below i a ∙ at i ∙ ground arith;
        above = λ i a. rest.above i (omega arith) ∙ at i ∙ ground arith;
      }

  pub record ShiftedLeft (n from to : ℕ) (cells : List T) (m : Option (List T)) : Type 0 where
    pub out : List T
    pub returns : m ≡ some out
    pub size : length out ≡ length cells
    pub moved : (k : ℕ) → k < n → get_elem? out (from + k) ≡ get_elem? cells (to + k)
    pub below : (i : ℕ) → i < from → get_elem? out i ≡ get_elem? cells i

  pub shift_left-ShiftedLeft :
      (n from to : ℕ) (cells : List T)
      → from ≤ to
      → to + n ≤ length cells
      → ShiftedLeft n from to cells (shift_left n from to cells)
  unfolding shift_left
  shift_left-ShiftedLeft zero from to cells h l = record {
    out = cells;
    returns = refl;
    size = refl;
    moved = λ k a. absurd (omega arith);
    below = λ i a. refl;
  }
  shift_left-ShiftedLeft (suc n) from to cells h l =
      let (mid, e, size, at) = swap_cells_lem cells from to (omega arith) (omega arith) in
      let rest = shift_left-ShiftedLeft n (suc from) (suc to) mid (omega arith) (omega arith) in
      record {
        out = rest.out;
        returns = >>=-step _ _ e rest.returns;
        size = rest.size ∙ size;
        moved = λ k a. elim (Bool-cases (k == 0)) [
          | inl first ↦ ground (arith, rest.below (from + k), at (from + k))
          | inr later ↦
              ap (get_elem? rest.out) (step from k (ground arith))
              ∙ rest.moved (k - 1) (ground arith)
              ∙ at (suc to + (k - 1))
              ∙ ground arith
        ];
        below = λ i a. rest.below i (omega arith) ∙ at i ∙ ground arith;
      }
    where
      step : (from k : ℕ) → 0 < k → from + k ≡ suc from + (k - 1)
      step from k h = omega arith

  -- Overwriting a range of cells, read by indices.
  pub fill_lem :
      (left right : ℕ) (c : T) (cells : List T)
      → left ≤ right
      → right ≤ length cells
      → (out : List T) × (fill left right c cells ≡ some out)
        × (length out ≡ length cells)
        × ((i : ℕ)
            → get_elem? out i ≡ (
                if ltb i left
                then get_elem? cells i
                else if ltb i right
                then some c
                else get_elem? cells i))
  unfolding fill
  fill_lem left right c cells h l =
      let middle = replicate (right - left) c in
      (
        take left cells ++ (middle ++ drop right cells),
        rw (le→leb left right h, le→leb right (length cells) l) refl,
        ground (
          arith,
          length-append (take left cells) (middle ++ drop right cells),
          length-append middle (drop right cells),
          length-take left cells,
          length-replicate (right - left) c,
          length-drop right cells,
        ),
        λ i. ground (
          arith,
          get_elem?-append (take left cells) (middle ++ drop right cells) i,
          get_elem?-append middle (drop right cells) (i - length (take left cells)),
          length-take left cells,
          length-replicate (right - left) c,
          get_elem?-take left cells i,
          get_elem?-replicate (right - left) (i - left) c,
          get_elem?-drop right cells (i - left - (right - left)),
        ),
      )
