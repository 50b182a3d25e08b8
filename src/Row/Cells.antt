-- ===== src/Row/Cells.antt =====
-- What shrinking and growing do to the cells of a row.
use mathlib.Core.List.{append-nil}
use alacritty_pro.Prelude.{
  ℕ, zero, suc, ◌-◌, ◌≤◌, ◌<◌, min, ◌≡◌, refl, ◌∙◌, true, Option, none, some, List, [], ◌∷◌, ◌++◌,
  map, Bool, ◌&&◌, inl, inr, arith, leb, ◌==◌, if◌then◌else◌, Bool-cases, le→leb, take-append-drop,
  length, get_elem?, take, drop, replicate, length-append, length-replicate, length-take,
  get_elem?-append,
}
use alacritty_pro.Row.{GridCell, Row, all_empty, trim_empty, grow, shrink, reset}
use alacritty_pro.Row.Occupied.{IsValid, get_elem?-replicate}

abbrev pub cells : {T : Type 0} → Option (List T) → List T
cells none = []
cells (some cs) = cs

module _ {T : Type 0} (e : T → Bool) where
  -- What trimming drops: the empty cells at the end.
  pub trimmed : List T → List T
  trimmed [] = []
  trimmed (c ∷ cs) = if e c && all_empty e cs then c ∷ cs else trimmed cs

  trim-append-trimmed : (cs : List T) → trim_empty e cs ++ trimmed cs ≡ cs
  unfolding trim_empty trimmed
  trim-append-trimmed [] = refl
  trim-append-trimmed (c ∷ cs) = ground (arith, trim-append-trimmed cs)

  all_empty-trimmed : (cs : List T) → all_empty e (trimmed cs) ≡ true
  unfolding all_empty trimmed
  all_empty-trimmed [] = refl
  all_empty-trimmed (c ∷ cs) = ground (arith, all_empty-trimmed cs)

cells-nonempty : {T : Type 0} (l : List T) → cells (if length l == 0 then none else some l) ≡ l
cells-nonempty [] = refl
cells-nonempty (x ∷ l) = ground arith

module _ {T : Type 0} ⦃cell : GridCell T⦄ where
  -- Shrinking cuts off the cells behind `columns` and returns them but for empty ones at the end.
  pub shrink-append :
      (r : Row T) (columns : ℕ)
      → (dropped : List T) × ((shrink r columns).1.inner ++ (cells (shrink r columns).0 ++ dropped)
          ≡ r.inner)
        × (all_empty cell.is_empty dropped ≡ true)
        × (length (shrink r columns).1.inner ≡ min (length r.inner) columns)
  unfolding shrink
  shrink-append r columns = elim (Bool-cases (leb (length r.inner) columns)) [
    | inl small ↦ rw small ([], append-nil r.inner, refl, ground arith)
    | inr large ↦
        let cut = drop columns r.inner in
        rw large (
          trimmed cell.is_empty cut,
          rw (
            cells-nonempty (trim_empty cell.is_empty cut),
            trim-append-trimmed cell.is_empty cut,
            take-append-drop columns r.inner,
          ),
          all_empty-trimmed cell.is_empty cut,
          omega (arith, length-take columns r.inner),
        )
  ]

  -- Growing appends default cells, and leaves `occ` alone.
  grow-cells :
      (r : Row T) (columns : ℕ)
      → length r.inner < columns
      → grow r columns
        ≡ record r { inner = r.inner ++ replicate (columns - length r.inner) cell.default }
  unfolding grow
  grow-cells r columns h = ground arith

  last-append-replicate :
      (xs : List T) (n : ℕ) (d : T)
      → 0 < n
      → get_elem? (xs ++ replicate n d) (length (xs ++ replicate n d) - 1) ≡ some d
  last-append-replicate xs n d h = ground (
    arith,
    length-append xs (replicate n d),
    length-replicate n d,
    get_elem?-append xs (replicate n d) (length (xs ++ replicate n d) - 1),
    get_elem?-replicate n (length (xs ++ replicate n d) - 1 - length xs) d,
  )

  reset_keeps :
      (f : T → T) (occ i : ℕ) (xs : List T)
      → occ ≤ i
      → occ ≤ length xs
      → get_elem? (map f (take occ xs) ++ drop occ xs) i ≡ get_elem? xs i
  reset_keeps f zero i xs h k = refl
  reset_keeps f (suc occ) i [] h k = refl
  reset_keeps f (suc occ) zero (x ∷ xs) h k = absurd (omega arith)
  reset_keeps f (suc occ) (suc i) (x ∷ xs) h k = reset_keeps f occ i xs (omega arith) (omega arith)

  -- A valid row whose cells behind `occ` are blank cells of some base, grown by default cells and
  -- then reset by a template with the discriminant of a default cell, keeps all those old blank cells.
  pub reset-grow_stale :
      (r : Row T) (columns : ℕ) (template : T) (v : IsValid r)
      → r.occ < length r.inner
      → length r.inner < columns
      → cell.same_discriminant cell.default template ≡ true
      → (r' : Row T) × (reset (grow r columns) template ≡ some r')
        × ((i : ℕ)
            → r.occ ≤ i
            → i < length r.inner
            → get_elem? r'.inner i ≡ some (cell.reset cell.default v.base))
  unfolding reset
  reset-grow_stale r columns template v inside wider same =
      let n = columns - length r.inner in
      let grown = r.inner ++ replicate n cell.default in
      let size = length-append r.inner (replicate n cell.default) in
      (
        record {
          inner = map (λ c. cell.reset c template) (take r.occ grown) ++ drop r.occ grown;
          occ = 0;
        },
        rw (
          grow-cells r columns wider,
          last-append-replicate r.inner n cell.default (omega arith),
          same,
          le→leb r.occ (length grown) (omega (arith, size)),
        ),
        λ i behind old.
            reset_keeps (λ c. cell.reset c template) r.occ i grown behind (omega (arith, size))
            ∙ ground (arith, get_elem?-append r.inner (replicate n cell.default) i, v.blank i),
      )
