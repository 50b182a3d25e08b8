-- ===== src/Tabs/Stops.antt =====
-- Where the initial stops are, and where a move by tabs ends.
use alacritty_pro.Prelude.{
  ℕ, zero, suc, ◌+◌, ◌-◌, ◌%◌, ◌≤◌, ◌<◌, ◌≡◌, refl, ◌∙◌, ap, arith, Bool, true, false, Option, some,
  ◌⊎◌, inl, inr, leb, ltb, if◌then◌else◌, ◌==◌, ◌>>=◌, length, get_elem?, length-append,
  length-take, get_elem?-append, get_elem?-some, get_elem?-take, Bool-cases,
}
use alacritty_pro.Tabs.{
  TabStops, stops, new, resize, is_stop, stop_before, stop_after, backward_tabs, forward_tabs,
  initial_tabstops,
}

pub length-stops : (n i : ℕ) → length (stops n i) ≡ n
unfolding stops
length-stops zero i = refl
length-stops (suc n) i = ap suc (length-stops n (suc i))

get_elem?-stops :
    (n i j : ℕ) → j < n → get_elem? (stops n i) j ≡ some ((i + j) % initial_tabstops == 0)
unfolding stops
get_elem?-stops zero i j h = elim h [ ]
get_elem?-stops (suc n) i zero h = ap (λ k. some (k % 8 == 0)) (omega arith)
get_elem?-stops (suc n) i (suc j) h =
    get_elem?-stops n (suc i) j (omega arith) ∙ ap (λ k. some (k % 8 == 0)) (omega arith)

-- Resizing sets the number of columns, keeps the stops of the columns that stay, and gives every new
-- column the stop that a fresh table of the new width has.
pub resize_lem :
    (t : TabStops) (columns : ℕ)
    → (length (resize t columns).tabs ≡ columns)
      × ((j : ℕ)
          → j < columns
          → is_stop (resize t columns) j
            ≡ (if ltb j (length t.tabs) then is_stop t j else is_stop (new columns) j))
unfolding resize is_stop new
resize_lem t columns = elim (Bool-cases (leb columns (length t.tabs))) [
  | inl small ↦ rw small (
    ground (arith, length-take columns t.tabs),
    λ j h. ground (arith, get_elem?-take columns t.tabs j),
  )
  | inr large ↦
      let n = length t.tabs in
      rw large (
        ground (arith, length-append t.tabs (stops (columns - n) n), length-stops (columns - n) n),
        λ j h. ground (
          arith,
          get_elem?-append t.tabs (stops (columns - n) n) j,
          get_elem?-stops (columns - n) n (j - n),
          get_elem?-stops columns 0 j,
        ),
      )
]

-- The scan to the left over the columns below `i`: it ends, either at the nearest stop, with none
-- between, or at `col` where there is no stop.
abbrev pub NearestBefore : TabStops → ℕ → ℕ → ℕ → Type 0
NearestBefore t col i out =
    ((out < i)
      × (is_stop t out ≡ some true)
      × ((j : ℕ) → out < j → j < i → is_stop t j ≡ some false))
    ⊎ ((out ≡ col) × ((j : ℕ) → j < i → is_stop t j ≡ some false))

nearest_step :
    (t : TabStops) (col i : ℕ)
    → is_stop t i ≡ some false
    → (out : ℕ) × (stop_before t col i ≡ some out) × NearestBefore t col i out
    → (out : ℕ) × (stop_before t col i ≡ some out) × NearestBefore t col (suc i) out
nearest_step t col i e (out, r, inl (lt, stop, free)) = (
  out,
  r,
  inl (
    omega arith,
    stop,
    λ j a b. elim (Bool-cases (j == i)) [
      | inl same ↦ ap (is_stop t) (ground arith) ∙ e
      | inr other ↦ free j a (ground arith)
    ],
  ),
)
nearest_step t col i e (out, r, inr (at, free)) = (
  out,
  r,
  inr (
    at,
    λ j b. elim (Bool-cases (j == i)) [
      | inl same ↦ ap (is_stop t) (ground arith) ∙ e
      | inr other ↦ free j (ground arith)
    ],
  ),
)

-- The loop of a move backward reads only columns of the table, which are below `i`, and ends: at the
-- nearest stop below `i`, or at `col` if there is none.
pub stop_before_lem :
    (t : TabStops) (col i : ℕ)
    → i ≤ length t.tabs
    → (out : ℕ) × (stop_before t col i ≡ some out) × NearestBefore t col i out
unfolding stop_before
stop_before_lem t col zero h = (col, refl, inr (refl, λ j b. absurd (omega arith)))
stop_before_lem t col (suc i) h =
    split (get_elem?-some t.tabs i (omega arith)) (stop_before_lem t col i (omega arith))
  where
    split :
        ((b : Bool) × (is_stop t i ≡ some b))
        → (out : ℕ) × (stop_before t col i ≡ some out) × NearestBefore t col i out
        → (out : ℕ) × ((is_stop t i >>= (λ b. if b then some i else stop_before t col i))
            ≡ some out)
          × NearestBefore t col (suc i) out
    split (true, e) rest = (
      i,
      ap (λ m. m >>= (λ b. if b then some i else stop_before t col i)) e,
      inl (omega arith, e, λ j a b. absurd (omega arith)),
    )
    split (false, e) rest =
        let (out, r, near) = nearest_step t col i e rest in
        (out, ap (λ m. m >>= (λ b. if b then some i else stop_before t col i)) e ∙ r, near)

-- Moving back by tabs from a column of the table never leaves it: it ends at a column not further
-- right, whatever the count.
pub backward_tabs_lem :
    (t : TabStops) (count col : ℕ)
    → col < length t.tabs
    → (out : ℕ) × (backward_tabs t count col ≡ some out) × (out ≤ col)
unfolding backward_tabs
backward_tabs_lem t zero col h = (col, refl, omega arith)
backward_tabs_lem t (suc count) col h = elim (Bool-cases (col == 0)) [
  | inl done ↦ (col, rw done, omega arith)
  | inr more ↦
      let (mid, e, near) = stop_before_lem t col col (omega arith) in
      let bound : mid ≤ col = nearest-le t col mid near in
      let (out, r, le) = backward_tabs_lem t count mid (omega arith) in
      (out, rw (more, e) r, omega arith)
]
  where
    nearest-le : (t : TabStops) (col mid : ℕ) → NearestBefore t col col mid → mid ≤ col
    nearest-le t col mid (inl (lt, _, _)) = omega arith
    nearest-le t col mid (inr (e, _)) = omega arith

-- The scan to the right over the columns from `i` up to `last` ends at the first stop, or at the
-- last column.
abbrev pub FirstAfter : TabStops → ℕ → ℕ → ℕ → Type 0
FirstAfter t i last out =
    (i ≤ out)
    × (out ≤ last)
    × ((is_stop t out ≡ some true) ⊎ (out ≡ last))
    × ((j : ℕ) → i ≤ j → j < out → is_stop t j ≡ some false)

first_step :
    (t : TabStops) (i last : ℕ)
    → is_stop t i ≡ some false
    → (m : Option ℕ) → (out : ℕ) × (m ≡ some out) × FirstAfter t (suc i) last out
    → (out : ℕ) × (m ≡ some out) × FirstAfter t i last out
first_step t i last e m (out, r, (lo, hi, stop, free)) = (
  out,
  r,
  (
    omega arith,
    hi,
    stop,
    λ j a b. elim (Bool-cases (j == i)) [
      | inl same ↦ ap (is_stop t) (ground arith) ∙ e
      | inr other ↦ free j (ground arith) b
    ],
  ),
)

-- The loop of a move forward over `n + 1` columns from `i` on ends, at the first stop among them, or at
-- the last of them.
pub stop_after_lem :
    (t : TabStops) (n i col : ℕ)
    → i + suc n ≤ length t.tabs
    → (out : ℕ) × (stop_after t (suc n) i col ≡ some out) × FirstAfter t i (i + n) out
unfolding stop_after
stop_after_lem t zero i col h =
    let (b, e) = get_elem?-some t.tabs i (omega arith) in
    (i, one b e, (omega arith, omega arith, inr (omega arith), λ j a b. absurd (omega arith)))
  where
    one :
        (b : Bool)
        → is_stop t i ≡ some b
        → (is_stop t i >>= (λ b. if b then some i else some i)) ≡ some i
    one true e = ap (λ m. m >>= (λ b. if b then some i else some i)) e
    one false e = ap (λ m. m >>= (λ b. if b then some i else some i)) e
stop_after_lem t (suc n) i col h =
    split (get_elem?-some t.tabs i (omega arith)) (stop_after_lem t n (suc i) i (omega arith))
  where
    split :
        ((b : Bool) × (is_stop t i ≡ some b))
        → (out : ℕ) × (stop_after t (suc n) (suc i) i ≡ some out)
          × FirstAfter t (suc i) (suc i + n) out
        → (out : ℕ) × ((is_stop t i >>= (λ b. if b then some i else stop_after t (suc n) (suc i) i))
            ≡ some out)
          × FirstAfter t i (i + suc n) out
    split (true, e) rest = (
      i,
      ap (λ m. m >>= (λ b. if b then some i else stop_after t (suc n) (suc i) i)) e,
      (omega arith, omega arith, inl e, λ j a b. absurd (omega arith)),
    )
    split (false, e) rest =
        let (out, r, first) = first_step t i (suc i + n) e _ rest in
        (
          out,
          ap (λ m. m >>= (λ b. if b then some i else stop_after t (suc n) (suc i) i)) e ∙ r,
          (first.0, omega arith, last_eq out first.2, first.3),
        )
      where
        last_eq :
            (out : ℕ)
            → (is_stop t out ≡ some true) ⊎ (out ≡ suc i + n)
            → (is_stop t out ≡ some true) ⊎ (out ≡ i + suc n)
        last_eq out (inl s) = inl s
        last_eq out (inr s) = inr (omega arith)

-- Moving forward by tabs from a column of the table stays in it, whatever the count: it ends, at a
-- column not further left.
pub forward_tabs_lem :
    (t : TabStops) (count col : ℕ)
    → col < length t.tabs
    → (out : ℕ) × (forward_tabs t (length t.tabs) count col ≡ some out)
      × (col ≤ out)
      × (out < length t.tabs)
unfolding forward_tabs
forward_tabs_lem t zero col h = (col, refl, omega arith, h)
forward_tabs_lem t (suc count) col h = elim (Bool-cases (col == length t.tabs - 1)) [
  | inl done ↦ (col, rw done refl, omega arith, h)
  | inr more ↦
      let (mid, e, lo, hi) = next more in
      let (out, r, le, lt) = forward_tabs_lem t count mid hi in
      (out, rw (more, e) r, omega arith, lt)
]
  where
    next :
        (col == length t.tabs - 1) ≡ false
        → (mid : ℕ) × (stop_after t (length t.tabs - (col + 1)) (col + 1) col ≡ some mid)
          × (col ≤ mid)
          × (mid < length t.tabs)
    next more =
        let n = length t.tabs - (col + 1) - 1 in
        let rounds : length t.tabs - (col + 1) ≡ suc n = ground arith in
        let (mid, e, first) = stop_after_lem t n (col + 1) col (omega arith) in
        let lo : col + 1 ≤ mid = first.0 in
        let hi : mid ≤ col + 1 + n = first.1 in
        (mid, ap (λ k. stop_after t k (col + 1) col) rounds ∙ e, omega arith, omega arith)
