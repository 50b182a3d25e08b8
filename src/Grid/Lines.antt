-- ===== src/Grid/Lines.antt =====
-- The loops over lines that scrolling is made of, against the rows read from the bottommost line up.
use alacritty_pro.Prelude.{
  ◌⊎◌, ℕ, zero, suc, ◌+◌, ◌-◌, ◌≤◌, ◌<◌, ◌≡◌, refl, sym, ◌∙◌, ap, ap₂, Option, some, arith, ◌==◌,
  if◌then◌else◌, List, length, get_elem?, set, length-set, get_elem?-set, get_elem?-some, some_inj,
  inl, inr, Bool-cases, >>=-step, get_elem?-take,
}
use mathlib.Core.Path.{subst}
use alacritty_pro.Prelude.Int.{ℤ, pos}
use alacritty_pro.Index.{sub_line}
use alacritty_pro.Row
use alacritty_pro.Row.{Row, GridCell}
use alacritty_pro.Storage.{Storage, swap}
use alacritty_pro.Storage.View.{ring, IsValid, length-ring}
use alacritty_pro.Storage.Access.{
  InRange, position, SameShape, SameShape-IsValid, SameShape-trans, exchange, exchange_lem,
  swap-exchange, update-set,
}
use alacritty_pro.Grid.Defs.{for_up, for_down, swap_up, reset_line}

up-eq : (e n k : ℕ) → k ≤ e → sub_line (pos (e + n)) k ≡ pos (e + n - k)
up-eq e n k h = ground arith

module _ {T : Type 0} where
  -- The row at a position of the ring, counted from the bottommost line up.
  abbrev pub row_at : Storage T → ℕ → Option (Row T)
  row_at s p = get_elem? (ring s) p

  -- A property of every row in the buffer.
  abbrev pub AllRows : (Row T → Type 0) → Storage T → Type 0
  AllRows P s = (p : ℕ) (row : Row T) → row_at s p ≡ some row → P row

  pub SameShape-refl : (s : Storage T) → SameShape s s
  SameShape-refl s = record { size = refl; same_zero = refl; same_len = refl; same_visible = refl }

  pub get_elem?-exchange :
      (xs : List (Row T)) (p q i : ℕ)
      → p < length xs
      → q < length xs
      → get_elem? (exchange xs p q) i
        ≡ (if i == p then get_elem? xs q else if i == q then get_elem? xs p else get_elem? xs i)
  get_elem?-exchange xs p q i hp hq =
      let (x, ex) = get_elem?-some xs p hp in
      let (y, ey) = get_elem?-some xs q hq in
      ground (
        arith,
        exchange_lem xs p q x y ex ey,
        get_elem?-set (set xs p y) q i x,
        get_elem?-set xs p i y,
        length-set xs p y,
      )

  AllRows-exchange :
      (P : Row T → Type 0) (s s' : Storage T) (p q : ℕ)
      → p < length (ring s)
      → q < length (ring s)
      → ring s' ≡ exchange (ring s) p q
      → AllRows P s
      → AllRows P s'
  AllRows-exchange P s s' p q hp hq e all i row h =
      let g = ap (λ l. get_elem? l i) e ∙ get_elem?-exchange (ring s) p q i hp hq in
      elim (Bool-cases (i == p)) [
        | inl at_p ↦ all q row (ground arith)
        | inr off_p ↦ elim (Bool-cases (i == q)) [
          | inl at_q ↦ all p row (ground arith)
          | inr off_q ↦ all i row (ground arith)
        ]
      ]

  -- `r` is a storage of the shape of `s`, whose rows below position `m` are those of `G` from `k`
  -- positions further up, while those from `m + k` on are those of `G`.
  pub record Lifted (P : Row T → Type 0) (G : ℕ → Option (Row T)) (k m : ℕ) (s : Storage T)
      (r : Option (Storage T)) : Type 0 where
    pub out : Storage T
    pub returns : r ≡ some out
    pub shape : SameShape s out
    pub below : (q : ℕ) → q < m → row_at out q ≡ G (q + k)
    pub above : (q : ℕ) → m + k ≤ q → q < length s.inner → row_at out q ≡ G q
    pub all : AllRows P out

  -- One swap of a line with the line `k` above it, read by positions.
  pub record Swapped (P : Row T → Type 0) (s : Storage T) (i j : ℕ) (r : Option (Storage T))
      : Type 0 where
    pub out : Storage T
    pub returns : r ≡ some out
    pub shape : SameShape s out
    pub rows :
        (q : ℕ)
        → row_at out q ≡ (if q == i then row_at s j else if q == j then row_at s i else row_at s q)
    pub all : AllRows P s → AllRows P out

  pub swap-Swapped :
      (P : Row T → Type 0) (s : Storage T) (a b : ℤ) (i j : ℕ)
      → IsValid s
      → InRange s a
      → InRange s b
      → position s a ≡ i
      → position s b ≡ j
      → Swapped P s i j (swap s a b)
  swap-Swapped P s a b i j v ha hb ei ej =
      let (t, et, shape, ring_t) = swap-exchange {s = s} a b v ha hb in
      let whole = length-ring v in
      let ring_e : ring t ≡ exchange (ring s) i j =
        ring_t ∙ ap₂ (λ x y. exchange (ring s) x y) ei ej in
      let hi : i < length (ring s) = omega (arith, whole) in
      let hj : j < length (ring s) = omega (arith, whole) in
      record {
        out = t;
        returns = et;
        shape = shape;
        rows = λ q. ap (λ l. get_elem? l q) ring_e ∙ get_elem?-exchange (ring s) i j q hi hj;
        all = AllRows-exchange P s t i j hi hj ring_e;
      }

  -- The loop that swaps the lines fixed at the bottom back into position, `n` rounds before its end,
  -- from a storage in which the other lines are back.
  abbrev FixedLines : (Row T → Type 0) → (ℕ → Option (Row T)) → ℕ → ℕ → ℕ → Storage T → Type 0
  FixedLines P G k e n s =
      IsValid s
      → k ≤ e
      → e + n ≤ s.visible_lines
      → ((q : ℕ) → q < s.visible_lines - e - n → row_at s q ≡ G (q + k))
      → ((q : ℕ) → s.visible_lines - e - n + k ≤ q → q < length s.inner → row_at s q ≡ G q)
      → AllRows P s
      → Lifted P G k (s.visible_lines - e) s (for_down (swap_up k) n (pos e) s)

  fixed_step :
      (P : Row T → Type 0) (G : ℕ → Option (Row T)) (k e n : ℕ) (s : Storage T)
      (step : Swapped P s
        (s.visible_lines - e - suc n)
        (s.visible_lines - e - suc n + k)
        (swap s (pos (e + n)) (sub_line (pos (e + n)) k)))
      → FixedLines P G k e n step.out
      → FixedLines P G k e (suc n) s
  unfolding for_down
  fixed_step P G k e n s step rec v hk hn lo hi all = lifted (
      rec (SameShape-IsValid step.shape v) hk (omega (arith, step.shape))
        (λ q h. ground (arith, step.rows q, lo q, hi (s.visible_lines - e - suc n + k), step.shape))
        (λ q h l. ground (arith, step.rows q, hi q, step.shape)) (step.all all))
    where
      lifted :
          Lifted P G k
            (step.out.visible_lines - e)
            step.out
            (for_down (swap_up k) n (pos e) step.out)
          → Lifted P G k (s.visible_lines - e) s (for_down (swap_up k) (suc n) (pos e) s)
      lifted rest = record {
        out = rest.out;
        returns = >>=-step _ _ step.returns rest.returns;
        shape = SameShape-trans step.shape rest.shape;
        below = λ q h. rest.below q (omega (arith, step.shape));
        above = λ q h l. rest.above q (omega (arith, step.shape)) (omega (arith, step.shape));
        all = rest.all;
      }

  pub fixed_lines :
      (P : Row T → Type 0) (G : ℕ → Option (Row T)) (k e n : ℕ) (s : Storage T)
      → FixedLines P G k e n s
  unfolding for_down
  fixed_lines P G k e zero s v hk hn lo hi all = record {
    out = s;
    returns = refl;
    shape = SameShape-refl s;
    below = λ q h. lo q (omega arith);
    above = λ q h. hi q (omega arith);
    all = all;
  }
  fixed_lines P G k e (suc n) s v hk hn lo hi all =
      fixed_step P G k e n s
        (rw (up-eq e n k hk) (
          swap-Swapped P s (pos (e + n)) (pos (e + n - k)) (s.visible_lines - e - suc n)
            (s.visible_lines - e - suc n + k) v (omega arith) (omega arith) (omega arith)
            (omega arith)))
        (fixed_lines P G k e n _) v hk hn lo hi all

module _ {T : Type 0} ⦃cell : GridCell T⦄ where
  -- `r` is a storage of the shape of `s` in which the rows at positions `lo` up to `hi` are `blank`,
  -- and all others those of `s`.
  pub record Cleared (P : Row T → Type 0) (blank : Row T) (lo hi : ℕ) (s : Storage T)
      (r : Option (Storage T)) : Type 0 where
    pub out : Storage T
    pub returns : r ≡ some out
    pub shape : SameShape s out
    pub cleared : (q : ℕ) → lo ≤ q → q < hi → row_at out q ≡ some blank
    pub kept : (q : ℕ) → (q < lo) ⊎ (hi ≤ q) → row_at out q ≡ row_at s q
    pub all : AllRows P out

  pub reset_line-Cleared :
      (P : Row T → Type 0) (blank : Row T) (template : T) (l : ℕ) (s : Storage T)
      → ((row : Row T) → P row → Row.reset row template ≡ some blank)
      → P blank
      → IsValid s
      → l < s.visible_lines
      → AllRows P s
      → Cleared P blank
          (s.visible_lines - l - 1)
          (s.visible_lines - l)
          s
          (reset_line template (pos l) s)
  unfolding reset_line
  reset_line-Cleared P blank template l s can pb v h all =
      let p = s.visible_lines - l - 1 in
      let whole = length-ring v in
      let e : position s (pos l) ≡ p = omega arith in
      let hp : p < length (ring s) = omega (arith, whole) in
      let (row, at) = get_elem?-some (ring s) p hp in
      let (t, et, shape, ring_t) =
        update-set {s = s} (pos l) (λ r. Row.reset r template) v (omega arith)
          (get_elem?-take s.len (ring s) (position s (pos l)) ∙ ground arith)
          (can row (all p row at)) in
      let rows = λ (q : ℕ).
        ap (λ l. get_elem? l q) (ring_t ∙ ap (λ i. set (ring s) i blank) e)
        ∙ get_elem?-set (ring s) p q blank hp in
      record {
        out = t;
        returns = et;
        shape = shape;
        cleared = λ q h k. ground (arith, rows q);
        kept = λ q h. ground (arith, rows q);
        all = λ q r h. elim (Bool-cases (q == p)) [
          | inl here ↦ subst P (some_inj (sym (rows q ∙ ground arith) ∙ h)) pb
          | inr away ↦ all q r (sym (rows q ∙ ground arith) ∙ h)
        ];
      }

  -- Resetting `n` lines of the screen from line `l` on makes them blank, if every row in the buffer
  -- can be reset to that blank row.
  abbrev ResetLines : (Row T → Type 0) → Row T → T → ℕ → ℕ → Storage T → Type 0
  ResetLines P blank template n l s =
      IsValid s
      → l + n ≤ s.visible_lines
      → AllRows P s
      → Cleared P blank (s.visible_lines - l - n) (s.visible_lines - l) s
          (for_up (reset_line template) n (pos l) s)

  reset_step :
      (P : Row T → Type 0) (blank : Row T) (template : T) (n l : ℕ) (s : Storage T)
      (step : Cleared P blank
        (s.visible_lines - l - 1)
        (s.visible_lines - l)
        s
        (reset_line template (pos l) s))
      → ResetLines P blank template n (suc l) step.out
      → ResetLines P blank template (suc n) l s
  unfolding for_up
  reset_step P blank template n l s step rec v h all =
      cleared (rec (SameShape-IsValid step.shape v) (omega (arith, step.shape)) step.all)
    where
      cleared :
          Cleared P blank
            (step.out.visible_lines - suc l - n)
            (step.out.visible_lines - suc l)
            step.out
            (for_up (reset_line template) n (pos (suc l)) step.out)
          → Cleared P blank
              (s.visible_lines - l - suc n)
              (s.visible_lines - l)
              s
              (for_up (reset_line template) (suc n) (pos l) s)
      cleared rest = record {
        out = rest.out;
        returns = >>=-step _ _ step.returns rest.returns;
        shape = SameShape-trans step.shape rest.shape;
        cleared = λ q a b. ground (arith, step.shape, rest.cleared q, rest.kept q, step.cleared q);
        kept = λ q a. ground (arith, step.shape, rest.kept q, step.kept q);
        all = rest.all;
      }

  pub reset_lines_lem :
      (P : Row T → Type 0) (blank : Row T) (template : T) (n l : ℕ) (s : Storage T)
      → ((row : Row T) → P row → Row.reset row template ≡ some blank)
      → P blank
      → ResetLines P blank template n l s
  unfolding for_up
  reset_lines_lem P blank template zero l s can pb v h all = record {
    out = s;
    returns = refl;
    shape = SameShape-refl s;
    cleared = λ q a b. absurd (omega arith);
    kept = λ q a. refl;
    all = all;
  }
  reset_lines_lem P blank template (suc n) l s can pb v h all =
      reset_step P blank template n l s
        (reset_line-Cleared P blank template l s can pb v (omega arith) all)
        (reset_lines_lem P blank template n (suc l) _ can pb) v h all
