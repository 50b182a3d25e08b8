-- ===== src/Storage/Access.antt =====
-- Reading, writing and swapping lines, against the view of the rows from the bottommost line up.
use alacritty_pro.Prelude.{
  ℕ, ◌+◌, ◌-◌, ◌%◌, ◌≤◌, ◌<◌, ◌≡◌, refl, sym, ◌∙◌, ap, Option, some, none, List, arith, length,
  get_elem?, set, length-set, get_elem?-some,
}
use alacritty_pro.Prelude.Int.{ℤ, pos, negsuc, pos_part, neg_part}
use alacritty_pro.Row.{Row}
use mathlib.Core.Path.{subst}
use alacritty_pro.Storage.{rotate_left, Storage, compute_index, index, update, swap}
use alacritty_pro.Storage.View.{
  ring, contents, IsValid, place, get_elem?-ring, get_elem?-contents, place-lt, wrap-mod, wrap_at,
  rotate_left-set,
}

module _ {T : Type 0} where
  -- How far a line lies above the bottommost line of the screen.
  abbrev pub position : Storage T → ℤ → ℕ
  position s line = s.visible_lines + neg_part line - pos_part line - 1

  -- The lines of the screen and of the history in use.
  abbrev pub InRange : Storage T → ℤ → Type 0
  InRange s line =
      (pos_part line < s.visible_lines + neg_part line)
      × (s.visible_lines + neg_part line ≤ s.len + pos_part line)

  -- For a line of the screen or of the history in use of a valid storage, the index is computed without
  -- a panic: the index computed without a division is the position reduced modulo the buffer's length, and
  -- lies in the buffer.
  pub compute_index_lem :
      {s : Storage T} (line : ℤ)
      → IsValid s
      → InRange s line
      → (compute_index s line ≡ some (place s (position s line)))
        × (place s (position s line) ≡ (s.zero + position s line) % length s.inner)
        × (place s (position s line) < length s.inner)
  unfolding compute_index
  compute_index_lem {s} (pos n) v h = (
    ground arith,
    wrap-mod _ (length s.inner) (omega arith),
    place-lt v (position s (pos n)) (omega arith),
  )
  compute_index_lem {s} (negsuc n) v h = (
    ground arith,
    wrap-mod _ (length s.inner) (omega arith),
    place-lt v (position s (negsuc n)) (omega arith),
  )

  -- A line below the screen, or above the history in use, is refused.
  pub compute_index-none :
      (s : Storage T) (line : ℤ)
      → s.visible_lines ≤ s.len
      → ¬ InRange s line
      → compute_index s line ≡ none
  unfolding compute_index
  compute_index-none s (pos n) k h = ground arith
  compute_index-none s (negsuc n) k h = ground arith

  position-lt : (s : Storage T) (line : ℤ) → InRange s line → position s line < s.len
  position-lt s line h = omega arith

  -- Reading a line of the screen or of the history in use of a valid storage reads the contents at its position.
  pub index-contents :
      {s : Storage T} (line : ℤ)
      → IsValid s
      → InRange s line
      → index s line ≡ get_elem? (contents s) (position s line)
  unfolding index
  index-contents {s} line v h =
      rw (compute_index_lem line v h).0
        (sym (get_elem?-contents v (position s line) (position-lt s line h)))

  -- The other fields of a storage, and the size of its buffer, are as before.
  pub record SameShape (s s' : Storage T) : Type 0 where
    pub size : length s'.inner ≡ length s.inner
    pub same_zero : s'.zero ≡ s.zero
    pub same_len : s'.len ≡ s.len
    pub same_visible : s'.visible_lines ≡ s.visible_lines

  pub SameShape-IsValid : {s s' : Storage T} → SameShape s s' → IsValid s → IsValid s'
  SameShape-IsValid h v = record {
    zero_in = omega arith;
    len_in = omega arith;
    visible_in = omega arith;
    some_line = omega arith;
  }

  pub SameShape-trans : {s t u : Storage T} → SameShape s t → SameShape t u → SameShape s u
  SameShape-trans h k = record {
    size = k.size ∙ h.size;
    same_zero = k.same_zero ∙ h.same_zero;
    same_len = k.same_len ∙ h.same_len;
    same_visible = k.same_visible ∙ h.same_visible;
  }

  -- The ring with the rows at two positions exchanged.
  unfoldable pub exchange : List (Row T) → ℕ → ℕ → List (Row T)
  exchange xs p q = elim (get_elem? xs p) [
    | none ↦ xs
    | some x ↦ elim (get_elem? xs q) [ none ↦ xs | some y ↦ set (set xs p y) q x ]
  ]

  pub exchange_lem :
      (xs : List (Row T)) (p q : ℕ) (x y : Row T)
      → get_elem? xs p ≡ some x
      → get_elem? xs q ≡ some y
      → exchange xs p q ≡ set (set xs p y) q x
  unfolding exchange
  exchange_lem xs p q x y e g = ground arith

  -- Swapping two lines of the screen or of the history in use of a valid storage succeeds, and
  -- exchanges the rows at their positions, and nothing else.
  pub swap-exchange :
      {s : Storage T} (a b : ℤ)
      → IsValid s
      → InRange s a
      → InRange s b
      → (s' : Storage T) × (swap s a b ≡ some s')
        × SameShape s s'
        × (ring s' ≡ exchange (ring s) (position s a) (position s b))
  unfolding swap
  swap-exchange {s} a b v ha hb =
      let p = position s a in
      let q = position s b in
      let i = place s p in
      let j = place s q in
      let hp : p < length s.inner = omega arith in
      let hq : q < length s.inner = omega arith in
      let (x, ex) = get_elem?-some s.inner i (place-lt v p hp) in
      let (y, ey) = get_elem?-some s.inner j (place-lt v q hq) in
      let first = rotate_left-set s.zero p s.inner y (omega arith) hp in
      let size = length-set s.inner i y in
      (
        record s { inner = set (set s.inner i y) j x },
        rw ((compute_index_lem a v ha).0, (compute_index_lem b v hb).0, ex, ey),
        record {
          size = length-set (set s.inner i y) j x ∙ size;
          same_zero = refl;
          same_len = refl;
          same_visible = refl;
        },
        subst
              (λ n.
                rotate_left s.zero (set (set s.inner i y) (wrap_at n s.zero q) x)
                ≡ set (rotate_left s.zero (set s.inner i y)) q x)
              size
              (rotate_left-set s.zero q (set s.inner i y) x (omega (arith, size))
                (omega (arith, size)))
            ∙ (ap (λ l. set l q x) first
                ∙ sym (
                    exchange_lem (ring s) p q x y (get_elem?-ring v p hp ∙ ex)
                      (get_elem?-ring v q hq ∙ ey))),
      )

  -- A write to a line sets the row at its position.
  pub update-set :
      {s : Storage T} (line : ℤ) (f : Row T → Option (Row T)) {row row' : Row T}
      → IsValid s
      → InRange s line
      → get_elem? (contents s) (position s line) ≡ some row
      → f row ≡ some row'
      → (s' : Storage T) × (update s line f ≡ some s')
        × SameShape s s'
        × (ring s' ≡ set (ring s) (position s line) row')
  unfolding update
  update-set {s} line f {row} {row'} v h e g =
      let p = position s line in
      let hp : p < length s.inner = omega arith in
      (
        record s { inner = set s.inner (place s p) row' },
        rw (
          (compute_index_lem line v h).0,
          sym (get_elem?-contents v p (position-lt s line h)) ∙ e,
          g,
        ),
        record {
          size = length-set s.inner (place s p) row';
          same_zero = refl;
          same_len = refl;
          same_visible = refl;
        },
        rotate_left-set s.zero p s.inner row' (omega arith) hp,
      )
