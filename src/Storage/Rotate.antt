-- ===== src/Storage/Rotate.antt =====
-- Rotation moves the start of the ring, and no row.
use native.Mathlib.Nat.{mod-eq-sub-mod}
use alacritty_pro.Prelude.{
  ℕ, suc, ◌+◌, ◌-◌, ◌%◌, ◌≤◌, ◌<◌, ◌≡◌, refl, sym, ◌∙◌, ap, some, List, arith, ltb, length,
  list_ext, inl, inr, Bool-cases, get_elem?-none, lt→ltb, le→leb,
}
use alacritty_pro.Prelude.Int.{ℤ, pos, negsuc, ◌+ℤ◌, pos_part, neg_part}
use alacritty_pro.Storage.{Storage, rotate_left, rotate, rotate_down}
use alacritty_pro.Storage.View.{
  ring, IsValid, wrap-mod, wrap_at, get_elem?-rotate_left, length-rotate_left,
}

-- Two rotations are one.
rotate_left-rotate_left :
    {A : Type 0} (z c : ℕ) (xs : List A)
    → z < length xs
    → c ≤ length xs
    → rotate_left c (rotate_left z xs) ≡ rotate_left ((z + c) % length xs) xs
rotate_left-rotate_left z c xs h k = rw (← wrap-mod (z + c) (length xs) (omega arith)) (
    list_ext _ _ λ i. elim (Bool-cases (ltb i (length xs))) [
      | inl inside ↦ ground (
        arith,
        get_elem?-rotate_left c (rotate_left z xs) i,
        get_elem?-rotate_left z xs (wrap_at (length xs) c i),
        get_elem?-rotate_left (wrap_at (length xs) z c) xs i,
        length-rotate_left z xs,
      )
      | inr outside ↦
          let n : length xs ≤ i = ground arith in
          let w : wrap_at (length xs) z c ≤ length xs = ground arith in
          get_elem?-none _ i
            (omega (arith, length-rotate_left c (rotate_left z xs), length-rotate_left z xs))
          ∙ sym (
              get_elem?-none _ i (omega (arith, length-rotate_left (wrap_at (length xs) z c) xs w)))
    ])

-- How far to the left a rotation by a signed count goes, in a ring of `n` rows.
abbrev pub turn : ℕ → ℤ → ℕ
turn n (pos c) = c
turn n (negsuc c) = n - suc c

turn-le : (n : ℕ) (count : ℤ) → pos_part count + neg_part count ≤ n → turn n count ≤ n
turn-le n (pos c) h = omega arith
turn-le n (negsuc c) h = omega arith

offset :
    (z n : ℕ) (count : ℤ)
    → pos_part count + neg_part count ≤ n
    → pos_part (pos z +ℤ count +ℤ pos n) % n ≡ (z + turn n count) % n
offset z n (pos c) h =
    ap (λ k. k % n) {x = pos_part (pos z +ℤ pos c +ℤ pos n)} {y = z + c + n} (ground arith)
    ∙ grind (arith, mod-eq-sub-mod {n = z + c + n} {m = n} (omega arith))
offset z n (negsuc c) h = ap (λ k. k % n) (ground arith)

module _ {T : Type 0} where
  -- `rotate` of a valid storage, by any signed count within the buffer: the ring afterwards is the old one rotated,
  -- the storage stays valid, and the other fields are as before.
  pub rotate_lem :
      {s : Storage T} (count : ℤ)
      → IsValid s
      → pos_part count + neg_part count ≤ length s.inner
      → (s' : Storage T) × (rotate s count ≡ some s')
        × IsValid s'
        × ((length s'.inner ≡ length s.inner)
            × (s'.len ≡ s.len)
            × (s'.visible_lines ≡ s.visible_lines))
        × (ring s' ≡ rotate_left (turn (length s.inner) count) (ring s))
  unfolding rotate
  rotate_lem {s} count v h =
      let n = length s.inner in
      let bound : turn n count ≤ n = turn-le n count h in
      (
        record s { zero = (s.zero + turn n count) % n },
        rw (le→leb _ n h, lt→ltb 0 n (omega arith), offset s.zero n count h),
        record {
          zero_in = omega arith;
          len_in = v.len_in;
          visible_in = v.visible_in;
          some_line = v.some_line;
        },
        (refl, refl, refl),
        sym (rotate_left-rotate_left s.zero (turn n count) s.inner v.zero_in bound),
      )

  -- `rotate_down` is the rotation by a positive count.
  pub rotate_down-rotate :
      {s : Storage T} (count : ℕ)
      → IsValid s
      → count ≤ length s.inner
      → rotate_down s count ≡ rotate s (pos count)
  unfolding rotate_down rotate
  rotate_down-rotate {s} count v h =
      let n = length s.inner in
      rw (
        le→leb (count + 0) n (omega arith),
        lt→ltb 0 n (omega arith),
        offset s.zero n (pos count) (omega arith),
      )
