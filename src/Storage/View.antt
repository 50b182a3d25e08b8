-- ===== src/Storage/View.antt =====
-- What a storage holds, read from its bottommost line upwards, and when it is well formed.
use native.Mathlib.Nat.{mod-eq-sub-mod, mod-eq_of_lt}
use alacritty_pro.Prelude.{
  sym, ◌∙◌, inl, inr, Bool-cases, leb→le, set, length-set, get_elem?-set, get_elem?-none, list_ext,
  ℕ, ◌+◌, ◌-◌, ◌%◌, ◌≤◌, ◌<◌, ◌≡◌, List, arith, ltb, leb, if◌then◌else◌, length, get_elem?, take,
  drop, length-append, length-take, length-drop, get_elem?-append, get_elem?-take, get_elem?-drop,
}
use alacritty_pro.Row.{Row}
use alacritty_pro.Storage.{Storage, rotate_left}

pub length-rotate_left {ℓ} :
    {A : Type ℓ} (n : ℕ) (xs : List A) → n ≤ length xs → length (rotate_left n xs) ≡ length xs
length-rotate_left n xs h =
    omega (arith, length-append (drop n xs) (take n xs), length-take n xs, length-drop n xs)

-- One step of the remainder, written with a test.
pub wrap-mod : (x n : ℕ) → x < n + n → (if leb n x then x - n else x) ≡ x % n
wrap-mod x n h = elim (Bool-cases (leb n x)) [
  | inl wraps ↦
      let k = leb→le n x wraps in rw wraps (sym (mod-eq-sub-mod k ∙ mod-eq_of_lt (omega arith)))
  | inr stays ↦ rw stays (sym (mod-eq_of_lt (ground arith)))
]

-- The index `p` places behind `z` in a ring of `n` rows.
abbrev pub wrap_at : ℕ → ℕ → ℕ → ℕ
wrap_at n z p = if leb n (z + p) then z + p - n else z + p

pub get_elem?-rotate_left :
    {A : Type 0} (n : ℕ) (xs : List A) (i : ℕ)
    → n ≤ length xs
    → i < length xs
    → get_elem? (rotate_left n xs) i ≡ get_elem? xs (wrap_at (length xs) n i)
get_elem?-rotate_left n xs i h k = ground (
  arith,
  get_elem?-append (drop n xs) (take n xs) i,
  length-drop n xs,
  get_elem?-drop n xs i,
  get_elem?-take n xs (i - length (drop n xs)),
)

pub rotate_left-set :
    {A : Type 0} (z p : ℕ) (xs : List A) (v : A)
    → z ≤ length xs
    → p < length xs
    → rotate_left z (set xs (wrap_at (length xs) z p) v) ≡ set (rotate_left z xs) p v
rotate_left-set z p xs v h k = list_ext _ _ λ i. elim (Bool-cases (ltb i (length xs))) [
  | inl inside ↦ ground (
    arith,
    get_elem?-rotate_left z (set xs (wrap_at (length xs) z p) v) i,
    get_elem?-rotate_left z xs i,
    length-set xs (wrap_at (length xs) z p) v,
    length-rotate_left z xs h,
    get_elem?-set xs (wrap_at (length xs) z p) (wrap_at (length xs) z i) v,
    get_elem?-set (rotate_left z xs) p i v,
  )
  | inr outside ↦
      let n : length xs ≤ i = ground arith in
      get_elem?-none _ i (
        omega (
          arith,
          length-rotate_left z (set xs (wrap_at (length xs) z p) v),
          length-set xs (wrap_at (length xs) z p) v,
        ))
      ∙ sym (
          get_elem?-none _ i
            (omega (arith, length-set (rotate_left z xs) p v, length-rotate_left z xs h)))
]

module _ {T : Type 0} where
  -- Every row of the buffer, from the bottommost line up: `inner` read round from `zero`.
  abbrev pub ring : Storage T → List (Row T)
  ring s = rotate_left s.zero s.inner

  -- The rows of the lines that are in use.
  abbrev pub contents : Storage T → List (Row T)
  contents s = take s.len (ring s)

  pub record IsValid (s : Storage T) : Type 0 where
    pub zero_in : s.zero < length s.inner
    pub len_in : s.len ≤ length s.inner
    pub visible_in : s.visible_lines ≤ s.len
    pub some_line : 0 < s.visible_lines

  pub length-ring : {s : Storage T} → IsValid s → length (ring s) ≡ length s.inner
  length-ring {s} v = length-rotate_left s.zero s.inner (omega arith)

  pub length-contents : {s : Storage T} → IsValid s → length (contents s) ≡ s.len
  length-contents {s} v = omega (arith, length-take s.len (ring s), length-ring v)

  -- The place in `inner` of the row at position `p`.
  abbrev pub place : Storage T → ℕ → ℕ
  place s p = wrap_at (length s.inner) s.zero p

  pub get_elem?-ring :
      {s : Storage T}
      → IsValid s
      → (p : ℕ) → p < length s.inner
      → get_elem? (ring s) p ≡ get_elem? s.inner (place s p)
  get_elem?-ring {s} v p h = get_elem?-rotate_left s.zero s.inner p (omega arith) h

  pub get_elem?-contents :
      {s : Storage T}
      → IsValid s
      → (p : ℕ) → p < s.len
      → get_elem? (contents s) p ≡ get_elem? s.inner (place s p)
  get_elem?-contents {s} v p h = ground (arith, get_elem?-take s.len (ring s) p, get_elem?-ring v p)

  pub place-lt :
      {s : Storage T} → IsValid s → (p : ℕ) → p < length s.inner → place s p < length s.inner
  place-lt {s} v p h = ground arith

  pub place_inj :
      {s : Storage T}
      → IsValid s
      → (p q : ℕ) → p < length s.inner
      → q < length s.inner
      → place s p ≡ place s q
      → p ≡ q
  place_inj {s} v p q h k e = ground arith
