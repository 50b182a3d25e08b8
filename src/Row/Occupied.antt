-- ===== src/Row/Occupied.antt =====
-- The field `occ` of a row, and what `Row::reset` relies on: the cells from `occ` on all came from
-- one reset, so that they need not be written again while the template keeps its discriminant.
use alacritty_pro.Prelude.{
  ℕ, zero, suc, ◌+◌, ◌-◌, ◌≤◌, ◌<◌, ◌≡◌, refl, ap, ◌∙◌, sym, true, some, List, [], ◌∷◌, ◌++◌, map,
  inl, inr, arith, leb, ltb, Bool-cases, le→leb, some_inj, leb→le, ltb→lt, assert-eq-some,
  take-append-drop, length, get_elem?, take, drop, replicate, length-append, length-set,
  length-take, length-drop, length-replicate, get_elem?-append, get_elem?-set, get_elem?-take,
  get_elem?-drop, get_elem?-some,
}
use mathlib.Core.Path.{subst}
use alacritty_pro.Row.{GridCell, Row, shrink, reset, write, front_split_off, fill_range}

-- What the implementations of the two traits promise: a reset forgets the old content, the default
-- is what a reset by the default gives, and the discriminant decides the result of a reset.
pub record IsLawful {T : Type 0} (cell : GridCell T) : Type 0 where
  pub reset_forgets : (c d t : T) → cell.reset c t ≡ cell.reset d t
  pub reset_default : (c : T) → cell.reset c cell.default ≡ cell.default
  pub reset_by_discriminant :
      (c s t : T)
      → cell.same_discriminant (cell.reset c s) t ≡ true
      → cell.reset c s ≡ cell.reset c t

pub get_elem?-replicate {ℓ} :
    {A : Type ℓ} (n i : ℕ) (a : A) → i < n → get_elem? (replicate n a) i ≡ some a
get_elem?-replicate zero i a h = elim h [ ]
get_elem?-replicate (suc n) zero a h = refl
get_elem?-replicate (suc n) (suc i) a h = get_elem?-replicate n i a (omega arith)

module _ {T : Type 0} ⦃cell : GridCell T⦄ where
  -- `occ` lies within the row, and the cells from there on are one blank, the result of a reset.
  pub record IsValid (r : Row T) : Type 0 where
    pub within : r.occ ≤ length r.inner
    pub base : T
    pub blank :
        (i : ℕ)
        → r.occ ≤ i
        → i < length r.inner
        → get_elem? r.inner i ≡ some (cell.reset cell.default base)

  -- The row that a reset of every cell gives.
  abbrev pub blank_row : ℕ → T → Row T
  blank_row columns template = record {
    inner = replicate columns (cell.reset cell.default template);
    occ = 0;
  }

  pub blank_row-IsValid : (columns : ℕ) (template : T) → IsValid (blank_row columns template)
  blank_row-IsValid columns template = record {
    within = omega arith;
    base = template;
    blank = λ i h k.
        get_elem?-replicate columns i _
          (omega (arith, length-replicate columns (cell.reset cell.default template)));
  }

  reset_cells :
      (t b : T) (occ : ℕ) (xs : List T)
      → ((c : T) → cell.reset c t ≡ b)
      → ((i : ℕ) → occ ≤ i → i < length xs → get_elem? xs i ≡ some b)
      → map (λ c. cell.reset c t) (take occ xs) ++ drop occ xs ≡ replicate (length xs) b
  reset_cells t b zero [] e h = refl
  reset_cells t b zero (x ∷ xs) e h = cc (
    h 0 (omega arith) (omega arith),
    reset_cells t b zero xs e (λ i p q. h (suc i) (omega arith) (omega arith)),
  )
  reset_cells t b (suc occ) [] e h = refl
  reset_cells t b (suc occ) (x ∷ xs) e h =
      cc (e x, reset_cells t b occ xs e (λ i p q. h (suc i) (omega arith) (omega arith)))

  -- With cells that keep the promises, resetting a valid row of one cell at least succeeds, and the
  -- reset of the occupied cells alone gives the row that a reset of every cell gives.
  pub reset-blank_row :
      (lawful : IsLawful cell) (r : Row T) (template : T)
      → IsValid r
      → 0 < length r.inner
      → reset r template ≡ some (blank_row (length r.inner) template)
  unfolding reset
  reset-blank_row lawful r template v h =
      let b = cell.reset cell.default template in
      let (l, e) = get_elem?-some r.inner (length r.inner - 1) (omega arith) in
      let forget = λ (c : T). lawful.reset_forgets c cell.default template in
      elim (Bool-cases (cell.same_discriminant l template)) [
        | inl same ↦
            let blank : (i : ℕ) → r.occ ≤ i → i < length r.inner → get_elem? r.inner i ≡ some b =
              λ i p q.
                v.blank i p q
                ∙ ap some (
                    lawful.reset_by_discriminant cell.default v.base template (
                      subst (λ c. cell.same_discriminant c template ≡ true)
                        (some_inj
                          (sym e ∙ v.blank (length r.inner - 1) (omega arith) (omega arith)))
                        same)) in
            rw (
              e,
              same,
              le→leb r.occ (length r.inner) v.within,
              reset_cells template b r.occ r.inner forget blank,
            )
        | inr other ↦ rw (
          e,
          other,
          le→leb (length r.inner) (length r.inner) (omega arith),
          reset_cells template b (length r.inner) r.inner forget (λ i p q. absurd (omega arith)),
        )
      ]

  -- Writing one cell keeps the row valid, and its length.
  pub write-IsValid :
      (r : Row T) (column : ℕ) (c : T) {r' : Row T}
      → IsValid r
      → write r column c ≡ some r'
      → IsValid r' × (length r'.inner ≡ length r.inner)
  unfolding write
  write-IsValid r column c v e =
      let (inside, done) = assert-eq-some (ltb column (length r.inner)) _ e in
      let bound = ltb→lt column (length r.inner) inside in
      let size = length-set r.inner column c in
      subst (λ (q : Row T). IsValid q × (length q.inner ≡ length r.inner)) (some_inj done)
        (
          record {
            within = omega (arith, size);
            base = v.base;
            blank = λ i p q. ground (arith, get_elem?-set r.inner column i c, v.blank i, size);
          },
          size,
        )

  fill_length :
      (xs : List T) (left right : ℕ) (c : T)
      → left ≤ right
      → right ≤ length xs
      → length (take left xs ++ (replicate (right - left) c ++ drop right xs)) ≡ length xs
  fill_length xs left right c h k = omega (
    arith,
    length-append (take left xs) (replicate (right - left) c ++ drop right xs),
    length-append (replicate (right - left) c) (drop right xs),
    length-take left xs,
    length-drop right xs,
    length-replicate (right - left) c,
  )

  -- The cells behind a filled range are those of before.
  get_elem?-fill_behind :
      (xs : List T) (left right : ℕ) (c : T) (i : ℕ)
      → left ≤ right
      → right ≤ length xs
      → right ≤ i
      → get_elem? (take left xs ++ (replicate (right - left) c ++ drop right xs)) i ≡ get_elem? xs i
  get_elem?-fill_behind xs left right c i h k l = ground (
    arith,
    get_elem?-append (take left xs) (replicate (right - left) c ++ drop right xs) i,
    get_elem?-append (replicate (right - left) c) (drop right xs) (i - length (take left xs)),
    get_elem?-drop right xs (i - length (take left xs) - length (replicate (right - left) c)),
    length-take left xs,
    length-replicate (right - left) c,
  )

  pub fill_range-IsValid :
      (r : Row T) (left right : ℕ) (c : T) {r' : Row T}
      → IsValid r
      → fill_range r left right c ≡ some r'
      → IsValid r' × (length r'.inner ≡ length r.inner)
  unfolding fill_range
  fill_range-IsValid r left right c v e =
      let (ordered, rest) = assert-eq-some (leb left right) _ e in
      let (inside, done) = assert-eq-some (leb right (length r.inner)) _ rest in
      let h = leb→le left right ordered in
      let k = leb→le right (length r.inner) inside in
      let size = fill_length r.inner left right c h k in
      subst (λ (q : Row T). IsValid q × (length q.inner ≡ length r.inner)) (some_inj done)
        (
          record {
            within = omega (arith, size);
            base = v.base;
            blank = λ i p q.
                get_elem?-fill_behind r.inner left right c i h k (omega arith)
                ∙ v.blank i (omega arith) (omega (arith, size));
          },
          size,
        )

  pub shrink-IsValid : (r : Row T) (columns : ℕ) → IsValid r → IsValid (shrink r columns).1
  unfolding shrink
  shrink-IsValid r columns v = elim (Bool-cases (leb (length r.inner) columns)) [
    | inl small ↦ rw small v
    | inr large ↦ rw large (record {
      within = omega (arith, length-take columns r.inner);
      base = v.base;
      blank = λ i p q.
          ground (arith, get_elem?-take columns r.inner i, v.blank i, length-take columns r.inner);
    })
  ]

  pub front_split_off-IsValid :
      (r : Row T) (at : ℕ) {front : List T} {r' : Row T}
      → IsValid r
      → front_split_off r at ≡ some (front, r')
      → IsValid r' × (front ++ r'.inner ≡ r.inner)
  unfolding front_split_off
  front_split_off-IsValid r at v e =
      let (inside, done) = assert-eq-some (leb at (length r.inner)) _ e in
      let h = leb→le at (length r.inner) inside in
      subst (λ (q : List T × Row T). IsValid q.1 × (q.0 ++ q.1.inner ≡ r.inner)) (some_inj done)
        (
          record {
            within = omega (arith, length-drop at r.inner);
            base = v.base;
            blank = λ i p q.
                get_elem?-drop at r.inner i
                ∙ v.blank (at + i) (omega arith) (omega (arith, length-drop at r.inner));
          },
          take-append-drop at r.inner,
        )
