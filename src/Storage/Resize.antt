-- ===== src/Storage/Resize.antt =====
-- Growing and shrinking the buffer.
use mathlib.Core.List.{append-nil}
use alacritty_pro.Prelude.{
  ℕ, zero, suc, ◌+◌, ◌-◌, ◌≤◌, ◌<◌, ◌≡◌, refl, sym, ◌∙◌, ap, some, List, [], ◌∷◌, ◌++◌, arith, ltb,
  ◌==◌, if◌then◌else◌, max, length, take, replicate, inl, inr, Bool-cases, length-take, le→leb,
  length-append, length-replicate, ==_iff,
}
use alacritty_pro.Row
use alacritty_pro.Row.{Row, GridCell}
use alacritty_pro.Storage.{
  Storage, rotate_left, rezero, truncate, shrink_lines, initialize, max_cache_size, new_rows,
}
use alacritty_pro.Storage.View.{ring, contents, IsValid, length-ring}

take-take : {A : Type 0} (m n : ℕ) (xs : List A) → m ≤ n → take m (take n xs) ≡ take m xs
take-take zero n xs h = refl
take-take (suc m) zero xs h = absurd (omega arith)
take-take (suc m) (suc n) [] h = refl
take-take (suc m) (suc n) (x ∷ xs) h = ap (λ l. x ∷ l) (take-take m n xs (omega arith))

take-append : {A : Type 0} (m : ℕ) (xs ys : List A) → m ≤ length xs → take m (xs ++ ys) ≡ take m xs
take-append zero xs ys h = refl
take-append (suc m) [] ys h = absurd (omega arith)
take-append (suc m) (x ∷ xs) ys h = ap (λ l. x ∷ l) (take-append m xs ys (omega arith))

module _ {T : Type 0} where
  -- Moving the ring back to index 0 keeps it.
  pub rezero_lem :
      (s : Storage T)
      → s.zero < length s.inner
      → rezero s ≡ some (record s { inner = ring s; zero = 0 })
  unfolding rezero
  rezero_lem s v = elim (Bool-cases (s.zero == 0)) [
    | inl done ↦
        let e = (==_iff s.zero 0).0 done in
        let p = sym (ap (λ z. rotate_left z s.inner) e ∙ append-nil s.inner) in
        rw done (λ i. some (record s { inner = p i; zero = e i }))
    | inr other ↦ rw (other, le→leb s.zero (length s.inner) (omega arith))
  ]

  -- Truncation leaves the contents, from index 0 on, and nothing else.
  pub truncate_lem :
      (s : Storage T)
      → s.zero < length s.inner
      → truncate s ≡ some (record s { inner = contents s; zero = 0 })
  unfolding truncate
  truncate_lem s v = rw (rezero_lem s v)

  contents-take : (s : Storage T) → take s.len (take s.len (ring s) ++ []) ≡ contents s
  contents-take s =
      ap (take s.len) (append-nil (contents s)) ∙ take-take s.len s.len (ring s) (omega arith)

  -- Taking lines off the history of a valid storage, down to the visible ones at most: the contents lose the topmost
  -- lines and no other, and at most `max_cache_size` rows of the buffer stay unused if rows are freed.
  pub shrink_lines_lem :
      (s : Storage T) (shrinkage : ℕ)
      → IsValid s
      → shrinkage + s.visible_lines ≤ s.len
      → (s' : Storage T) × (shrink_lines s shrinkage ≡ some s')
        × IsValid s'
        × ((s'.len ≡ s.len - shrinkage) × (s'.visible_lines ≡ s.visible_lines))
        × (contents s' ≡ take (s.len - shrinkage) (contents s))
        × (length s'.inner ≤ s'.len + max_cache_size)
  unfolding shrink_lines
  shrink_lines_lem s shrinkage v h =
      let n = s.len - shrinkage in
      let t : Storage T = record s { len = n } in
      let kept : take n (ring s) ≡ take n (contents s) =
        sym (take-take n s.len (ring s) (omega arith)) in
      let size = length-take n (ring s) in
      let whole = length-ring v in
      elim (Bool-cases (ltb (n + max_cache_size) (length s.inner))) [
        | inl free ↦ (
          record t { inner = contents t; zero = 0 },
          rw (le→leb shrinkage s.len (omega arith), free, truncate_lem t v.zero_in),
          record {
            zero_in = omega (arith, size, whole);
            len_in = omega (arith, size, whole);
            visible_in = omega arith;
            some_line = v.some_line;
          },
          (refl, refl),
          contents-take t ∙ kept,
          omega (arith, size, whole),
        )
        | inr keep ↦ (
          t,
          rw (le→leb shrinkage s.len (omega arith), keep),
          record {
            zero_in = v.zero_in;
            len_in = omega arith;
            visible_in = omega arith;
            some_line = v.some_line;
          },
          (refl, refl),
          kept,
          ground arith,
        )
      ]

module _ {T : Type 0} ⦃cell : GridCell T⦄ where
  -- The rows that `initialize` appends to the buffer: none while the unused rows suffice.
  abbrev pub fresh_rows : Storage T → ℕ → ℕ → List (Row T)
  fresh_rows s additional_rows columns =
      if ltb (length s.inner) (s.len + additional_rows)
      then replicate (max additional_rows max_cache_size) (Row.default_row columns)
      else []

  pub new_rows_lem :
      (n columns : ℕ)
      → 0 < columns
      → new_rows {T = T} n columns ≡ some (replicate n (Row.default_row columns))
  unfolding new_rows Row.new
  new_rows_lem zero columns h = refl
  new_rows_lem (suc n) columns h = rw (le→leb 1 columns h, new_rows_lem n columns h) refl

  -- Growing a valid storage by any number of rows of at least one column succeeds and keeps it valid: the
  -- ring gets fresh rows behind its end where the unused ones do not suffice, the lines in use keep their
  -- rows, and the new lines follow above them.
  pub initialize_lem :
      (s : Storage T) (additional_rows columns : ℕ)
      → IsValid s
      → 0 < columns
      → (s' : Storage T) × (initialize s additional_rows columns ≡ some s')
        × IsValid s'
        × ((s'.len ≡ s.len + additional_rows) × (s'.visible_lines ≡ s.visible_lines))
        × (ring s' ≡ ring s ++ fresh_rows s additional_rows columns)
        × (take s.len (contents s') ≡ contents s)
  unfolding initialize
  initialize_lem s additional_rows columns v h =
      let whole = length-ring v in
      elim (Bool-cases (ltb (length s.inner) (s.len + additional_rows))) [
        | inl short ↦
            let fresh =
              replicate (max additional_rows max_cache_size) (Row.default_row {T = T} columns) in
            let size = length-append (ring s) fresh in
            let added =
              length-replicate (max additional_rows max_cache_size)
                (Row.default_row {T = T} columns) in
            (
              record s { inner = ring s ++ fresh; zero = 0; len = s.len + additional_rows },
              rw (
                short,
                rezero_lem s v.zero_in,
                new_rows_lem (max additional_rows max_cache_size) columns h,
              ),
              record {
                zero_in = omega (arith, size, whole, added);
                len_in = omega (arith, size, whole, added);
                visible_in = omega arith;
                some_line = v.some_line;
              },
              (refl, refl),
              rw short (append-nil (ring s ++ fresh)),
              take-take s.len (s.len + additional_rows) ((ring s ++ fresh) ++ []) (omega arith)
                  ∙ (ap (take s.len) (append-nil (ring s ++ fresh))
                      ∙ take-append s.len (ring s) fresh (omega (arith, whole))),
            )
        | inr enough ↦ (
          record s { len = s.len + additional_rows },
          rw enough,
          record {
            zero_in = v.zero_in;
            len_in = ground arith;
            visible_in = omega arith;
            some_line = v.some_line;
          },
          (refl, refl),
          rw enough (sym (append-nil (ring s))),
          take-take s.len (s.len + additional_rows) (ring s) (omega arith),
        )
      ]
