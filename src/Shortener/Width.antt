-- ===== src/Shortener/Width.antt =====
-- The shortened text fits.
use mathlib.Core.Path.{subst}
use alacritty_pro.Prelude.{
  sym, ℕ, zero, suc, ◌+◌, ◌≤◌, ◌<◌, ◌≡◌, refl, arith, Bool, true, false, Option, none, some, List,
  [], ◌∷◌, ◌⊎◌, inl, inr, ltb, ◌==◌, if◌then◌else◌, ◌&&◌, Bool-cases,
}
use alacritty_pro.Shortener.{
  TextAction, ShortenDirection, StrShortener, new, new_right, next, next_char, collect, char_width,
  is_some, non_empty,
}

false_and : (b : Bool) → (b && false) ≡ true → ⊥
false_and true e = cc
false_and false e = cc

module _ (width : ℕ → Option ℕ) where
  -- A state that yields characters, or the spacer behind a wide one.
  abbrev pub running : List ℕ → ℕ → ℕ → Option ℕ → Bool → StrShortener
  running chars len max_width mark wide = record {
    chars = chars;
    accumulated_len = len;
    max_width = max_width;
    direction = ShortenDirection.right;
    shortener = mark;
    text_action = if wide then TextAction.spacer else TextAction.char;
  }

  -- The columns that the characters yielded take. The one behind a wide character is its spacer, in its
  -- second column; the flag says that a spacer comes first.
  unfoldable pub shown : Bool → List ℕ → ℕ
  shown spacer [] = 0
  shown true (c ∷ cs) = shown false cs
  shown false (c ∷ cs) = char_width width c + shown (char_width width c == 2) cs

  -- The characters that follow from the result of one call of `next`.
  abbrev after : ℕ → Option ℕ × StrShortener → List ℕ
  after n step = elim step.0 as (λ x. List ℕ) [ none ↦ [] | some c ↦ c ∷ collect width n step.1 ]

  by_step :
      (n len max_width : ℕ) (s : StrShortener) {step : Option ℕ × StrShortener}
      → next width s ≡ step
      → shown false (after n step) + len ≤ max_width
      → shown false (collect width (suc n) s) + len ≤ max_width
  unfolding collect
  by_step n len max_width s e h = subst (λ p. shown false (after n p) + len ≤ max_width) (sym e) h

  terminated :
      (n : ℕ) (s : StrShortener) → s.text_action ≡ TextAction.terminate → collect width n s ≡ []
  unfolding collect next
  terminated zero s e = refl
  terminated (suc n) s e = rw e refl

  -- From a state whose cells so far fit, and leave room for a shortener if there is one, the rest
  -- fits.
  fits :
      (n : ℕ) (chars : List ℕ) (len max_width : ℕ) (mark : Option ℕ) (wide : Bool)
      → ((m : ℕ) → mark ≡ some m → char_width width m ≤ 1)
      → len ≤ max_width
      → (len < max_width) ⊎ (mark ≡ none)
      → shown wide (collect width n (running chars len max_width mark wide)) + len ≤ max_width
  unfolding collect next next_char shown
  fits zero chars len max sh wide short h room = omega arith
  fits (suc n) chars len max sh true short h room = fits n chars len max sh false short h room
  fits (suc n) [] len max sh false short h room = omega arith
  fits (suc n) (ch ∷ cs) len max sh false short h room =
      let w = char_width width ch in
      let stopped = terminated n (done (len + w)) refl in
      elim (Bool-cases (ltb max (len + w))) [
        | inl over ↦
            by_step n len max state {step = (sh, done (len + w))} (rw over refl)
              (ended sh short (collect width n (done (len + w))) room stopped)
        | inr inside ↦ elim (Bool-cases (len + w == max && is_some sh)) [
          | inl exact ↦
              by_step n len max state
                {step = (if non_empty cs then sh else some ch, done (len + w))}
                (rw (inside, exact) refl)
                (last (non_empty cs) sh short (collect width n (done (len + w))) exact room stopped)
          | inr rest ↦ elim (Bool-cases (w == 2)) [
            | inl wide ↦
                by_step n len max state {step = (some ch, running cs (len + w) max sh true)}
                  (rw (inside, rest, wide) refl)
                  (rw wide (
                    omega (
                      arith,
                      fits n cs (len + w) max sh true short (ground arith)
                          (open_room sh inside rest),
                    )))
            | inr single ↦
                by_step n len max state {step = (some ch, running cs (len + w) max sh false)}
                  (rw (inside, rest, single) refl)
                  (rw single (
                    omega (
                      arith,
                      fits n cs (len + w) max sh false short (ground arith)
                          (open_room sh inside rest),
                    )))
          ]
        ]
      ]
    where
      state : StrShortener
      state = running (ch ∷ cs) len max sh false

      done : ℕ → StrShortener
      done len = record (running cs len max sh false) { text_action = TextAction.terminate }

      ended :
          (sh : Option ℕ)
          → ((m : ℕ) → sh ≡ some m → char_width width m ≤ 1)
          → (xs : List ℕ) → (len < max) ⊎ (sh ≡ none)
          → xs ≡ []
          → shown false (elim sh as (λ x. List ℕ) [ none ↦ [] | some c ↦ c ∷ xs ]) + len ≤ max
      ended none short xs room e = omega arith
      ended (some m) short xs (inl room) e = rw e (omega (arith, short m refl))
      ended (some m) short xs (inr absent) e = cc

      at_end : (len + char_width width ch == max && true) ≡ true → len + char_width width ch ≡ max
      at_end exact = ground (arith, exact)

      last :
          (more : Bool) (sh : Option ℕ)
          → ((m : ℕ) → sh ≡ some m → char_width width m ≤ 1)
          → (xs : List ℕ) → (len + char_width width ch == max && is_some sh) ≡ true
          → (len < max) ⊎ (sh ≡ none)
          → xs ≡ []
          → shown false (elim (if more then sh else some ch) as (λ x. List ℕ) [
            | none ↦ []
            | some c ↦ c ∷ xs
          ])
              + len
            ≤ max
      last more none short xs exact room e =
          absurd (false_and (len + char_width width ch == max) exact)
      last more (some m) short xs exact (inr absent) e = cc
      last true (some m) short xs exact (inl room) e = rw e (omega (arith, short m refl))
      last false (some m) short xs exact (inl room) e = rw e (omega (arith, at_end exact))

      open_room :
          (sh : Option ℕ)
          → ltb max (len + char_width width ch) ≡ false
          → (len + char_width width ch == max && is_some sh) ≡ false
          → (len + char_width width ch < max) ⊎ (sh ≡ none)
      open_room none inside rest = inr refl
      open_room (some m) inside rest = inl (ground arith)

  -- A text shortened at its end to one column at least, with no mark or one of at most one column, fits:
  -- the characters that are yielded, the mark included, take at most that many columns, whatever the
  -- widths of the text's characters and however often the iterator is called.
  pub collect-new_right :
      (n : ℕ) (text : List ℕ) (max_width : ℕ) (mark : Option ℕ)
      → ((m : ℕ) → mark ≡ some m → char_width width m ≤ 1)
      → 0 < max_width
      → shown false (collect width n (new width text max_width ShortenDirection.right mark))
        ≤ max_width
  unfolding new new_right
  collect-new_right n text max mark short h =
      omega (arith, fits n text 0 max _ false (taken text) (omega arith) (inl h))
    where
      taken :
          (text : List ℕ) (m : ℕ)
          → (if non_empty text then mark else none) ≡ some m
          → char_width width m ≤ 1
      taken [] m e = cc
      taken (c ∷ cs) m e = short m e
