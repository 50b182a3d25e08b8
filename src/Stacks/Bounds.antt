-- ===== src/Stacks/Bounds.antt =====
-- How deep the stacks get, and what pushing and popping do to them.
use Prim.Native.Nat.{bit_or}
use alacritty_pro.Prelude.{
  ℕ, suc, ◌-◌, ◌≤◌, ◌<◌, ◌≡◌, refl, ◌∙◌, ap, arith, true, false, Option, none, some, List, [], ◌∷◌,
  leb, if◌then◌else◌, ◌>>=◌, length, get_elem?, take, length-append, inl, inr, Bool-cases, min,
}
use alacritty_pro.Stacks.{
  Behavior, to_term_mode, set_keyboard_mode, Stacks, KeyboardModes, push_title, pop_title,
  push_keyboard_mode, pop_keyboard_modes, push_back, remove_first, title_stack_max_depth,
  keyboard_mode_stack_max_depth, active, without, kitty_keyboard_protocol, set_mode,
}

take-push_back : {A : Type 0} (xs : List A) (x : A) → take (length xs) (push_back xs x) ≡ xs
take-push_back [] x = refl
take-push_back (y ∷ xs) x = ap (λ l. y ∷ l) (take-push_back xs x)

last-push_back :
    {A : Type 0} (xs : List A) (x : A) → get_elem? (push_back xs x) (length xs) ≡ some x
last-push_back [] x = refl
last-push_back (y ∷ xs) x = last-push_back xs x

length-push_back : {A : Type 0} (xs : List A) (x : A) → length (push_back xs x) ≡ suc (length xs)
length-push_back xs x = omega (arith, length-append xs (x ∷ []))

module _ {M : Type 0} ⦃modes : KeyboardModes M⦄ where
  -- The flags of the terminal with those of the protocol replaced by the flags of a keyboard mode.
  abbrev pub with_keyboard_mode : ℕ → M → ℕ
  with_keyboard_mode flags mode = bit_or (without flags kitty_keyboard_protocol) (to_term_mode mode)

module _ {M Title : Type 0} ⦃modes : KeyboardModes M⦄ where
  -- Pushing the title never fails, and keeps the stack within its depth: it grows by one, or, if it
  -- is full, loses its oldest entry. The title itself stays.
  pub push_title_lem :
      (s : Stacks M Title)
      → length s.title_stack ≤ title_stack_max_depth
      → (out : Stacks M Title) × (push_title s ≡ some out)
        × (length out.title_stack ≡ min (suc (length s.title_stack)) title_stack_max_depth)
        × (out.title ≡ s.title)
  unfolding push_title
  push_title_lem s h = full s.title_stack h
    where
      full :
          (titles : List (Option Title))
          → length titles ≤ title_stack_max_depth
          → (out : Stacks M Title) × (((if leb title_stack_max_depth (length titles)
                  then remove_first titles
                  else some titles)
                >>= (λ title_stack.
                    some (record s { title_stack = push_back title_stack s.title })))
              ≡ some out)
            × (length out.title_stack ≡ min (suc (length titles)) title_stack_max_depth)
            × (out.title ≡ s.title)
      full [] h = (record s { title_stack = push_back [] s.title }, refl, refl, refl)
      full (x ∷ xs) h = elim (Bool-cases (leb title_stack_max_depth (suc (length xs)))) [
        | inl deep ↦ (
          record s { title_stack = push_back xs s.title },
          rw deep refl,
          ground (arith, length-push_back xs s.title),
          refl,
        )
        | inr shallow ↦ (
          record s { title_stack = push_back (x ∷ xs) s.title },
          rw shallow refl,
          ground (arith, length-push_back xs s.title),
          refl,
        )
      ]

  -- Popping undoes pushing, if the title stack was not full.
  pub pop_title-push_title :
      (s : Stacks M Title)
      → length s.title_stack < title_stack_max_depth
      → (push_title s >>= (λ out. some (pop_title out))) ≡ some s
  unfolding push_title pop_title
  pop_title-push_title s h =
      let shallow : leb title_stack_max_depth (length s.title_stack) ≡ false = ground arith in
      let top : length (push_back s.title_stack s.title) - 1 ≡ length s.title_stack =
        omega (arith, length-push_back s.title_stack s.title) in
      rw (shallow, top, last-push_back s.title_stack s.title)
        (ap (λ (l : List (Option Title)). some (record s { title_stack = l }))
          (ap (λ n. take n (push_back s.title_stack s.title)) top
            ∙ take-push_back s.title_stack s.title))

  -- With the protocol on and the stack of keyboard modes not full, a push succeeds, puts the mode on top
  -- of the stack, replaces the protocol's flags of the terminal by those of the mode, and keeps the
  -- titles. Popping one mode then gives the stack back, and replaces the flags by those of the mode that
  -- was on top before, or of no mode.
  pub pop_keyboard_modes-push_keyboard_mode :
      (s : Stacks M Title) (mode : M)
      → s.kitty_keyboard ≡ true
      → length s.keyboard_mode_stack < keyboard_mode_stack_max_depth
      → (out : Stacks M Title) × (push_keyboard_mode s mode ≡ some out)
        × (active out.keyboard_mode_stack ≡ mode)
        × (out.mode ≡ with_keyboard_mode s.mode mode)
        × (out.title_stack ≡ s.title_stack)
        × ((pop_keyboard_modes out 1).keyboard_mode_stack ≡ s.keyboard_mode_stack)
        × ((pop_keyboard_modes out 1).mode
            ≡ with_keyboard_mode out.mode (active s.keyboard_mode_stack))
  unfolding push_keyboard_mode pop_keyboard_modes set_keyboard_mode set_mode
  pop_keyboard_modes-push_keyboard_mode s mode on h =
      let stack = s.keyboard_mode_stack in
      let shallow : leb keyboard_mode_stack_max_depth (length stack) ≡ false = ground arith in
      let top : length (push_back stack mode) - 1 ≡ length stack =
        omega (arith, length-push_back stack mode) in
      (
        set_keyboard_mode (record s { keyboard_mode_stack = push_back stack mode })
            (to_term_mode mode) Behavior.replace,
        rw (on, shallow) refl,
        rw (top, last-push_back stack mode) refl,
        refl,
        refl,
        rw (on, top, take-push_back stack mode) refl,
        rw (on, top, take-push_back stack mode) refl,
      )

  -- With the protocol on and the stack of keyboard modes full, a push takes the oldest entry off the
  -- stack of titles: it panics if there is none, and else the stack of keyboard modes grows past its
  -- maximum depth.
  pub push_keyboard_mode_full :
      (s : Stacks M Title) (mode : M)
      → s.kitty_keyboard ≡ true
      → keyboard_mode_stack_max_depth ≤ length s.keyboard_mode_stack
      → ((s.title_stack ≡ []) → push_keyboard_mode s mode ≡ none)
        × ((oldest : Option Title) (titles : List (Option Title))
            → s.title_stack ≡ oldest ∷ titles
            → (out : Stacks M Title) × (push_keyboard_mode s mode ≡ some out)
              × (out.title_stack ≡ titles)
              × (length out.keyboard_mode_stack ≡ suc (length s.keyboard_mode_stack)))
  unfolding push_keyboard_mode set_keyboard_mode
  push_keyboard_mode_full s mode on h =
      let full : leb keyboard_mode_stack_max_depth (length s.keyboard_mode_stack) ≡ true =
        ground arith in
      (
        λ empty. rw (on, full, empty) refl,
        λ oldest titles e. (
          set_keyboard_mode
              (record s {
                title_stack = titles;
                keyboard_mode_stack = push_back s.keyboard_mode_stack mode;
              })
              (to_term_mode mode) Behavior.replace,
          rw (on, full, e) refl,
          refl,
          length-push_back s.keyboard_mode_stack mode,
        ),
      )
