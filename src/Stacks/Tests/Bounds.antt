-- ===== src/Stacks/Tests/Bounds.antt =====
-- Applications of the theorems of Stacks/Bounds to concrete states.
use alacritty_pro.Prelude.{ℕ, suc, ◌≡◌, refl, arith, Option, none, some, List, [], ◌∷◌, length}
use alacritty_pro.Stacks.{Stacks, push_keyboard_mode, pop_keyboard_modes, active}
use alacritty_pro.Stacks.Bounds.{
  pop_keyboard_modes-push_keyboard_mode, push_keyboard_mode_full, with_keyboard_mode,
}
use alacritty_pro.Samples
use alacritty_pro.Samples.{sample_cells, sample_modes}

push_keyboard_mode_full_example :
    ((Samples.full_stacks.title_stack ≡ []) → push_keyboard_mode Samples.full_stacks 1 ≡ none)
    × ((oldest : Option ℕ) (titles : List (Option ℕ))
        → Samples.full_stacks.title_stack ≡ oldest ∷ titles
        → (out : Stacks ℕ ℕ) × (push_keyboard_mode Samples.full_stacks 1 ≡ some out)
          × (out.title_stack ≡ titles)
          × (length out.keyboard_mode_stack ≡ suc (length Samples.full_stacks.keyboard_mode_stack)))
push_keyboard_mode_full_example =
    push_keyboard_mode_full Samples.full_stacks 1 refl Samples.full_stacks-full

pop_keyboard_modes-push_keyboard_mode_example :
    (out : Stacks ℕ ℕ) × (push_keyboard_mode Samples.stacks 1 ≡ some out)
    × (active out.keyboard_mode_stack ≡ 1)
    × (out.mode ≡ with_keyboard_mode {M = ℕ} Samples.stacks.mode 1)
    × (out.title_stack ≡ Samples.stacks.title_stack)
    × ((pop_keyboard_modes out 1).keyboard_mode_stack ≡ Samples.stacks.keyboard_mode_stack)
    × ((pop_keyboard_modes out 1).mode
        ≡ with_keyboard_mode {M = ℕ} out.mode (active Samples.stacks.keyboard_mode_stack))
pop_keyboard_modes-push_keyboard_mode_example =
    pop_keyboard_modes-push_keyboard_mode Samples.stacks 1 refl (omega arith)
