-- ===== src/Stacks.antt =====
-- The stacks of titles and of keyboard modes of `Term` in alacritty_terminal/src/term/mod.rs. `TermMode`
-- is the number of its bits. The events that a new title sends are left out.
pub mod Bounds
mod Tests
use Prim.Native.Nat.{bit_and, bit_or}
use package.alacritty_pro.Prelude.{
  ℕ, zero, suc, ◌+◌, ◌-◌, ◌^◌, Bool, true, false, Option, none, some, List, [], ◌∷◌, ◌++◌, leb,
  if◌then◌else◌, ◌>>=◌, length, get_elem?, take,
}

abbrev pub title_stack_max_depth : ℕ
title_stack_max_depth = 4096

abbrev pub keyboard_mode_stack_max_depth : ℕ
keyboard_mode_stack_max_depth = title_stack_max_depth

-- The five flags of the protocol in `TermMode`, the bits 18 to 22.
abbrev pub kitty_keyboard_protocol : ℕ
kitty_keyboard_protocol = 0b111_1100_0000_0000_0000_0000

-- The three ways of `KeyboardModesApplyBehavior`.
pub data Behavior : Type 0 where
  replace union difference : Behavior

pub record Stacks (M Title : Type 0) : Type 0 where
  pub kitty_keyboard : Bool
  pub mode : ℕ
  pub title : Option Title
  pub title_stack : List (Option Title)
  pub keyboard_mode_stack : List M

-- `Vec::remove(0)`, which panics on an empty vector.
abbrev pub remove_first : {A : Type 0} → List A → Option (List A)
remove_first [] = none
remove_first (x ∷ xs) = some xs

-- `a & !b` of bit sets.
abbrev pub without : ℕ → ℕ → ℕ
without a b = a - bit_and a b

-- The keyboard modes of the crate `vte`: the empty one, and the tests for the five flags.
pub record KeyboardModes (M : Type 0) : Type 0 where
  pub no_mode : M
  pub disambiguate_esc_codes : M → Bool
  pub report_event_types : M → Bool
  pub report_alternate_keys : M → Bool
  pub report_all_keys_as_esc : M → Bool
  pub report_associated_text : M → Bool

-- `set` of a bit set.
unfoldable pub set_flag : ℕ → ℕ → Bool → ℕ
set_flag mode flag b = if b then bit_or mode flag else without mode flag

unfoldable pub set_mode : ℕ → Behavior → ℕ → ℕ
set_mode mode Behavior.replace new = bit_or (without mode kitty_keyboard_protocol) new
set_mode mode Behavior.union new =
    bit_or (without mode kitty_keyboard_protocol)
      (bit_or (bit_and mode kitty_keyboard_protocol) new)
set_mode mode Behavior.difference new =
    bit_or (without mode kitty_keyboard_protocol)
      (without (bit_and mode kitty_keyboard_protocol) new)

-- `self.title_stack.push`
abbrev pub push_back : {A : Type 0} → List A → A → List A
push_back xs x = xs ++ (x ∷ [])

module _ {M : Type 0} ⦃modes : KeyboardModes M⦄ where
  -- `TermMode::from`
  unfoldable pub to_term_mode : M → ℕ
  unfolding set_flag
  to_term_mode m =
      set_flag
        (set_flag
          (set_flag
            (set_flag (set_flag 0 (2 ^ 18) (modes.disambiguate_esc_codes m)) (2 ^ 19)
              (modes.report_event_types m))
            (2 ^ 20) (modes.report_alternate_keys m))
          (2 ^ 21) (modes.report_all_keys_as_esc m))
        (2 ^ 22) (modes.report_associated_text m)

  abbrev mode_or_none : Option M → M
  mode_or_none none = modes.no_mode
  mode_or_none (some m) = m

  -- The mode on top of the stack.
  abbrev pub active : List M → M
  active stack = mode_or_none (get_elem? stack (length stack - 1))

module _ {M Title : Type 0} ⦃modes : KeyboardModes M⦄ where
  -- The private `set_keyboard_mode`, and the handler of the same name in front of it.
  unfoldable pub set_keyboard_mode : Stacks M Title → ℕ → Behavior → Stacks M Title
  unfolding set_mode
  set_keyboard_mode s mode apply = record s { mode = set_mode s.mode apply mode }

  unfoldable pub handle_keyboard_mode : Stacks M Title → M → Behavior → Stacks M Title
  unfolding set_keyboard_mode to_term_mode
  handle_keyboard_mode s mode apply =
      if s.kitty_keyboard then set_keyboard_mode s (to_term_mode mode) apply else s

  -- A full stack takes its oldest entry off `title_stack`, as the source does.
  unfoldable pub push_keyboard_mode : Stacks M Title → M → Option (Stacks M Title)
  unfolding set_keyboard_mode to_term_mode
  push_keyboard_mode s mode =
      let titles =
        if leb keyboard_mode_stack_max_depth (length s.keyboard_mode_stack)
        then remove_first s.title_stack
        else some s.title_stack in
      let pushed = titles >>= (λ title_stack. some (
        set_keyboard_mode
          (record s {
            title_stack = title_stack;
            keyboard_mode_stack = push_back s.keyboard_mode_stack mode;
          })
          (to_term_mode mode) Behavior.replace)) in
      if s.kitty_keyboard then pushed else some s

  unfoldable pub pop_keyboard_modes : Stacks M Title → ℕ → Stacks M Title
  unfolding set_keyboard_mode to_term_mode
  pop_keyboard_modes s to_pop =
      let new_len = length s.keyboard_mode_stack - to_pop in
      let stack = take new_len s.keyboard_mode_stack in
      if s.kitty_keyboard
      then set_keyboard_mode (record s { keyboard_mode_stack = stack })
          (to_term_mode (active stack)) Behavior.replace
      else s

  unfoldable pub push_title : Stacks M Title → Option (Stacks M Title)
  push_title s =
      (if leb title_stack_max_depth (length s.title_stack)
        then remove_first s.title_stack
        else some s.title_stack)
      >>= (λ title_stack. some (record s { title_stack = push_back title_stack s.title }))

  -- The stack, and the title that was on top of it.
  abbrev restore_title : Stacks M Title → Option (Option Title) → Stacks M Title
  restore_title s none = s
  restore_title s (some popped) = record s {
    title_stack = take (length s.title_stack - 1) s.title_stack;
    title = popped;
  }

  unfoldable pub pop_title : Stacks M Title → Stacks M Title
  pop_title s = restore_title s (get_elem? s.title_stack (length s.title_stack - 1))
