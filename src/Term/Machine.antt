-- ===== src/Term/Machine.antt =====
-- The terminal as a state machine: the escape sequences that the parser hands to `Term`, of the trait
-- `Handler` in alacritty_terminal/src/term/mod.rs, as commands, and their runs from a new terminal. The
-- parser, of the crate `vte`, counts the top line of a region from 1.
pub mod Runs
use package.alacritty_pro.Prelude.{
  ℕ, suc, Bool, true, false, Option, none, some, List, [], ◌∷◌, ◌≡◌, ◌>>=◌,
}
use package.alacritty_pro.Prelude.Int.{ℤ, pos}
use package.alacritty_pro.Cell
use package.alacritty_pro.Cell.{Palette, cell_grid}
use package.alacritty_pro.Damage
use package.alacritty_pro.Tabs
use package.alacritty_pro.Grid.Defs
use package.alacritty_pro.Grid.Defs.{Grid}
use package.alacritty_pro.Term
use package.alacritty_pro.Term.Edit
use package.alacritty_pro.Term.Lines
use package.alacritty_pro.Term.Modes
use package.alacritty_pro.Term.Modes.{NamedMode, NamedPrivateMode, TabulationClearMode, Attr}
use package.alacritty_pro.Term.Write
use package.alacritty_pro.Term.Write.{Screen, LineClearMode}

pub data Command (Color : Type 0) : Type 0 where
  goto : ℤ → ℕ → Command Color
  goto_line : ℤ → Command Color
  goto_col : ℕ → Command Color
  move_up move_down move_up_and_cr move_down_and_cr move_forward move_backward : ℕ → Command Color
  move_backward_tabs move_forward_tabs : ℕ → Command Color
  carriage_return backspace linefeed newline reverse_index : Command Color
  save_cursor_position restore_cursor_position : Command Color
  set_scrolling_region : ℕ → Option ℕ → Command Color
  scroll_up scroll_down insert_blank_lines delete_lines : ℕ → Command Color
  insert_blank erase_chars delete_chars : ℕ → Command Color
  clear_line : LineClearMode → Command Color
  input : ℕ → Command Color
  set_mode unset_mode : NamedMode → Command Color
  set_private_mode unset_private_mode : NamedPrivateMode → Command Color
  terminal_attribute : Attr Color → Command Color
  set_horizontal_tabstop : Command Color
  clear_tabs : TabulationClearMode → Command Color

module _ {Color : Type 0} (palette : Palette Color) (Link : Type 0) where
  -- A new terminal on its grid, with the flags of the default mode.
  unfoldable pub with_grid : ℕ → ℕ → Grid (Cell.Cell Color Link) → Screen palette Link
  unfolding Damage.new Tabs.new
  with_grid columns lines grid = record {
    grid = grid;
    damage = Damage.new columns lines;
    origin_mode = false;
    line_wrap = true;
    insert_mode = false;
    line_feed_new_line = false;
    scroll_region = record { start = pos 0; end = pos lines };
    tabs = Tabs.new columns;
    selection = none;
    vi_mode_cursor = record { line = pos 0; column = 0 };
  }

  -- `Term::new`
  unfoldable pub new : ℕ → ℕ → ℕ → Option (Screen palette Link)
  unfolding Defs.new with_grid
  new columns lines scrolling_history =
      Defs.new ⦃cell = cell_grid palette Link⦄ lines columns scrolling_history
      >>= (λ grid. some (with_grid columns lines grid))

  module _ (char_map : ℕ → ℕ) (char_width : ℕ → Option ℕ) where
    unfoldable pub run : Command Color → Screen palette Link → Option (Screen palette Link)
    run (Command.goto line column) t = Term.goto t line column
    run (Command.goto_line line) t = Term.goto_line t line
    run (Command.goto_col column) t = Term.goto_col t column
    run (Command.move_up n) t = Term.move_up t n
    run (Command.move_down n) t = Term.move_down t n
    run (Command.move_up_and_cr n) t = Term.move_up_and_cr t n
    run (Command.move_down_and_cr n) t = Term.move_down_and_cr t n
    run (Command.move_forward n) t = Term.move_forward t n
    run (Command.move_backward n) t = Term.move_backward t n
    run (Command.move_backward_tabs n) t = Edit.move_backward_tabs t.tabs t n
    run (Command.move_forward_tabs n) t = Edit.move_forward_tabs t.tabs t n
    run Command.carriage_return t = Term.carriage_return t
    run Command.backspace t = Term.backspace t
    run Command.linefeed t = Lines.linefeed ⦃cell = cell_grid palette Link⦄ t
    run Command.newline t = Lines.newline ⦃cell = cell_grid palette Link⦄ t
    run Command.reverse_index t = Lines.reverse_index ⦃cell = cell_grid palette Link⦄ t
    run Command.save_cursor_position t = some (Term.save_cursor_position t)
    run Command.restore_cursor_position t = Term.restore_cursor_position t
    run (Command.set_scrolling_region top bottom) t = Term.set_scrolling_region t (suc top) bottom
    run (Command.scroll_up n) t = Lines.scroll_up ⦃cell = cell_grid palette Link⦄ t n
    run (Command.scroll_down n) t = Lines.scroll_down ⦃cell = cell_grid palette Link⦄ t n
    run (Command.insert_blank_lines n) t =
        Lines.insert_blank_lines ⦃cell = cell_grid palette Link⦄ t n
    run (Command.delete_lines n) t = Lines.delete_lines ⦃cell = cell_grid palette Link⦄ t n
    run (Command.insert_blank n) t = Edit.insert_blank palette Link t n
    run (Command.erase_chars n) t = Edit.erase_chars palette Link t n
    run (Command.delete_chars n) t = Edit.delete_chars palette Link t n
    run (Command.clear_line mode) t = Write.clear_line palette Link mode t
    run (Command.input c) t = Write.input palette Link char_map char_width t c
    run (Command.set_mode mode) t = some (Modes.set_mode mode t)
    run (Command.unset_mode mode) t = some (Modes.unset_mode mode t)
    run (Command.set_private_mode mode) t = Modes.set_private_mode palette Link mode t
    run (Command.unset_private_mode mode) t = Modes.unset_private_mode palette Link mode t
    run (Command.terminal_attribute attr) t = some (Modes.terminal_attribute palette Link attr t)
    run Command.set_horizontal_tabstop t = Modes.set_horizontal_tabstop t
    run (Command.clear_tabs mode) t = Modes.clear_tabs mode t

    unfoldable pub run_all :
        List (Command Color) → Screen palette Link → Option (Screen palette Link)
    unfolding run
    run_all [] t = some t
    run_all (c ∷ cs) t = run c t >>= run_all cs

    -- A terminal that the commands lead to from a new one of a given size.
    pub data Reachable (columns lines history : ℕ) : Screen palette Link → Type 0 where
      start :
          {t : Screen palette Link}
          → new columns lines history ≡ some t
          → Reachable columns lines history t
      step :
          {t u : Screen palette Link} (c : Command Color)
          → Reachable columns lines history t
          → run c t ≡ some u
          → Reachable columns lines history u
