-- ===== src/Term/Modes.antt =====
-- The handlers of alacritty_terminal/src/term/mod.rs that set modes, attributes and tab stops:
-- `set_mode`, `unset_mode`, `set_private_mode`, `unset_private_mode`, `terminal_attribute`,
-- `set_horizontal_tabstop` and `clear_tabs`. The names of the modes and attributes are those of the
-- crate `vte`. Of the private modes these are the ones that the state of the screen has a flag or a
-- handler for: the swap of the screens is not among them, and all others set flags that no handler here
-- reads.
use alacritty_pro.Prelude.{ℕ, true, false, Option, none, some, ◌>>=◌}
use Prim.Native.Nat.{bit_or}
use alacritty_pro.Prelude.Int.{pos}
use alacritty_pro.Cell
use alacritty_pro.Cell.{Palette, cell_grid, set_underline_color}
use alacritty_pro.Cell.Flags
use alacritty_pro.Cell.Flags.{insert_flags, remove_flags}
use alacritty_pro.Tabs
use alacritty_pro.Tabs.{set_stop}
use alacritty_pro.Term.{Term, goto, cursor_column}
use alacritty_pro.Term.Lines.{mark_fully_damaged, deccolm}
use alacritty_pro.Term.Write.{Screen}

pub data NamedMode : Type 0 where
  insert line_feed_new_line : NamedMode

pub data NamedPrivateMode : Type 0 where
  line_wrap origin column_mode : NamedPrivateMode

pub data TabulationClearMode : Type 0 where
  current all : TabulationClearMode

-- The attributes that the terminal handles.
pub data Attr (Color : Type 0) : Type 0 where
  foreground background : Color → Attr Color
  underline_color : Option Color → Attr Color
  reset reverse cancel_reverse bold cancel_bold dim cancel_bold_dim italic cancel_italic :
      Attr Color
  underline double_underline undercurl dotted_underline dashed_underline : Attr Color
  cancel_underline hidden cancel_hidden strike cancel_strike : Attr Color

module _ {T : Type 0} where
  unfoldable pub set_mode : NamedMode → Term T → Term T
  set_mode NamedMode.insert t = record t { insert_mode = true }
  set_mode NamedMode.line_feed_new_line t = record t { line_feed_new_line = true }

  unfoldable pub unset_mode : NamedMode → Term T → Term T
  unset_mode NamedMode.insert t = mark_fully_damaged (record t { insert_mode = false })
  unset_mode NamedMode.line_feed_new_line t = record t { line_feed_new_line = false }

  unfoldable pub set_horizontal_tabstop : Term T → Option (Term T)
  unfolding set_stop
  set_horizontal_tabstop t =
      set_stop t.tabs (cursor_column t) true >>= (λ tabs. some (record t { tabs = tabs }))

  unfoldable pub clear_tabs : TabulationClearMode → Term T → Option (Term T)
  unfolding set_stop Tabs.clear_all
  clear_tabs TabulationClearMode.current t =
      set_stop t.tabs (cursor_column t) false >>= (λ tabs. some (record t { tabs = tabs }))
  clear_tabs TabulationClearMode.all t = some (record t { tabs = Tabs.clear_all t.tabs })

module _ {Color : Type 0} (palette : Palette Color) (Link : Type 0) where
  unfoldable pub set_private_mode :
      NamedPrivateMode → Screen palette Link → Option (Screen palette Link)
  unfolding goto deccolm
  set_private_mode NamedPrivateMode.line_wrap t = some (record t { line_wrap = true })
  set_private_mode NamedPrivateMode.origin t = goto (record t { origin_mode = true }) (pos 0) 0
  set_private_mode NamedPrivateMode.column_mode t = deccolm ⦃cell = cell_grid palette Link⦄ t

  unfoldable pub unset_private_mode :
      NamedPrivateMode → Screen palette Link → Option (Screen palette Link)
  unfolding deccolm
  unset_private_mode NamedPrivateMode.line_wrap t = some (record t { line_wrap = false })
  unset_private_mode NamedPrivateMode.origin t = some (record t { origin_mode = false })
  unset_private_mode NamedPrivateMode.column_mode t = deccolm ⦃cell = cell_grid palette Link⦄ t

  abbrev pub insert_flag : ℕ → Cell.Cell Color Link → Cell.Cell Color Link
  insert_flag f cell = record cell { flags = insert_flags cell.flags f }

  abbrev pub remove_flag : ℕ → Cell.Cell Color Link → Cell.Cell Color Link
  remove_flag f cell = record cell { flags = remove_flags cell.flags f }

  -- The template of the cursor with an attribute.
  unfoldable pub with_attr : Attr Color → Cell.Cell Color Link → Cell.Cell Color Link
  unfolding insert_flags remove_flags set_underline_color
  with_attr (Attr.foreground color) cell = record cell { fg = color }
  with_attr (Attr.background color) cell = record cell { bg = color }
  with_attr (Attr.underline_color color) cell = set_underline_color cell color
  with_attr Attr.reset cell =
      set_underline_color
        (record cell { fg = palette.foreground; bg = palette.background; flags = 0 }) none
  with_attr Attr.reverse cell = insert_flag Flags.inverse cell
  with_attr Attr.cancel_reverse cell = remove_flag Flags.inverse cell
  with_attr Attr.bold cell = insert_flag Flags.bold cell
  with_attr Attr.cancel_bold cell = remove_flag Flags.bold cell
  with_attr Attr.dim cell = insert_flag Flags.dim cell
  with_attr Attr.cancel_bold_dim cell = remove_flag (bit_or Flags.bold Flags.dim) cell
  with_attr Attr.italic cell = insert_flag Flags.italic cell
  with_attr Attr.cancel_italic cell = remove_flag Flags.italic cell
  with_attr Attr.underline cell =
      insert_flag Flags.underline (remove_flag Flags.all_underlines cell)
  with_attr Attr.double_underline cell =
      insert_flag Flags.double_underline (remove_flag Flags.all_underlines cell)
  with_attr Attr.undercurl cell =
      insert_flag Flags.undercurl (remove_flag Flags.all_underlines cell)
  with_attr Attr.dotted_underline cell =
      insert_flag Flags.dotted_underline (remove_flag Flags.all_underlines cell)
  with_attr Attr.dashed_underline cell =
      insert_flag Flags.dashed_underline (remove_flag Flags.all_underlines cell)
  with_attr Attr.cancel_underline cell = remove_flag Flags.all_underlines cell
  with_attr Attr.hidden cell = insert_flag Flags.hidden cell
  with_attr Attr.cancel_hidden cell = remove_flag Flags.hidden cell
  with_attr Attr.strike cell = insert_flag Flags.strikeout cell
  with_attr Attr.cancel_strike cell = remove_flag Flags.strikeout cell

  unfoldable pub terminal_attribute : Attr Color → Screen palette Link → Screen palette Link
  unfolding with_attr
  terminal_attribute attr t = record t {
    grid = record t.grid {
      cursor = record t.grid.cursor { template = with_attr attr t.grid.cursor.template };
    };
  }
