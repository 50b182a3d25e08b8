-- ===== src/Cell.antt =====
-- A cell of the terminal: `Flags`, `CellExtra` and `Cell` of alacritty_terminal/src/term/cell.rs, with
-- its implementations of `GridCell` and `ResetDiscriminant`. Colors and hyperlinks are values that
-- are only compared and copied: their types are parameters, with the two named default colors.
pub mod Flags
pub mod Lawful
mod Tests
use Prim.Native.Nat.{bit_or}
use package.alacritty_pro.Prelude.{
  ℕ, ◌+◌, ◌-◌, Bool, true, false, not, ◌&&◌, ◌||◌, Option, none, some, List, [], ◌∷◌, ◌++◌, ◌==◌,
  if◌then◌else◌, ◌>>=◌, length, get_elem?,
}
use package.alacritty_pro.Row.{GridCell}
use Flags.{contains, intersects, remove_flags}

abbrev pub space : ℕ
space = b' '

pub record CellExtra (Color Link : Type 0) : Type 0 where
  pub zerowidth : List ℕ
  pub underline_color : Option Color
  pub hyperlink : Option Link

pub record Cell (Color Link : Type 0) : Type 0 where
  pub c : ℕ
  pub fg : Color
  pub bg : Color
  pub flags : ℕ
  pub extra : Option (CellExtra Color Link)

-- The named colors that a default cell has, and the equality of colors.
pub record Palette (Color : Type 0) : Type 0 where
  pub foreground : Color
  pub background : Color
  pub same : Color → Color → Bool

abbrev pub is_none {ℓ} : {A : Type ℓ} → Option A → Bool
is_none none = true
is_none (some a) = false

module _ {Color Link : Type 0} where
  abbrev pub default_extra : CellExtra Color Link
  default_extra = record { zerowidth = []; underline_color = none; hyperlink = none }

  -- `get_or_insert(Default::default())`
  abbrev pub extra_or_default : Option (CellExtra Color Link) → CellExtra Color Link
  extra_or_default none = default_extra
  extra_or_default (some e) = e

  unfoldable pub zerowidth : Cell Color Link → Option (List ℕ)
  zerowidth cell = elim cell.extra [ none ↦ none | some e ↦ some e.zerowidth ]

  unfoldable pub push_zerowidth : Cell Color Link → ℕ → Cell Color Link
  push_zerowidth cell character =
      let e = extra_or_default cell.extra in
      record cell { extra = some (record e { zerowidth = e.zerowidth ++ (character ∷ []) }) }

  unfoldable pub clear_wide : Cell Color Link → Cell Color Link
  unfolding remove_flags
  clear_wide cell = record cell {
    flags = remove_flags cell.flags Flags.wide_char;
    extra = elim cell.extra [ none ↦ none | some e ↦ some (record e { zerowidth = [] }) ];
    c = space;
  }

  unfoldable pub droppable_underline : Option (CellExtra Color Link) → Bool
  droppable_underline none = true
  droppable_underline (some e) = length e.zerowidth == 0 && is_none e.hyperlink

  unfoldable pub set_underline_color : Cell Color Link → Option Color → Cell Color Link
  unfolding droppable_underline
  set_underline_color cell color =
      if is_none color && droppable_underline cell.extra
      then record cell { extra = none }
      else record cell {
        extra = some (record (extra_or_default cell.extra) { underline_color = color });
      }

  unfoldable pub underline_color : Cell Color Link → Option Color
  underline_color cell = elim cell.extra [ none ↦ none | some e ↦ e.underline_color ]

  unfoldable pub droppable_hyperlink : Option (CellExtra Color Link) → Bool
  droppable_hyperlink none = true
  droppable_hyperlink (some e) = length e.zerowidth == 0 && is_none e.underline_color

  unfoldable pub set_hyperlink : Cell Color Link → Option Link → Cell Color Link
  unfolding droppable_hyperlink
  set_hyperlink cell hyperlink =
      if is_none hyperlink && droppable_hyperlink cell.extra
      then record cell { extra = none }
      else record cell {
        extra = some (record (extra_or_default cell.extra) { hyperlink = hyperlink });
      }

  unfoldable pub hyperlink : Cell Color Link → Option Link
  hyperlink cell = elim cell.extra [ none ↦ none | some e ↦ e.hyperlink ]

module _ {Color : Type 0} (palette : Palette Color) (Link : Type 0) where
  abbrev pub default : Cell Color Link
  default = record {
    c = space;
    bg = palette.background;
    fg = palette.foreground;
    flags = 0;
    extra = none;
  }

  -- `From<Color>`, and a reset by a template of that background.
  abbrev pub from_color : Color → Cell Color Link
  from_color color = record default { bg = color }

  abbrev pub no_zerowidth : Option (CellExtra Color Link) → Bool
  no_zerowidth none = true
  no_zerowidth (some e) = length e.zerowidth == 0

  -- How many cells stand in front of the trailing ones that show nothing: `line_length` reads the row
  -- from its end to the last cell with a character or a zero-width character.
  unfoldable pub shown_length : List (Cell Color Link) → ℕ
  shown_length [] = 0
  shown_length (cell ∷ cells) =
      let rest = shown_length cells in
      if rest == 0
      then (if not (cell.c == space) || not (no_zerowidth cell.extra) then 1 else 0)
      else rest + 1

  -- `LineLength::line_length` of a row; an empty row panics.
  unfoldable pub line_length : List (Cell Color Link) → Option ℕ
  unfolding shown_length contains
  line_length cells = do
    last ← get_elem? cells (length cells - 1)
    if contains last.flags Flags.wrapline then some (length cells) else some (shown_length cells)

  unfoldable pub is_empty : Cell Color Link → Bool
  unfolding intersects
  is_empty cell =
      (cell.c == space || cell.c == b'\t')
      && (palette.same cell.bg palette.background
          && (palette.same cell.fg palette.foreground
              && (not (
                    intersects cell.flags (
                      bit_or Flags.inverse (
                        bit_or Flags.all_underlines (
                          bit_or Flags.strikeout (
                            bit_or Flags.wrapline
                              (bit_or Flags.wide_char_spacer Flags.leading_wide_char_spacer))))))
                  && no_zerowidth cell.extra)))

  unfoldable pub reset : Cell Color Link → Cell Color Link → Cell Color Link
  reset cell template = from_color template.bg

  unfoldable pub cell_grid : GridCell (Cell Color Link)
  unfolding is_empty reset
  cell_grid = record {
    default = default;
    is_empty = is_empty;
    reset = reset;
    same_discriminant = λ a b. palette.same a.bg b.bg;
  }
