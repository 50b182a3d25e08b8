-- ===== src/Cell/Flags.antt =====
-- `Flags` of alacritty_terminal/src/term/cell.rs: a set of 16 bits.
use Prim.Native.Nat.{bit_and, bit_or}
use alacritty_pro.Prelude.{ℕ, ◌-◌, Bool, not, ◌==◌}

abbrev pub inverse : ℕ
inverse = 0b0000_0000_0000_0001

abbrev pub bold : ℕ
bold = 0b0000_0000_0000_0010

abbrev pub italic : ℕ
italic = 0b0000_0000_0000_0100

abbrev pub underline : ℕ
underline = 0b0000_0000_0000_1000

abbrev pub wrapline : ℕ
wrapline = 0b0000_0000_0001_0000

abbrev pub wide_char : ℕ
wide_char = 0b0000_0000_0010_0000

abbrev pub wide_char_spacer : ℕ
wide_char_spacer = 0b0000_0000_0100_0000

abbrev pub dim : ℕ
dim = 0b0000_0000_1000_0000

abbrev pub hidden : ℕ
hidden = 0b0000_0001_0000_0000

abbrev pub strikeout : ℕ
strikeout = 0b0000_0010_0000_0000

abbrev pub leading_wide_char_spacer : ℕ
leading_wide_char_spacer = 0b0000_0100_0000_0000

abbrev pub double_underline : ℕ
double_underline = 0b0000_1000_0000_0000

abbrev pub undercurl : ℕ
undercurl = 0b0001_0000_0000_0000

abbrev pub dotted_underline : ℕ
dotted_underline = 0b0010_0000_0000_0000

abbrev pub dashed_underline : ℕ
dashed_underline = 0b0100_0000_0000_0000

abbrev pub all_underlines : ℕ
all_underlines =
    bit_or underline
      (bit_or double_underline (bit_or undercurl (bit_or dotted_underline dashed_underline)))

-- `contains`, `intersects`, `insert` and `remove` of the bit set.
unfoldable pub contains : ℕ → ℕ → Bool
contains flags bits = bit_and flags bits == bits

unfoldable pub intersects : ℕ → ℕ → Bool
intersects flags bits = not (bit_and flags bits == 0)

unfoldable pub insert_flags : ℕ → ℕ → ℕ
insert_flags flags bits = bit_or flags bits

unfoldable pub remove_flags : ℕ → ℕ → ℕ
remove_flags flags bits = flags - bit_and flags bits
