-- ===== src/Cell/Lawful.antt =====
-- The cell keeps the promises that the rows rely on.
use alacritty_pro.Prelude.{List, [], ℕ, ◌≡◌, refl, ap, ◌↔◌, true, Option, some, none, arith}
use alacritty_pro.Cell.{
  Cell, Palette, cell_grid, from_color, set_underline_color, set_hyperlink, underline_color,
  hyperlink, zerowidth,
}
use alacritty_pro.Row.Occupied.{IsLawful}

-- A reset of a cell forgets its content, a reset by the default cell gives the default, and two
-- resets by templates of one background agree, for any palette whose test of colors is equality.
pub cell_grid-IsLawful :
    {Color : Type 0} (palette : Palette Color) (Link : Type 0)
    → ((a b : Color) → (palette.same a b ≡ true) ↔ (a ≡ b))
    → IsLawful (cell_grid palette Link)
unfolding cell_grid
cell_grid-IsLawful palette Link law = record {
  reset_forgets = λ c d t. refl;
  reset_default = λ c. refl;
  reset_by_discriminant = λ c s t e. ap (from_color palette Link) ((law s.bg t.bg).0 e);
}

module _ {Color Link : Type 0} where
  -- Setting the color of the underline gives it back, and keeps the hyperlink.
  pub set_underline_color_lem :
      (cell : Cell Color Link) (color : Option Color)
      → (underline_color (set_underline_color cell color) ≡ color)
        × (hyperlink (set_underline_color cell color) ≡ hyperlink cell)
  unfolding underline_color set_underline_color hyperlink
  set_underline_color_lem cell color = ground arith

  -- Setting the hyperlink gives it back, and keeps the color of the underline, also where the storage
  -- of the extras is dropped.
  pub set_hyperlink_lem :
      (cell : Cell Color Link) (link : Option Link)
      → (hyperlink (set_hyperlink cell link) ≡ link)
        × (underline_color (set_hyperlink cell link) ≡ underline_color cell)
  unfolding underline_color set_hyperlink hyperlink
  set_hyperlink_lem cell link = ground arith

  -- The zero-width characters that a cell holds.
  unfoldable pub marks : Cell Color Link → List ℕ
  unfolding zerowidth
  marks cell = elim (zerowidth cell) [ none ↦ [] | some l ↦ l ]

  pub set_underline_color-marks :
      (cell : Cell Color Link) (color : Option Color)
      → marks (set_underline_color cell color) ≡ marks cell
  unfolding marks set_underline_color
  set_underline_color-marks cell color = ground arith

  pub set_hyperlink-marks :
      (cell : Cell Color Link) (link : Option Link) → marks (set_hyperlink cell link) ≡ marks cell
  unfolding marks set_hyperlink
  set_hyperlink-marks cell link = ground arith
