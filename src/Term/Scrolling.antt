-- ===== src/Term/Scrolling.antt =====
-- The scrolling region.
use alacritty_pro.Prelude.{
  ℕ, ◌-◌, ◌≤◌, ◌<◌, min, ◌≡◌, refl, ◌∙◌, ap, arith, Option, some, leb, inl, inr, Bool-cases,
}
use alacritty_pro.Prelude.Int.{pos, min_ℤ, sub_ℕ}
use alacritty_pro.Grid.Defs.{Region}
use alacritty_pro.Term.{Term, set_scrolling_region, unwrap_or}
use alacritty_pro.Term.Motion.{IsValid, Frame, Frame-refl, goto_lem}

first_line : (top lines : ℕ) → 0 < top → min_ℤ (sub_ℕ top 1) (pos lines) ≡ pos (min (top - 1) lines)
first_line top lines h = ground arith

last_line : (bottom lines : ℕ) → min_ℤ (pos bottom) (pos lines) ≡ pos (min bottom lines)
last_line bottom lines = ground arith

module _ {T : Type 0} where
  -- The terminal with the region from line `top` to line `bottom` of the protocol.
  abbrev with_region : Term T → ℕ → ℕ → Term T
  with_region t top bottom = record t {
    scroll_region = record {
      start = min_ℤ (sub_ℕ top 1) (pos t.grid.lines);
      end = min_ℤ (pos bottom) (pos t.grid.lines);
    };
  }

  with_region-IsValid :
      (t : Term T) (v : IsValid t) (top bottom : ℕ)
      → 0 < top
      → top < bottom
      → IsValid (with_region t top bottom)
  with_region-IsValid t v top bottom h l = record {
    damage = v.damage;
    entries = v.entries;
    row = v.row;
    at_row = v.at_row;
    row_in = v.row_in;
    column_in = v.column_in;
    top = min (top - 1) t.grid.lines;
    bottom = min bottom t.grid.lines;
    start = first_line top t.grid.lines h;
    end = last_line bottom t.grid.lines;
    ordered = omega arith;
    some_line = omega arith;
    bottom_in = omega arith;
  }

  -- What setting a region does: it succeeds and leaves a valid terminal with the same rows, and a
  -- proper range becomes the region, cut off at the bottom of the screen.
  pub record RegionSet (t : Term T) (top bottom : ℕ) (m : Option (Term T)) : Type 0 where
    pub out : Term T
    pub returns : m ≡ some out
    pub valid : IsValid out
    pub same_rows : out.grid.raw ≡ t.grid.raw
    pub frame : Frame t out
    pub start : top < bottom → out.scroll_region.start ≡ pos (min (top - 1) t.grid.lines)
    pub end : top < bottom → out.scroll_region.end ≡ pos (min bottom t.grid.lines)
    pub ignored : bottom ≤ top → out ≡ t

  -- Setting the scrolling region of a valid terminal to lines of the protocol, with any top line from 1
  -- on and any bottom line, or the last one if none is given, succeeds and leaves a
  -- valid terminal with the same rows: a range whose bottom is below its top becomes the region, both
  -- ends cut off at the bottom of the screen, and any other changes nothing.
  pub set_scrolling_region_lem :
      (t : Term T) (v : IsValid t) (top : ℕ) (bottom : Option ℕ)
      → 0 < top
      → RegionSet t top (unwrap_or bottom t.grid.lines) (set_scrolling_region t top bottom)
  unfolding set_scrolling_region
  set_scrolling_region_lem t v top bottom h =
      let last = unwrap_or bottom t.grid.lines in
      elim (Bool-cases (leb last top)) [
        | inl bad ↦ record {
          out = t;
          returns = rw bad refl;
          valid = v;
          same_rows = refl;
          frame = Frame-refl t;
          start = λ less. absurd (ground arith);
          end = λ less. absurd (ground arith);
          ignored = λ _. refl;
        }
        | inr good ↦
            let less : top < last = ground arith in
            let moved =
              goto_lem (with_region t top last) (with_region-IsValid t v top last h less) (pos 0)
                0 in
            record {
              out = moved.out;
              returns = rw good moved.returns;
              valid = moved.valid;
              same_rows = moved.same_rows;
              frame = record {
                lines = moved.frame.lines;
                columns = moved.frame.columns;
                limit = moved.frame.limit;
                saved = moved.frame.saved;
                tabs = moved.frame.tabs;
              };
              start = λ _.
                  ap (λ (r : Region). r.start) moved.same_region ∙ first_line top t.grid.lines h;
              end = λ _. ap (λ (r : Region). r.end) moved.same_region ∙ last_line last t.grid.lines;
              ignored = λ more. absurd (omega arith);
            }
      ]
