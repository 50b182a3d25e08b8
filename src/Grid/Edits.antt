-- ===== src/Grid/Edits.antt =====
-- An edit of one line of the buffer, on the screen or in the history, keeps the grid well-formed.
use alacritty_pro.Prelude.{
  ℕ, ◌<◌, ◌≡◌, sym, ◌∙◌, ap, arith, Option, some, List, inl, inr, ◌==◌, length, get_elem?, set,
  get_elem?-set, get_elem?-some, get_elem?-take, Bool-cases, some_inj,
}
use mathlib.Core.Path.{subst}
use alacritty_pro.Prelude.Int.{ℤ}
use alacritty_pro.Row.{Row, GridCell}
use alacritty_pro.Storage
use alacritty_pro.Storage.{Storage}
use alacritty_pro.Storage.View.{ring, length-ring}
use alacritty_pro.Storage.Access.{InRange, position, SameShape, SameShape-IsValid, update-set}
use alacritty_pro.Grid.Defs.{Grid}
use alacritty_pro.Grid.Up.{IsLine, IsValid}

module _ {T : Type 0} where
  -- An edit that succeeds on every row with a property, and keeps the property.
  abbrev pub Keeps : (Row T → Type 0) → (Row T → Option (Row T)) → Type 0
  Keeps P f = (row : Row T) → P row → (out : Row T) × (f row ≡ some out) × P out

  AllRows-set :
      (P : Row T → Type 0) (xs ys : List (Row T)) (p : ℕ) (row : Row T)
      → p < length xs
      → ys ≡ set xs p row
      → P row
      → ((q : ℕ) (r : Row T) → get_elem? xs q ≡ some r → P r)
      → (q : ℕ) (r : Row T) → get_elem? ys q ≡ some r
      → P r
  AllRows-set P xs ys p row h e new all q r at =
      let seen = ap (λ l. get_elem? l q) e ∙ get_elem?-set xs p q row h in
      elim (Bool-cases (q == p)) [
        | inl here ↦ subst P (some_inj (sym (seen ∙ ground arith) ∙ at)) new
        | inr away ↦ all q r (sym (seen ∙ ground arith) ∙ at)
      ]

module _ {T : Type 0} ⦃cell : GridCell T⦄ where
  pub record EditedLine (g : Grid T) (r : Option (Storage T)) : Type 0 where
    pub raw : Storage T
    pub returns : r ≡ some raw
    pub shape : SameShape g.raw raw
    pub valid : IsValid (record g { raw = raw })

  pub update-EditedLine :
      (g : Grid T) (line : ℤ) (f : Row T → Option (Row T))
      → IsValid g
      → InRange g.raw line
      → Keeps (IsLine g.columns) f
      → EditedLine g (Storage.update g.raw line f)
  update-EditedLine g line f v h keeps =
      let p = position g.raw line in
      let hp : p < g.raw.len = omega arith in
      let whole = length-ring v.raw in
      let (row, at) = get_elem?-some (ring g.raw) p (omega (arith, whole, v.raw)) in
      let (out, e, good) = keeps row (v.rows p row at) in
      let (t, done, shape, ring_t) =
        update-set {s = g.raw} line f v.raw h
          (get_elem?-take g.raw.len (ring g.raw) p ∙ ground arith) e in
      record {
        raw = t;
        returns = done;
        shape = shape;
        valid = record {
          raw = SameShape-IsValid shape v.raw;
          visible = shape.same_visible ∙ v.visible;
          some_column = v.some_column;
          rows =
              AllRows-set (IsLine g.columns) (ring g.raw) (ring t) p out
                (omega (arith, whole, v.raw)) ring_t good v.rows;
          limit = omega (arith, shape, v.limit);
        };
      }
