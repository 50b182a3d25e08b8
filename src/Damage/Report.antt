-- ===== src/Damage/Report.antt =====
-- Nothing damaged goes unreported, and nothing else is reported.
use alacritty_pro.Prelude.{
  ℕ, zero, suc, ◌+◌, ◌-◌, ◌≤◌, ◌<◌, ◌≡◌, refl, sym, ◌∙◌, ap, arith, true, some, List, [], ◌∷◌, map,
  inl, inr, ◌==◌, length, get_elem?, set, take, length-set, get_elem?-set, get_elem?-some,
  get_elem?-take, Bool-cases, some_inj,
}
use alacritty_pro.Damage.{
  LineDamageBounds, TermDamageState, new, damage_line, reset, iterator, damaged_lines,
  undamaged_lines, is_damaged, expand, reset_bounds,
}

-- Every line has its own entry, in order.
pub record IsValid (d : TermDamageState) : Type 0 where
  pub numbered : (i : ℕ) (b : LineDamageBounds) → get_elem? d.lines i ≡ some b → b.line ≡ i

-- A column of a line lies in the damaged range.
abbrev pub Covers : LineDamageBounds → ℕ → Type 0
Covers b column = (b.left ≤ column) × (column ≤ b.right)

abbrev pub Damaged : TermDamageState → ℕ → ℕ → Type 0
Damaged d line column = (b : LineDamageBounds) × (get_elem? d.lines line ≡ some b) × Covers b column

numbered-undamaged :
    (cols n line i : ℕ) (b : LineDamageBounds)
    → get_elem? (undamaged_lines cols n line) i ≡ some b
    → (b.line ≡ line + i) × (b.left ≡ cols) × (b.right ≡ 0)
unfolding undamaged_lines
numbered-undamaged cols zero line i b h = cc
numbered-undamaged cols (suc n) line zero b h = ground arith
numbered-undamaged cols (suc n) line (suc i) b h =
    ground (arith, numbered-undamaged cols n (suc line) i b h)

-- A fresh state has one entry for each line, and no column of it is damaged if there are columns.
pub new_lem :
    (cols lines : ℕ)
    → IsValid (new cols lines)
      × (0 < cols → (line column : ℕ) → ¬ Damaged (new cols lines) line column)
unfolding new
new_lem cols lines = (
  record { numbered = λ i b h. ground (arith, numbered-undamaged cols lines 0 i b h) },
  λ pos line column (b, e, c). omega (arith, numbered-undamaged cols lines 0 line b e),
)

-- In a state with numbered entries, damaging a range of a line of the screen succeeds, damages every column of the range, keeps all
-- damage that was there, on this and on other lines, and keeps the entries numbered.
pub damage_line_lem :
    (d : TermDamageState) (line left right : ℕ)
    → IsValid d
    → line < length d.lines
    → (d' : TermDamageState) × (damage_line d line left right ≡ some d')
      × IsValid d'
      × (length d'.lines ≡ length d.lines)
      × ((column : ℕ) → left ≤ column → column ≤ right → Damaged d' line column)
      × ((l column : ℕ) → Damaged d l column → Damaged d' l column)
unfolding damage_line
damage_line_lem d line left right v h =
    let (b, e) = get_elem?-some d.lines line h in
    let after = λ (i : ℕ). get_elem?-set d.lines line i (expand b left right) h in
    (
      record d { lines = set d.lines line (expand b left right) },
      rw e,
      record { numbered = λ i x g. ground (arith, after i, v.numbered i x, v.numbered line b) },
      length-set d.lines line (expand b left right),
      λ column p q. (expand b left right, after line ∙ ground arith, ground arith),
      λ l column (x, g, c). elim (Bool-cases (l == line)) [
        | inl same ↦
            let same_x : x ≡ b = ground arith in
            (expand b left right, after l ∙ ground arith, ground arith)
        | inr other ↦ (x, after l ∙ ground arith, c)
      ],
    )

mapped_entry :
    (f : LineDamageBounds → LineDamageBounds) (bs : List LineDamageBounds) (i : ℕ)
    (x : LineDamageBounds)
    → get_elem? (map f bs) i ≡ some x
    → (b : LineDamageBounds) × (get_elem? bs i ≡ some b) × (x ≡ f b)
mapped_entry f [] i x h = cc
mapped_entry f (b ∷ bs) zero x h = (b, refl, cc)
mapped_entry f (b ∷ bs) (suc i) x h = mapped_entry f bs i x h

-- In a state with numbered entries, resetting to a positive number of columns leaves no column
-- damaged, whatever was, and keeps the entries numbered.
pub reset_lem :
    (cols : ℕ) (d : TermDamageState)
    → IsValid d
    → 0 < cols
    → IsValid (reset d cols) × ((line column : ℕ) → ¬ Damaged (reset d cols) line column)
unfolding reset
reset_lem cols d v pos = (
  record {
    numbered = λ i x h.
        let (b, e, f) = mapped_entry (reset_bounds cols) d.lines i x h in
        ground (arith, ap (λ (y : LineDamageBounds). y.line) f, v.numbered i b e);
  },
  λ line column (x, h, c).
      let (b, e, f) = mapped_entry (reset_bounds cols) d.lines line x h in
      omega
        (arith, ap (λ (y : LineDamageBounds). y.left) f, ap (λ (y : LineDamageBounds). y.right) f),
)

abbrev pub shifted : ℕ → LineDamageBounds → LineDamageBounds
shifted offset b = record { line = b.line + offset; left = b.left; right = b.right }

reports :
    (offset : ℕ) (bs : List LineDamageBounds) (i : ℕ) (b : LineDamageBounds)
    → get_elem? bs i ≡ some b
    → is_damaged b ≡ true
    → (j : ℕ) × (get_elem? (damaged_lines offset bs) j ≡ some (shifted offset b))
unfolding damaged_lines
reports offset [] i b h k = cc
reports offset (x ∷ bs) zero b h k = (0, ground arith)
reports offset (x ∷ bs) (suc i) b h k =
    let (j, e) = reports offset bs i b h k in
    elim (Bool-cases (is_damaged x)) [ inl hit ↦ (suc j, rw (hit) e) | inr miss ↦ (j, rw (miss) e) ]

reported :
    (offset : ℕ) (bs : List LineDamageBounds) (j : ℕ) (r : LineDamageBounds)
    → get_elem? (damaged_lines offset bs) j ≡ some r
    → (i : ℕ) × (b : LineDamageBounds) × (get_elem? bs i ≡ some b)
      × (is_damaged b ≡ true)
      × (shifted offset b ≡ r)
unfolding damaged_lines
reported offset [] j r h = cc
reported offset (x ∷ bs) j r h = elim (Bool-cases (is_damaged x)) [
  | inl hit ↦ first offset x bs j r hit (reported offset bs) (rw hit at h)
  | inr miss ↦ let (i, b, e, d, q) = reported offset bs j r (rw miss at h) in (suc i, b, e, d, q)
]
  where
    first :
        (offset : ℕ) (x : LineDamageBounds) (bs : List LineDamageBounds) (j : ℕ)
        (r : LineDamageBounds)
        → is_damaged x ≡ true
        → ((j : ℕ) (r : LineDamageBounds)
            → get_elem? (damaged_lines offset bs) j ≡ some r
            → (i : ℕ) × (b : LineDamageBounds) × (get_elem? bs i ≡ some b)
              × (is_damaged b ≡ true)
              × (shifted offset b ≡ r))
        → get_elem? (shifted offset x ∷ damaged_lines offset bs) j ≡ some r
        → (i : ℕ) × (b : LineDamageBounds) × (get_elem? (x ∷ bs) i ≡ some b)
          × (is_damaged b ≡ true)
          × (shifted offset b ≡ r)
    first offset x bs zero r hit rec h = (0, x, refl, hit, some_inj h)
    first offset x bs (suc j) r hit rec h = let (i, b, e, d, q) = rec j r h in (suc i, b, e, d, q)

-- The iterator reports the damaged lines that the display offset leaves in the viewport, moved down
-- by that offset, and no other: every such line is reported, and every report is of such a line.
pub iterator_lem :
    (lines : List LineDamageBounds) (offset : ℕ)
    → ((i : ℕ) (b : LineDamageBounds)
        → get_elem? lines i ≡ some b
        → i + offset < length lines
        → is_damaged b ≡ true
        → (j : ℕ) × (get_elem? (iterator lines offset) j ≡ some (shifted offset b)))
      × ((j : ℕ) (r : LineDamageBounds)
          → get_elem? (iterator lines offset) j ≡ some r
          → (i : ℕ) × (b : LineDamageBounds) × (get_elem? lines i ≡ some b)
            × (i + offset < length lines)
            × (is_damaged b ≡ true)
            × (shifted offset b ≡ r))
unfolding iterator
iterator_lem lines offset = (
  λ i b h k d.
      reports offset (take (length lines - offset) lines) i b
        (get_elem?-take (length lines - offset) lines i ∙ ground arith) d,
  λ j r h.
      let (i, b, e, d, s) = reported offset (take (length lines - offset) lines) j r h in
      let t = sym (get_elem?-take (length lines - offset) lines i) ∙ e in
      (i, b, ground arith, ground arith, d, s),
)
