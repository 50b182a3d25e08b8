-- ===== src/Damage/Tests/Report.antt =====
-- Applications of the theorems of Damage/Report to concrete states.
use alacritty_pro.Prelude.{ℕ, ◌+◌, ◌≤◌, ◌<◌, ◌≡◌, arith, true, some, length, get_elem?}
use alacritty_pro.Damage.{LineDamageBounds, TermDamageState, damage_line, iterator, is_damaged}
use alacritty_pro.Damage.Report.{IsValid, Damaged, damage_line_lem, shifted, iterator_lem}
use alacritty_pro.Samples
use alacritty_pro.Samples.{sample_cells}

damage_line_lem_example :
    (d' : TermDamageState) × (damage_line Samples.damage 0 0 1 ≡ some d')
    × IsValid d'
    × (length d'.lines ≡ length Samples.damage.lines)
    × ((column : ℕ) → 0 ≤ column → column ≤ 1 → Damaged d' 0 column)
    × ((l column : ℕ) → Damaged Samples.damage l column → Damaged d' l column)
damage_line_lem_example = damage_line_lem Samples.damage 0 0 1 Samples.damage-IsValid (omega arith)

iterator_lem_example :
    ((i : ℕ) (b : LineDamageBounds)
      → get_elem? Samples.damage.lines i ≡ some b
      → i + 1 < length Samples.damage.lines
      → is_damaged b ≡ true
      → (j : ℕ) × (get_elem? (iterator Samples.damage.lines 1) j ≡ some (shifted 1 b)))
    × ((j : ℕ) (r : LineDamageBounds)
        → get_elem? (iterator Samples.damage.lines 1) j ≡ some r
        → (i : ℕ) × (b : LineDamageBounds) × (get_elem? Samples.damage.lines i ≡ some b)
          × (i + 1 < length Samples.damage.lines)
          × (is_damaged b ≡ true)
          × (shifted 1 b ≡ r))
iterator_lem_example = iterator_lem Samples.damage.lines 1
