-- ===== src/Shortener/Tests.antt =====
-- Texts shortened at either end, and a theorem at a concrete text.
mod Width
use alacritty_pro.Prelude.{ℕ, ◌≡◌, refl, Option, none, some, List, [], ◌∷◌}
use alacritty_pro.Samples
use alacritty_pro.Shortener.{ShortenDirection, new, collect}

abbrev hello : List ℕ
hello = b'H' ∷ (b'e' ∷ (b'l' ∷ (b'l' ∷ (b'o' ∷ []))))

-- At its end with a shortener: `H.`; at its start: `.o`.
right_end :
    collect Samples.narrow_width 9
      (new Samples.narrow_width hello 2 ShortenDirection.right (some b'.'))
    ≡ b'H' ∷ (b'.' ∷ [])
unfolding collect new
right_end = refl

left_end :
    collect Samples.narrow_width 9
      (new Samples.narrow_width hello 2 ShortenDirection.left (some b'.'))
    ≡ b'.' ∷ (b'o' ∷ [])
unfolding collect new
left_end = refl

-- One character too many, at the start and without a shortener: the first four are kept.
left_one_off :
    collect Samples.narrow_width 9 (new Samples.narrow_width hello 4 ShortenDirection.left none)
    ≡ b'H' ∷ (b'e' ∷ (b'l' ∷ (b'l' ∷ [])))
unfolding collect new
left_one_off = refl

-- Two too many: the last three are kept.
left_two_off :
    collect Samples.narrow_width 9 (new Samples.narrow_width hello 3 ShortenDirection.left none)
    ≡ b'l' ∷ (b'l' ∷ (b'o' ∷ []))
unfolding collect new
left_two_off = refl
