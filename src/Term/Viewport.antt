-- ===== src/Term/Viewport.antt =====
-- Points of the grid and of the viewport.
use alacritty_pro.Prelude.{ℕ, suc, ◌+◌, ◌-◌, ◌≤◌, ◌<◌, ◌≡◌, refl, ap, arith, some, none, ◌>>=◌}
use alacritty_pro.Prelude.Int.{ℤ, pos, negsuc, ◌+ℤ◌, ◌<ℤ◌, ◌≤ℤ◌}
use alacritty_pro.Index.{sub_line}
use alacritty_pro.Term.{point_to_viewport, viewport_to_point, screen_row}

back : (offset line : ℕ) → sub_line (pos line) offset +ℤ pos offset ≡ pos line
back offset line = ground arith

-- A point of the viewport, taken to the grid and back, is the same point, at every display offset.
pub point_to_viewport-viewport_to_point :
    (offset line column : ℕ)
    → point_to_viewport offset (viewport_to_point offset line column) ≡ some (line, column)
unfolding point_to_viewport viewport_to_point
point_to_viewport-viewport_to_point offset line column =
    ap (λ z. screen_row z >>= (λ l. some (l, column))) (back offset line)

forth : (offset n : ℕ) → offset ≤ n → (l : ℕ) → n ≡ l → sub_line (pos l) offset ≡ pos (n - offset)
forth offset n h l e = ground arith

-- A point of the grid that is shown in the viewport, taken there and back, is the same point; a
-- point above the viewport is not shown.
pub viewport_to_point-point_to_viewport :
    (offset column : ℕ) (line : ℤ)
    → (pos 0 ≤ℤ line +ℤ pos offset
        → (point_to_viewport offset (record { line = line; column = column })
            >>= (λ p. some (viewport_to_point offset p.0 p.1)))
          ≡ some (record { line = line; column = column }))
      × (line +ℤ pos offset <ℤ pos 0
          → point_to_viewport offset (record { line = line; column = column }) ≡ none)
unfolding point_to_viewport viewport_to_point
viewport_to_point-point_to_viewport offset column (pos n) = (
  λ h.
      rw (inside n offset) (ap (λ z. some (record { line = z; column = column })) (shown n offset)),
  λ h. absurd (ground arith),
)
  where
    inside : (n offset : ℕ) → pos n +ℤ pos offset ≡ pos (n + offset)
    inside n offset = ground arith

    shown : (n offset : ℕ) → sub_line (pos (n + offset)) offset ≡ pos n
    shown n offset = ground arith
viewport_to_point-point_to_viewport offset column (negsuc n) = (
  λ h.
      rw (inside n offset (ground arith))
        (ap (λ z. some (record { line = z; column = column })) (shown n offset (ground arith))),
  λ h. rw (outside n offset (ground arith)) refl,
)
  where
    inside : (n offset : ℕ) → suc n ≤ offset → negsuc n +ℤ pos offset ≡ pos (offset - suc n)
    inside n offset h = ground arith

    shown : (n offset : ℕ) → suc n ≤ offset → sub_line (pos (offset - suc n)) offset ≡ negsuc n
    shown n offset h = ground arith

    outside : (n offset : ℕ) → offset < suc n → negsuc n +ℤ pos offset ≡ negsuc (n - offset)
    outside n offset h = ground arith
