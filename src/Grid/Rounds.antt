-- ===== src/Grid/Rounds.antt =====
-- The loops of `scroll_up` and `scroll_down` in alacritty_terminal/src/grid/mod.rs that exchange each
-- line of a part of the screen with the line some rows away, read by positions.
use alacritty_pro.Prelude.{
  ℕ, zero, suc, ◌+◌, ◌-◌, ◌≤◌, ◌<◌, ◌≡◌, refl, ◌∙◌, Option, some, arith, ◌==◌, inl, inr, Bool-cases,
  >>=-step,
}
use alacritty_pro.Prelude.Int.{ℤ, pos}
use alacritty_pro.Index.{sub_line}
use alacritty_pro.Row.{Row}
use alacritty_pro.Storage.{Storage, swap}
use alacritty_pro.Storage.View.{IsValid}
use alacritty_pro.Storage.Access.{SameShape, SameShape-IsValid, SameShape-trans}
use alacritty_pro.Grid.Defs.{for_up, for_down, swap_up, swap_down}
use alacritty_pro.Grid.Lines.{row_at, AllRows, SameShape-refl, Swapped, swap-Swapped}

pub up_line : (c k : ℕ) → k ≤ c → sub_line (pos c) k ≡ pos (c - k)
up_line c k h = ground arith

module _ {T : Type 0} (P : Row T → Type 0) where
  -- The lines `a` up to `a + n` of the screen hold what was `k` lines further down; the lines above,
  -- and those from `a + n + k` on, are as before. What the `k` first lines shared, the `k` lines behind
  -- the moved ones share.
  pub record RaisedLines (k a n : ℕ) (s : Storage T) (r : Option (Storage T)) : Type 0 where
    pub out : Storage T
    pub returns : r ≡ some out
    pub shape : SameShape s out
    pub moved :
        (q : ℕ)
        → s.visible_lines - a - n ≤ q
        → q < s.visible_lines - a
        → row_at out q ≡ row_at s (q - k)
    pub above : (q : ℕ) → s.visible_lines - a ≤ q → row_at out q ≡ row_at s q
    pub below : (q : ℕ) → q < s.visible_lines - a - n - k → row_at out q ≡ row_at s q
    pub carried :
        (row : Option (Row T))
        → ((q : ℕ) → s.visible_lines - a - k ≤ q → q < s.visible_lines - a → row_at s q ≡ row)
        → (q : ℕ) → s.visible_lines - a - n - k ≤ q
        → q < s.visible_lines - a - n
        → row_at out q ≡ row
    pub all : AllRows P s → AllRows P out

  -- What one round of such a loop does to line `a`, the loop's own line being `d` lines further down.
  abbrev Exchanges : ℕ → ℕ → (ℤ → Storage T → Option (Storage T)) → Type 0
  Exchanges k d body =
      (s : Storage T) (a c : ℕ)
      → c ≡ a + d
      → IsValid s
      → a + k < s.visible_lines
      → Swapped P s (s.visible_lines - a - 1) (s.visible_lines - a - 1 - k) (body (pos c) s)

  raised_step :
      (body : ℤ → Storage T → Option (Storage T)) (k a c n : ℕ) (s : Storage T)
      → suc (a + n) + k ≤ s.visible_lines
      → (step : Swapped P s
          (s.visible_lines - a - 1)
          (s.visible_lines - a - 1 - k)
          (body (pos c) s))
      → RaisedLines k (suc a) n step.out (for_up body n (pos (suc c)) step.out)
      → RaisedLines k a (suc n) s (for_up body (suc n) (pos c) s)
  unfolding for_up
  raised_step body k a c n s h step rest = record {
    out = rest.out;
    returns = >>=-step _ _ step.returns rest.returns;
    shape = SameShape-trans step.shape rest.shape;
    moved = λ q x y. elim (Bool-cases (q == s.visible_lines - a - 1)) [
      | inl first ↦ ground (arith, step.shape, rest.above q, step.rows q)
      | inr later ↦ ground (arith, step.shape, rest.moved q, step.rows (q - k))
    ];
    above = λ q x. ground (arith, step.shape, rest.above q, step.rows q);
    below = λ q x. ground (arith, step.shape, rest.below q, step.rows q);
    carried = λ row same q x y.
        rest.carried row
          (λ p u v.
            step.rows p ∙ ground (arith, step.shape, same p, same (s.visible_lines - a - 1)))
          q (omega (arith, step.shape)) (omega (arith, step.shape));
    all = λ h. rest.all (step.all h);
  }

  raised_lines :
      (body : ℤ → Storage T → Option (Storage T)) (k d a c n : ℕ) (s : Storage T)
      → Exchanges k d body
      → c ≡ a + d
      → IsValid s
      → a + n + k ≤ s.visible_lines
      → RaisedLines k a n s (for_up body n (pos c) s)
  unfolding for_up
  raised_lines body k d a c zero s once e v h = record {
    out = s;
    returns = refl;
    shape = SameShape-refl s;
    moved = λ q x y. absurd (omega arith);
    above = λ q x. refl;
    below = λ q x. refl;
    carried = λ row same q x y. same q (omega arith) (omega arith);
    all = λ all. all;
  }
  raised_lines body k d a c (suc n) s once e v h =
      let step = once s a c e v (omega arith) in
      raised_step body k a c n s (omega arith) step (
        raised_lines body k d (suc a) (suc c) n step.out once (omega arith)
          (SameShape-IsValid step.shape v) (omega (arith, step.shape)))

  -- `for i in a..a + n { swap(i, i + k) }`
  pub swap_down-RaisedLines :
      (k a n : ℕ) (s : Storage T)
      → IsValid s
      → a + n + k ≤ s.visible_lines
      → RaisedLines k a n s (for_up (swap_down k) n (pos a) s)
  swap_down-RaisedLines k a n s v h =
      raised_lines (swap_down k) k 0 a a n s
        (λ t b c e w g.
          swap-Swapped P t (pos c) (pos (c + k)) (t.visible_lines - b - 1)
            (t.visible_lines - b - 1 - k) w (omega arith) (omega arith) (omega arith) (omega arith))
        (omega arith) v h

  Swapped-sym :
      (s : Storage T) (i j : ℕ) (r : Option (Storage T)) → Swapped P s i j r → Swapped P s j i r
  Swapped-sym s i j r h = record {
    out = h.out;
    returns = h.returns;
    shape = h.shape;
    rows = λ q. ground (arith, h.rows q);
    all = h.all;
  }

  -- `for i in a + k..a + k + n { swap(i, i - k) }`
  pub swap_up-RaisedLines :
      (k a n : ℕ) (s : Storage T)
      → IsValid s
      → a + n + k ≤ s.visible_lines
      → RaisedLines k a n s (for_up (swap_up k) n (pos (a + k)) s)
  swap_up-RaisedLines k a n s v h =
      raised_lines (swap_up k) k k a (a + k) n s
        (λ t b c e w g. Swapped-sym t (t.visible_lines - b - 1 - k) (t.visible_lines - b - 1) _ (
          rw (up_line c k (omega arith)) (
            swap-Swapped P t (pos c) (pos (c - k)) (t.visible_lines - b - 1 - k)
              (t.visible_lines - b - 1) w (omega arith) (omega arith) (omega arith) (omega arith))))
        refl v h

  -- The lines `a + k` up to `a + k + n` of the screen hold what was `k` lines further up; the lines in
  -- front of line `a`, and those behind the moved ones, are as before.
  pub record LoweredLines (k a n : ℕ) (s : Storage T) (r : Option (Storage T)) : Type 0 where
    pub out : Storage T
    pub returns : r ≡ some out
    pub shape : SameShape s out
    pub moved :
        (q : ℕ)
        → s.visible_lines - a - k - n ≤ q
        → q < s.visible_lines - a - k
        → row_at out q ≡ row_at s (q + k)
    pub above : (q : ℕ) → s.visible_lines - a ≤ q → row_at out q ≡ row_at s q
    pub below : (q : ℕ) → q < s.visible_lines - a - k - n → row_at out q ≡ row_at s q
    pub all : AllRows P s → AllRows P out

  lowered_step :
      (k a n : ℕ) (s : Storage T)
      → suc (a + n) + k ≤ s.visible_lines
      → (step : Swapped P s
          (s.visible_lines - a - k - n - 1)
          (s.visible_lines - a - n - 1)
          (swap s (pos (a + k + n)) (sub_line (pos (a + k + n)) k)))
      → LoweredLines k a n step.out (for_down (swap_up k) n (pos (a + k)) step.out)
      → LoweredLines k a (suc n) s (for_down (swap_up k) (suc n) (pos (a + k)) s)
  unfolding for_down
  lowered_step k a n s h step rest = record {
    out = rest.out;
    returns = >>=-step _ _ step.returns rest.returns;
    shape = SameShape-trans step.shape rest.shape;
    moved = λ q x y. elim (Bool-cases (q == s.visible_lines - a - k - n - 1)) [
      | inl first ↦ ground (arith, step.shape, rest.below q, step.rows q)
      | inr later ↦ ground (arith, step.shape, rest.moved q, step.rows (q + k))
    ];
    above = λ q x. ground (arith, step.shape, rest.above q, step.rows q);
    below = λ q x. ground (arith, step.shape, rest.below q, step.rows q);
    all = λ h. rest.all (step.all h);
  }

  -- `for i in (a + k..a + k + n).rev() { swap(i, i - k) }`
  pub swap_up-LoweredLines :
      (k a n : ℕ) (s : Storage T)
      → IsValid s
      → a + n + k ≤ s.visible_lines
      → LoweredLines k a n s (for_down (swap_up k) n (pos (a + k)) s)
  unfolding for_down
  swap_up-LoweredLines k a zero s v h = record {
    out = s;
    returns = refl;
    shape = SameShape-refl s;
    moved = λ q x y. absurd (omega arith);
    above = λ q x. refl;
    below = λ q x. refl;
    all = λ all. all;
  }
  swap_up-LoweredLines k a (suc n) s v h =
      let step : Swapped P s (s.visible_lines - a - k - n - 1) (s.visible_lines - a - n - 1)
          (swap s (pos (a + k + n)) (sub_line (pos (a + k + n)) k)) =
        rw (up_line (a + k + n) k (omega arith)) (
          swap-Swapped P s (pos (a + k + n)) (pos (a + k + n - k)) (s.visible_lines - a - k - n - 1)
            (s.visible_lines - a - n - 1) v (omega arith) (omega arith) (omega arith)
            (omega arith)) in
      lowered_step k a n s (omega arith) step (
        swap_up-LoweredLines k a n step.out (SameShape-IsValid step.shape v)
          (omega (arith, step.shape)))
