-- ===== src/Scheduler/Left.antt =====
-- Which timers an update leaves (`update` of alacritty/src/scheduler.rs): those that are not due, and one
-- repetition of each due timer with an interval.
use mathlib.Core.List.{Perm, perm_middle}
use mathlib.Core.List.Perm
use alacritty_pro.Prelude.{
  ℕ, suc, ◌+◌, ◌<◌, ◌≡◌, refl, arith, false, none, some, List, [], ◌∷◌, ◌++◌, leb, ltb, inl, inr,
  if◌then◌else◌, Bool-cases,
}
use alacritty_pro.Scheduler.{Timer, insert_timer}
use alacritty_pro.Scheduler.Order.{AtLeast}

module _ {Event : Type 0} where
  -- The timers whose deadline is after `now`.
  unfoldable pub waiting : ℕ → List (Timer Event) → List (Timer Event)
  waiting now [] = []
  waiting now (t ∷ ts) = let rest = waiting now ts in if leb t.deadline now then rest else t ∷ rest

  -- The repetition of a timer with an interval, due that long after the reading of the clock.
  abbrev pub again : ℕ → Timer Event → List (Timer Event)
  again reading t = elim t.interval [
    | none ↦ []
    | some n ↦ record { deadline = reading + n; event = t.event; id = t.id; interval = some n } ∷ []
  ]

  -- The repetitions of the timers that are due, each at its own reading of the clock.
  unfoldable pub repetitions : ℕ → (ℕ → ℕ) → List (Timer Event) → List (Timer Event)
  repetitions now clock [] = []
  repetitions now clock (t ∷ ts) =
      let fired = again (clock 0) t ++ repetitions now (λ k. clock (suc k)) ts in
      let skipped = repetitions now clock ts in if leb t.deadline now then fired else skipped

  pub waiting-AtLeast :
      (now : ℕ) (ts : List (Timer Event)) → AtLeast (suc now) ts → waiting now ts ≡ ts
  unfolding waiting AtLeast
  waiting-AtLeast now [] a = refl
  waiting-AtLeast now (t ∷ ts) (le, a) =
      let later : leb t.deadline now ≡ false = ground arith in
      rw (later, waiting-AtLeast now ts a) refl

  pub repetitions-AtLeast :
      (now : ℕ) (clock : ℕ → ℕ) (ts : List (Timer Event))
      → AtLeast (suc now) ts
      → repetitions now clock ts ≡ []
  unfolding repetitions AtLeast
  repetitions-AtLeast now clock [] a = refl
  repetitions-AtLeast now clock (t ∷ ts) (le, a) =
      let later : leb t.deadline now ≡ false = ground arith in
      rw later (repetitions-AtLeast now clock ts a)

  -- A timer that is not due, added to the others.
  pub repetitions-insert_timer :
      (now : ℕ) (clock : ℕ → ℕ) (t : Timer Event) (ts : List (Timer Event))
      → now < t.deadline
      → repetitions now clock (insert_timer t ts) ≡ repetitions now clock ts
  unfolding repetitions insert_timer
  repetitions-insert_timer now clock t [] h =
      let later : leb t.deadline now ≡ false = ground arith in rw later refl
  repetitions-insert_timer now clock t (u ∷ us) h =
      let later : leb t.deadline now ≡ false = ground arith in
      elim (Bool-cases (ltb t.deadline u.deadline)) [
        | inl before ↦ rw (before, later) refl
        | inr after ↦
            rw
              (
                after,
                repetitions-insert_timer now clock t us h,
                repetitions-insert_timer now (λ k. clock (suc k)) t us h,
              )
              refl
      ]

  pub waiting-insert_timer :
      (now : ℕ) (t : Timer Event) (ts : List (Timer Event))
      → now < t.deadline
      → Perm (waiting now (insert_timer t ts)) (t ∷ waiting now ts)
  unfolding waiting insert_timer
  waiting-insert_timer now t [] h =
      let later : leb t.deadline now ≡ false = ground arith in rw later (Perm.refl _)
  waiting-insert_timer now t (u ∷ us) h =
      let later : leb t.deadline now ≡ false = ground arith in
      let rest = waiting-insert_timer now t us h in
      elim (Bool-cases (ltb t.deadline u.deadline)) [
        | inl before ↦ rw (before, later) (Perm.refl _)
        | inr after ↦ elim (Bool-cases (leb u.deadline now)) [
          | inl due ↦ rw (after, due) rest
          | inr not_due ↦
              rw (after, not_due) (Perm.trans (Perm.cons u rest) (Perm.swap t u (waiting now us)))
        ]
      ]

  pub in_front : (xs ys zs : List (Timer Event)) → Perm (ys ++ (xs ++ zs)) ((xs ++ ys) ++ zs)
  in_front [] ys zs = Perm.refl _
  in_front (x ∷ xs) ys zs = Perm.trans (perm_middle ys (xs ++ zs)) (Perm.cons x (in_front xs ys zs))
