-- ===== src/Scheduler/Order.antt =====
-- The timers stay in the order of their deadlines.
use alacritty_pro.Prelude.{
  ℕ, ◌≤◌, ◌≡◌, refl, ◌∙◌, ap, arith, Bool, true, false, ◌||◌, Option, none, some, List, [], ◌∷◌,
  ltb, ◌==◌, inl, inr, if◌then◌else◌, Bool-cases,
}
use alacritty_pro.Scheduler.{
  Timer, TimerId, same_id, insert_timer, schedule, unschedule, scheduled, unschedule_window,
}

same_id_refl : (id : TimerId) → same_id id id ≡ true
unfolding same_id
same_id_refl id = ground arith

module _ {Event : Type 0} where
  -- No deadline is before `d`.
  unfoldable pub AtLeast : ℕ → List (Timer Event) → Type 0
  AtLeast d [] = Unit
  AtLeast d (t ∷ ts) = (d ≤ t.deadline) × AtLeast d ts

  -- The deadlines never decrease.
  unfoldable pub Sorted : List (Timer Event) → Type 0
  unfolding AtLeast
  Sorted [] = Unit
  Sorted (t ∷ ts) = AtLeast t.deadline ts × Sorted ts

  pub AtLeast-weaken : (c d : ℕ) (ts : List (Timer Event)) → c ≤ d → AtLeast d ts → AtLeast c ts
  unfolding AtLeast
  AtLeast-weaken c d [] h a = tt
  AtLeast-weaken c d (t ∷ ts) h (le, a) = (omega arith, AtLeast-weaken c d ts h a)

  pub insert_timer-AtLeast :
      (d : ℕ) (t : Timer Event) (ts : List (Timer Event))
      → d ≤ t.deadline
      → AtLeast d ts
      → AtLeast d (insert_timer t ts)
  unfolding insert_timer AtLeast
  insert_timer-AtLeast d t [] h a = (h, tt)
  insert_timer-AtLeast d t (u ∷ us) h (le, a) = elim (Bool-cases (ltb t.deadline u.deadline)) [
    | inl before ↦ rw before (h, (le, a))
    | inr after ↦ rw after (le, insert_timer-AtLeast d t us h a)
  ]

  pub insert_timer-Sorted :
      (t : Timer Event) (ts : List (Timer Event)) → Sorted ts → Sorted (insert_timer t ts)
  unfolding insert_timer Sorted
  insert_timer-Sorted t [] s = (tt, tt)
  insert_timer-Sorted t (u ∷ us) (a, s) = elim (Bool-cases (ltb t.deadline u.deadline)) [
    | inl before ↦
        rw before ((ground arith, AtLeast-weaken t.deadline u.deadline us (ground arith) a), (a, s))
    | inr after ↦
        rw after (insert_timer-AtLeast u.deadline t us (ground arith) a, insert_timer-Sorted t us s)
  ]

  scheduled-insert_timer :
      (t : Timer Event) (ts : List (Timer Event)) → scheduled t.id (insert_timer t ts) ≡ true
  unfolding insert_timer scheduled
  scheduled-insert_timer t [] = rw (same_id_refl t.id) refl
  scheduled-insert_timer t (u ∷ us) = elim (Bool-cases (ltb t.deadline u.deadline)) [
    | inl before ↦ rw (before, same_id_refl t.id) refl
    | inr after ↦ rw (after, scheduled-insert_timer t us) (or-true (same_id u.id t.id))
  ]
    where
      or-true : (b : Bool) → (b || true) ≡ true
      or-true true = refl
      or-true false = refl

  -- Scheduling an event keeps the timers in the order of their deadlines, and the timer is scheduled
  -- afterwards.
  pub schedule_lem :
      (now interval : ℕ) (event : Event) (repeat : Bool) (id : TimerId) (ts : List (Timer Event))
      → Sorted ts
      → Sorted (schedule now event interval repeat id ts)
        × (scheduled id (schedule now event interval repeat id ts) ≡ true)
  unfolding schedule
  schedule_lem now interval event repeat id ts s =
      (insert_timer-Sorted _ ts s, scheduled-insert_timer _ ts)

  unschedule-AtLeast :
      (d : ℕ) (id : TimerId) (ts : List (Timer Event))
      → AtLeast d ts
      → AtLeast d (unschedule id ts).1
  unfolding unschedule AtLeast
  unschedule-AtLeast d id [] a = tt
  unschedule-AtLeast d id (t ∷ ts) (le, a) = elim (Bool-cases (same_id t.id id)) [
    | inl hit ↦ rw hit a
    | inr miss ↦ rw miss (le, unschedule-AtLeast d id ts a)
  ]

  unschedule-Sorted :
      (id : TimerId) (ts : List (Timer Event)) → Sorted ts → Sorted (unschedule id ts).1
  unfolding unschedule Sorted
  unschedule-Sorted id [] s = tt
  unschedule-Sorted id (t ∷ ts) (a, s) = elim (Bool-cases (same_id t.id id)) [
    | inl hit ↦ rw hit s
    | inr miss ↦ rw miss (unschedule-AtLeast t.deadline id ts a, unschedule-Sorted id ts s)
  ]

  -- Whether `unschedule` finds a timer.
  abbrev pub found : Option (Timer Event) → Bool
  found none = false
  found (some t) = true

  unschedule-found :
      (id : TimerId) (ts : List (Timer Event)) → found (unschedule id ts).0 ≡ scheduled id ts
  unfolding unschedule scheduled
  unschedule-found id [] = refl
  unschedule-found id (t ∷ ts) = elim (Bool-cases (same_id t.id id)) [
    | inl hit ↦ rw hit refl
    | inr miss ↦ rw miss (unschedule-found id ts)
  ]

  -- Cancelling a timer finds one exactly if it is scheduled, and keeps the order of the others.
  pub unschedule_lem :
      (id : TimerId) (ts : List (Timer Event))
      → Sorted ts
      → (found (unschedule id ts).0 ≡ scheduled id ts) × Sorted (unschedule id ts).1
  unschedule_lem id ts s = (unschedule-found id ts, unschedule-Sorted id ts s)

  unschedule_window-AtLeast :
      (d window : ℕ) (ts : List (Timer Event))
      → AtLeast d ts
      → AtLeast d (unschedule_window window ts)
  unfolding unschedule_window AtLeast
  unschedule_window-AtLeast d window [] a = tt
  unschedule_window-AtLeast d window (t ∷ ts) (le, a) =
      elim (Bool-cases (t.id.window_id == window)) [
        | inl hit ↦ rw hit (unschedule_window-AtLeast d window ts a)
        | inr miss ↦ rw miss (le, unschedule_window-AtLeast d window ts a)
      ]

  -- No timer of a removed window is left, the others stay as they are, and so does their order.
  pub unschedule_window_lem :
      (window : ℕ) (ts : List (Timer Event))
      → Sorted ts
      → Sorted (unschedule_window window ts)
        × ((id : TimerId)
            → scheduled id (unschedule_window window ts)
              ≡ (if id.window_id == window then false else scheduled id ts))
  unfolding unschedule_window scheduled Sorted same_id
  unschedule_window_lem window [] s = (tt, λ id. ground arith)
  unschedule_window_lem window (t ∷ ts) (a, s) =
      let (sorted, left) = unschedule_window_lem window ts s in
      elim (Bool-cases (t.id.window_id == window)) [
        | inl hit ↦ rw hit (sorted, λ id. left id ∙ gone id hit)
        | inr miss ↦ rw miss (
          (unschedule_window-AtLeast t.deadline window ts a, sorted),
          λ id. ap (λ b. same_id t.id id || b) (left id) ∙ stays id miss,
        )
      ]
    where
      gone :
          (id : TimerId)
          → (t.id.window_id == window) ≡ true
          → (if id.window_id == window then false else scheduled id ts)
            ≡ (if id.window_id == window then false else (same_id t.id id || scheduled id ts))
      gone id hit = ground arith

      stays :
          (id : TimerId)
          → (t.id.window_id == window) ≡ false
          → (same_id t.id id || (if id.window_id == window then false else scheduled id ts))
            ≡ (if id.window_id == window then false else (same_id t.id id || scheduled id ts))
      stays id miss = ground arith
