-- ===== src/Scheduler/Due.antt =====
-- What an update of the scheduler does: the timers that are due fire, and no other.
use alacritty_pro.Prelude.{
  ℕ, zero, suc, ◌≤◌, ◌<◌, ◌≡◌, refl, ◌∙◌, ap, arith, true, false, Option, none, some, List, [], ◌∷◌,
  leb, ltb, inl, inr, if◌then◌else◌, Bool-cases, length, ◌++◌,
}
use mathlib.Core.List.{Perm}
use mathlib.Core.List.Perm
use alacritty_pro.Scheduler.{and_send, Timer, insert_timer, schedule, repeat_timer, update_loop}
use alacritty_pro.Scheduler.Left.{
  waiting, again, repetitions, waiting-AtLeast, repetitions-AtLeast, repetitions-insert_timer,
  waiting-insert_timer, in_front,
}
use alacritty_pro.Scheduler.Order.{AtLeast, Sorted, insert_timer-Sorted, AtLeast-weaken}

module _ {Event : Type 0} where
  -- The events of the timers whose deadline is not after `now`, in the order of the list.
  unfoldable pub due : ℕ → List (Timer Event) → List Event
  due now [] = []
  due now (t ∷ ts) = let rest = due now ts in if leb t.deadline now then t.event ∷ rest else rest

  -- No timer repeats at once: every interval is positive.
  unfoldable pub Positive : List (Timer Event) → Type 0
  Positive [] = Unit
  Positive (t ∷ ts) = ((n : ℕ) → t.interval ≡ some n → 0 < n) × Positive ts

  due-AtLeast : (now : ℕ) (ts : List (Timer Event)) → AtLeast (suc now) ts → due now ts ≡ []
  unfolding due AtLeast
  due-AtLeast now [] a = refl
  due-AtLeast now (t ∷ ts) (le, a) =
      let later : leb t.deadline now ≡ false = ground arith in rw later (due-AtLeast now ts a)

  due-insert_timer :
      (now : ℕ) (t : Timer Event) (ts : List (Timer Event))
      → now < t.deadline
      → due now (insert_timer t ts) ≡ due now ts
  unfolding due insert_timer
  due-insert_timer now t [] h =
      let later : leb t.deadline now ≡ false = ground arith in rw later refl
  due-insert_timer now t (u ∷ us) h =
      let later : leb t.deadline now ≡ false = ground arith in
      elim (Bool-cases (ltb t.deadline u.deadline)) [
        | inl before ↦ rw (before, later) refl
        | inr after ↦ rw (after, due-insert_timer now t us h) refl
      ]

  Positive-insert_timer :
      (t : Timer Event) (ts : List (Timer Event))
      → ((n : ℕ) → t.interval ≡ some n → 0 < n)
      → Positive ts
      → Positive (insert_timer t ts)
  unfolding Positive insert_timer
  Positive-insert_timer t [] p ps = (p, tt)
  Positive-insert_timer t (u ∷ us) p (q, ps) = elim (Bool-cases (ltb t.deadline u.deadline)) [
    | inl before ↦ rw before (p, (q, ps))
    | inr after ↦ rw after (q, Positive-insert_timer t us p ps)
  ]

  -- What the repetition of a timer keeps, at a reading of the clock that is not before `now`.
  pub record Repeated (now reading : ℕ) (t : Timer Event) (ts out : List (Timer Event))
      : Type 0 where
    pub sorted : Sorted out
    pub positive : Positive out
    pub same_due : due now out ≡ due now ts
    pub same_repetitions : (c : ℕ → ℕ) → repetitions now c out ≡ repetitions now c ts
    pub added : Perm (waiting now out) (again reading t ++ waiting now ts)

  repeat_timer-Repeated :
      (now reading : ℕ) (t : Timer Event) (ts : List (Timer Event)) (interval : Option ℕ)
      → t.interval ≡ interval
      → now ≤ reading
      → ((n : ℕ) → interval ≡ some n → 0 < n)
      → Sorted ts
      → Positive ts
      → Repeated now reading t ts (repeat_timer reading t ts)
  unfolding repeat_timer schedule
  repeat_timer-Repeated now reading t ts none e h p s ps = rw e (record {
    sorted = s;
    positive = ps;
    same_due = refl;
    same_repetitions = λ c. refl;
    added = Perm.refl _;
  })
  repeat_timer-Repeated now reading t ts (some n) e h p s ps =
      let positive : 0 < n = p n refl in
      rw e (record {
        sorted = insert_timer-Sorted _ ts s;
        positive = Positive-insert_timer _ ts p ps;
        same_due = due-insert_timer now _ ts (omega arith);
        same_repetitions = λ c. repetitions-insert_timer now c _ ts (omega arith);
        added = waiting-insert_timer now _ ts (omega arith);
      })

  fire :
      (e : Event) (m : Option (List Event × List (Timer Event))) {d d' : List Event}
      (left : List (Timer Event))
      → m ≡ some (d', left)
      → d' ≡ d
      → and_send e m ≡ some (e ∷ d, left)
  fire e m left p q = ap (and_send e) p ∙ ap (λ (x : List Event). and_send e (some (x, left))) q

  -- What an update does: it sends the events that were due, in order, and leaves, in order, the timers
  -- that were not due and the repetitions, and no other; none of them is due.
  pub record Updated (now : ℕ) (clock : ℕ → ℕ) (ts : List (Timer Event))
      (m : Option (List Event × List (Timer Event))) : Type 0 where
    pub left : List (Timer Event)
    pub returns : m ≡ some (due now ts, left)
    pub sorted : Sorted left
    pub not_due : AtLeast (suc now) left
    pub same_timers : Perm left (repetitions now clock ts ++ waiting now ts)

  fired :
      (fuel now : ℕ) (clock : ℕ → ℕ) (t : Timer Event) (ts : List (Timer Event))
      → leb t.deadline now ≡ true
      → Repeated now (clock 0) t ts (repeat_timer (clock 0) t ts)
      → Updated now
          (λ k. clock (suc k))
          (repeat_timer (clock 0) t ts)
          (update_loop fuel now (λ k. clock (suc k)) (repeat_timer (clock 0) t ts))
      → Updated now clock (t ∷ ts) (update_loop (suc fuel) now clock (t ∷ ts))
  unfolding update_loop due repetitions waiting
  fired fuel now clock t ts hit same rest = record {
    left = rest.left;
    returns = rw hit (fire t.event _ rest.left rest.returns same.same_due);
    sorted = rest.sorted;
    not_due = rest.not_due;
    same_timers =
        let repeated = repetitions now (λ k. clock (suc k)) ts in
        rw hit (
          Perm.trans rest.same_timers (
            rw (same.same_repetitions (λ k. clock (suc k))) (
              Perm.trans (Perm.append_left repeated same.added)
                (in_front (again (clock 0) t) repeated (waiting now ts)))));
  }

  -- On timers in the order of their deadlines and with positive intervals, and a clock that does not
  -- go back behind `now`, the loop ends after as many rounds as there are timers due: it sends the
  -- events of exactly these, in order, each once, and leaves, in order, exactly the others and one
  -- repetition of each due timer with an interval, that interval after the timer's reading of the clock,
  -- with no timer due.
  pub update_loop-Updated :
      (fuel now : ℕ) (clock : ℕ → ℕ) (ts : List (Timer Event))
      → ((k : ℕ) → now ≤ clock k)
      → Sorted ts
      → Positive ts
      → length (due now ts) < fuel
      → Updated now clock ts (update_loop fuel now clock ts)
  unfolding update_loop due Sorted Positive AtLeast repetitions waiting
  update_loop-Updated zero now clock ts c s p h = absurd (omega arith)
  update_loop-Updated (suc fuel) now clock [] c s p h = record {
    left = [];
    returns = refl;
    sorted = tt;
    not_due = tt;
    same_timers = Perm.refl _;
  }
  update_loop-Updated (suc fuel) now clock (t ∷ ts) c (a, s) (q, p) h =
      elim (Bool-cases (leb t.deadline now)) [
        | inl hit ↦
            let repeated = repeat_timer-Repeated now (clock 0) t ts t.interval refl (c 0) q s p in
            let rest =
              update_loop-Updated fuel now (λ k. clock (suc k)) (repeat_timer (clock 0) t ts)
                (λ k. c (suc k)) repeated.sorted repeated.positive
                (omega (arith, fewer hit h, ap length repeated.same_due)) in
            fired fuel now clock t ts hit repeated rest
        | inr miss ↦
            let late : suc now ≤ t.deadline = ground arith in
            record {
              left = t ∷ ts;
              returns =
                  rw (miss, due-AtLeast now ts (AtLeast-weaken (suc now) t.deadline ts late a))
                    refl;
              sorted = (a, s);
              not_due = (late, AtLeast-weaken (suc now) t.deadline ts late a);
              same_timers =
                  rw
                    (
                      miss,
                      repetitions-AtLeast now clock ts
                          (AtLeast-weaken (suc now) t.deadline ts late a),
                      waiting-AtLeast now ts (AtLeast-weaken (suc now) t.deadline ts late a),
                    )
                    (Perm.refl _);
            }
      ]
    where
      fewer :
          leb t.deadline now ≡ true
          → length (if leb t.deadline now then t.event ∷ due now ts else due now ts) < suc fuel
          → length (due now ts) < fuel
      fewer e less = omega (arith, rw e at less)
