-- ===== src/Scheduler.antt =====
-- The timers of alacritty/src/scheduler.rs. An instant and a duration are numbers of nanoseconds;
-- every reading of `Instant::now` is an argument. An event that is sent is appended to a list.
pub mod Order
pub mod Left
pub mod Due
mod Tests
use package.alacritty_pro.Prelude.{
  ℕ, zero, suc, ◌+◌, Bool, true, false, not, ◌&&◌, ◌||◌, Option, none, some, List, [], ◌∷◌, leb,
  ltb, ◌==◌, if◌then◌else◌, ◌>>=◌,
}

pub data Topic : Type 0 where
  selection_scrolling delayed_search blink_cursor blink_timeout frame : Topic

abbrev pub topic_number : Topic → ℕ
topic_number Topic.selection_scrolling = 0
topic_number Topic.delayed_search = 1
topic_number Topic.blink_cursor = 2
topic_number Topic.blink_timeout = 3
topic_number Topic.frame = 4

-- A window is a number; the identifiers are compared by both fields.
pub record TimerId : Type 0 where
  pub topic : Topic
  pub window_id : ℕ

unfoldable pub same_id : TimerId → TimerId → Bool
same_id a b = topic_number a.topic == topic_number b.topic && a.window_id == b.window_id

pub record Timer (Event : Type 0) : Type 0 where
  pub deadline : ℕ
  pub event : Event
  pub id : TimerId
  pub interval : Option ℕ

module _ {Event : Type 0} where
  -- The timer in front of the first one with a later deadline, or at the end: `position` and
  -- `insert`.
  unfoldable pub insert_timer : Timer Event → List (Timer Event) → List (Timer Event)
  insert_timer t [] = t ∷ []
  insert_timer t (u ∷ us) =
      if ltb t.deadline u.deadline then t ∷ (u ∷ us) else u ∷ insert_timer t us

  -- At the reading `now` of the clock.
  unfoldable pub schedule : ℕ → Event → ℕ → Bool → TimerId → List (Timer Event) → List (Timer Event)
  unfolding insert_timer
  schedule now event interval repeat id timers =
      insert_timer
        (record {
          deadline = now + interval;
          event = event;
          id = id;
          interval = if repeat then some interval else none;
        })
        timers

  -- The timer removed, if there is one, and the rest.
  unfoldable pub unschedule :
      TimerId → List (Timer Event) → Option (Timer Event) × List (Timer Event)
  unfolding same_id
  unschedule id [] = (none, [])
  unschedule id (t ∷ ts) =
      let rest = unschedule id ts in if same_id t.id id then (some t, ts) else (rest.0, t ∷ rest.1)

  unfoldable pub scheduled : TimerId → List (Timer Event) → Bool
  unfolding same_id
  scheduled id [] = false
  scheduled id (t ∷ ts) = same_id t.id id || scheduled id ts

  unfoldable pub unschedule_window : ℕ → List (Timer Event) → List (Timer Event)
  unschedule_window window [] = []
  unschedule_window window (t ∷ ts) =
      let rest = unschedule_window window ts in if t.id.window_id == window then rest else t ∷ rest

  -- The automatic repetition of a timer, at the reading `now`.
  unfoldable pub repeat_timer : ℕ → Timer Event → List (Timer Event) → List (Timer Event)
  unfolding schedule
  repeat_timer now t ts = elim t.interval [
    | none ↦ ts
    | some interval ↦ schedule now t.event interval true t.id ts
  ]

  -- An event sent in front of the others.
  abbrev pub and_send :
      Event → Option (List Event × List (Timer Event)) → Option (List Event × List (Timer Event))
  and_send e m = m >>= (λ r. some (e ∷ r.0, r.1))

  -- The loop of `update` that `now` was read for, on fuel: `clock` gives the readings that the
  -- repetitions make, in order. The result is the events sent and the timers left.
  unfoldable pub update_loop :
      ℕ → ℕ → (ℕ → ℕ) → List (Timer Event) → Option (List Event × List (Timer Event))
  unfolding repeat_timer
  update_loop zero now clock timers = none
  update_loop (suc fuel) now clock [] = some ([], [])
  update_loop (suc fuel) now clock (t ∷ ts) =
      let rest = update_loop fuel now (λ k. clock (suc k)) (repeat_timer (clock 0) t ts) in
      if leb t.deadline now then and_send t.event rest else some ([], t ∷ ts)

  -- The deadline that `update` returns: that of the first timer left.
  unfoldable pub next_deadline : List (Timer Event) → Option ℕ
  next_deadline [] = none
  next_deadline (t ∷ ts) = some t.deadline

  -- `update` at the reading `now`: the deadline it returns, the events sent and the timers left.
  unfoldable pub update :
      ℕ → ℕ → (ℕ → ℕ) → List (Timer Event) → Option (Option ℕ × (List Event × List (Timer Event)))
  unfolding update_loop next_deadline
  update fuel now clock timers =
      update_loop fuel now clock timers >>= (λ r. some (next_deadline r.1, r))
