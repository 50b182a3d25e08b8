-- ===== src/Samples.antt =====
-- Small concrete states, for the tests: cells over numbers as colors and as hyperlinks, a storage of
-- three rows whose ring starts in the middle, a grid with one line of history and a terminal on it.
use alacritty_pro.Prelude.{
  ◌+◌, Option, replicate, length-replicate, ◌≤◌, ◌<◌, ap, Bool, ℕ, zero, suc, ◌≡◌, refl, some, none,
  List, [], ◌∷◌, if◌then◌else◌, arith, true, false, ◌==◌, ==_iff, length, get_elem?, some_inj, sym,
}
use alacritty_pro.Prelude.Int.{pos}
use mathlib.Core.Path.{subst}
use alacritty_pro.Cell
use alacritty_pro.Cell.{Cell, Palette, cell_grid}
use alacritty_pro.Cell.Lawful.{cell_grid-IsLawful}
use alacritty_pro.Row
use alacritty_pro.Row.{Row, GridCell}
use alacritty_pro.Row.Occupied
use alacritty_pro.Row.Occupied.{IsLawful}
use alacritty_pro.Storage
use alacritty_pro.Storage.{Storage}
use alacritty_pro.Storage.View
use alacritty_pro.Index.{Point, Dimensions, Direction}
use alacritty_pro.Selection.{Selection, SelectionType}
use alacritty_pro.Grid.Defs
use alacritty_pro.Grid.Defs.{Grid, Cursor}
use alacritty_pro.Grid.Up
use alacritty_pro.Grid.Up.{IsLine}
use alacritty_pro.Damage.Report
use alacritty_pro.Damage.{TermDamageState, LineDamageBounds}
use alacritty_pro.Term.{Term}
use alacritty_pro.Term.Motion
use alacritty_pro.Term.Safe
use alacritty_pro.Term.Write
use alacritty_pro.Term.Machine
use alacritty_pro.Term.Machine.Runs
use alacritty_pro.Index.{Boundary}
use alacritty_pro.Index.Clamp
use alacritty_pro.Index.Steps.{Inside}
use alacritty_pro.Scheduler.{Timer, TimerId, Topic}
use alacritty_pro.Scheduler.Order.{Sorted, AtLeast}
use alacritty_pro.Scheduler.Due.{Positive, due}
use alacritty_pro.Stacks.{Stacks, KeyboardModes, keyboard_mode_stack_max_depth}
use alacritty_pro.Shortener.{char_width}
use alacritty_pro.Tabs
use alacritty_pro.Tabs.{TabStops}

abbrev pub palette : Palette ℕ
palette = record { foreground = 1; background = 0; same = ◌==◌ }

abbrev pub SampleCell : Type 0
SampleCell = Cell ℕ ℕ

instance pub sample_cells : GridCell SampleCell
sample_cells = cell_grid palette ℕ

pub sample_cells-IsLawful : IsLawful sample_cells
unfolding sample_cells cell_grid
sample_cells-IsLawful = cell_grid-IsLawful palette ℕ ==_iff

abbrev pub blank : SampleCell
blank = Cell.from_color palette ℕ 0

abbrev pub red_blank : SampleCell
red_blank = Cell.from_color palette ℕ 7

abbrev pub letter : ℕ → SampleCell
letter c = record blank { c = c }

-- A row of two cells, one written.
abbrev pub row_with : ℕ → Row SampleCell
row_with c = record { inner = letter c ∷ (blank ∷ []); occ = 1 }

pub row_with-IsValid : (c : ℕ) → Occupied.IsValid (row_with c)
unfolding sample_cells cell_grid Cell.reset
row_with-IsValid c = record { within = omega arith; base = blank; blank = behind }
  where
    behind :
        (i : ℕ)
        → 1 ≤ i
        → i < 2
        → get_elem? (row_with c).inner i ≡ some (sample_cells.reset sample_cells.default blank)
    behind zero h k = absurd (omega arith)
    behind (suc zero) h k = refl
    behind (suc (suc i)) h k = absurd (omega arith)

-- A row of two cells on a red background, one written.
abbrev pub red_row : Row SampleCell
red_row = record { inner = letter 97 ∷ (red_blank ∷ []); occ = 1 }

pub red_row-blank :
    (i : ℕ)
    → 1 ≤ i
    → i < 2
    → get_elem? red_row.inner i ≡ some (sample_cells.reset sample_cells.default red_blank)
unfolding sample_cells cell_grid Cell.reset
red_row-blank zero h k = absurd (omega arith)
red_row-blank (suc zero) h k = refl
red_row-blank (suc (suc i)) h k = absurd (omega arith)

abbrev pub red_row-IsValid : Occupied.IsValid red_row
red_row-IsValid = record { within = omega arith; base = red_blank; blank = red_row-blank }

pub row_with-IsLine : (c : ℕ) → IsLine 2 (row_with c)
row_with-IsLine c = record { valid = row_with-IsValid c; width = refl }

abbrev pub storage : Storage SampleCell
storage = record {
  inner = row_with 97 ∷ (row_with 98 ∷ (row_with 99 ∷ []));
  zero = 1;
  visible_lines = 2;
  len = 3;
}

pub storage-IsValid : View.IsValid storage
storage-IsValid = record {
  zero_in = omega arith;
  len_in = omega arith;
  visible_in = omega arith;
  some_line = omega arith;
}

abbrev pub point : ℕ → ℕ → Point
point line column = record { line = pos line; column = column }

abbrev pub cursor : Cursor SampleCell
cursor = record { point = point 1 1; template = red_blank; input_needs_wrap = true }

abbrev pub grid : Grid SampleCell
grid = record {
  cursor = cursor;
  saved_cursor = cursor;
  raw = storage;
  columns = 2;
  lines = 2;
  display_offset = 1;
  max_scroll_limit = 5;
}

pub grid-IsValid : Up.IsValid grid
grid-IsValid = record {
  raw = storage-IsValid;
  visible = refl;
  some_column = omega arith;
  rows = lines;
  limit = omega arith;
}
  where
    lines :
        (p : ℕ) (row : Row SampleCell)
        → get_elem? (row_with 98 ∷ (row_with 99 ∷ (row_with 97 ∷ []))) p ≡ some row
        → IsLine 2 row
    lines zero row h = subst (IsLine 2) (some_inj h) (row_with-IsLine 98)
    lines (suc zero) row h = subst (IsLine 2) (some_inj h) (row_with-IsLine 99)
    lines (suc (suc zero)) row h = subst (IsLine 2) (some_inj h) (row_with-IsLine 97)
    lines (suc (suc (suc p))) row h = cc

abbrev pub bounds : ℕ → ℕ → ℕ → LineDamageBounds
bounds line left right = record { line = line; left = left; right = right }

-- The second line is damaged.
abbrev pub damage : TermDamageState
damage = record {
  full = false;
  lines = bounds 0 2 0 ∷ (bounds 1 0 1 ∷ []);
  last_cursor = point 0 0;
}

pub damage-IsValid : Report.IsValid damage
damage-IsValid = record { numbered = entry }
  where
    entry : (i : ℕ) (b : LineDamageBounds) → get_elem? damage.lines i ≡ some b → b.line ≡ i
    entry zero b h = sym (ap (λ (x : LineDamageBounds). x.line) (some_inj h))
    entry (suc zero) b h = sym (ap (λ (x : LineDamageBounds). x.line) (some_inj h))
    entry (suc (suc i)) b h = cc

-- The two cells of the second line.
abbrev pub selection : Selection
selection = record {
  ty = SelectionType.simple;
  start = record { point = point 1 1; side = Direction.right };
  end = record { point = point 1 0; side = Direction.left };
}

abbrev pub term : Bool → Term SampleCell
term origin = record {
  grid = grid;
  damage = damage;
  origin_mode = origin;
  line_wrap = true;
  insert_mode = true;
  line_feed_new_line = true;
  tabs = Tabs.new 2;
  selection = some selection;
  vi_mode_cursor = point 1 0;
  scroll_region = record { start = pos 1; end = pos 2 };
}

abbrev pub term-IsValid : (origin : Bool) → Motion.IsValid (term origin)
term-IsValid origin = record {
  damage = damage-IsValid;
  entries = refl;
  row = 1;
  at_row = refl;
  row_in = omega arith;
  column_in = omega arith;
  top = 1;
  bottom = 2;
  start = refl;
  end = refl;
  ordered = omega arith;
  some_line = omega arith;
  bottom_in = omega arith;
}

abbrev pub dimensions : Dimensions
dimensions = record { total_lines = 3; screen_lines = 2; columns = 2 }

pub dimensions-IsValid : Clamp.IsValid dimensions
dimensions-IsValid = record {
  some_line = omega arith;
  some_column = omega arith;
  screen_in = omega arith;
}

pub grid-Inside : Inside dimensions Boundary.grid (point 0 1)
grid-Inside = record { above = omega arith; below = omega arith; within = omega arith }

pub blank-same : sample_cells.same_discriminant sample_cells.default blank ≡ true
unfolding sample_cells cell_grid
blank-same = refl

-- Two timers that are due at 10, one of them repeating, and one that is not.
abbrev pub blink : TimerId
blink = record { topic = Topic.blink_cursor; window_id = 4 }

abbrev pub timer : ℕ → Option ℕ → Timer ℕ
timer deadline interval = record {
  deadline = deadline;
  event = deadline;
  id = blink;
  interval = interval;
}

abbrev pub timers : List (Timer ℕ)
timers = timer 5 (some 3) ∷ (timer 9 none ∷ (timer 20 none ∷ []))

abbrev pub clock : ℕ → ℕ
clock k = 10 + k

pub clock-late : (k : ℕ) → 10 ≤ clock k
clock-late k = omega arith

pub timers-Sorted : Sorted timers
unfolding Sorted AtLeast
timers-Sorted = ((omega arith, (omega arith, tt)), ((omega arith, tt), (tt, tt)))

pub timers-Positive : Positive timers
unfolding Positive
timers-Positive = (λ n e. omega (arith, some_inj e), (λ n e. cc e, (λ n e. cc e, tt)))

pub timers-due : length (due 10 timers) < 3
unfolding due
timers-due = omega arith

instance pub sample_modes : KeyboardModes ℕ
sample_modes = record {
  no_mode = 0;
  disambiguate_esc_codes = λ m. m == 1;
  report_event_types = λ m. m == 2;
  report_alternate_keys = λ m. m == 4;
  report_all_keys_as_esc = λ m. m == 8;
  report_associated_text = λ m. m == 16;
}

abbrev pub stacks : Stacks ℕ ℕ
stacks = record {
  kitty_keyboard = true;
  mode = 1;
  title = some 5;
  title_stack = some 6 ∷ [];
  keyboard_mode_stack = 1 ∷ [];
}

-- The stack of keyboard modes is full.
abbrev pub full_stacks : Stacks ℕ ℕ
full_stacks = record stacks { keyboard_mode_stack = replicate 4096 1 }

pub full_stacks-full : keyboard_mode_stack_max_depth ≤ length full_stacks.keyboard_mode_stack
full_stacks-full = omega (arith, length-replicate {A = ℕ} 4096 1)

abbrev pub tabs : TabStops
tabs = Tabs.new 12

pub tabs-long : 11 ≤ length tabs.tabs
unfolding Tabs.new Tabs.stops
tabs-long = omega arith

pub tabs-inside : 3 < length tabs.tabs
unfolding Tabs.new Tabs.stops
tabs-inside = omega arith

-- Every character takes one column.
abbrev pub narrow_width : ℕ → Option ℕ
narrow_width ch = some 1

-- A character of two columns, a combining one of none, and all others of one.
abbrev pub mixed_width : ℕ → Option ℕ
mixed_width ch = if ch == 20013 then some 2 else if ch == 769 then some 0 else some 1

-- The mark is a full stop.
pub full_stop-short : (m : ℕ) → some 46 ≡ some m → char_width mixed_width m ≤ 1
full_stop-short m e = subst (λ k. char_width mixed_width k ≤ 1) (some_inj e) (omega arith)

abbrev pub tab_text : List ℕ
tab_text = 97 ∷ (20013 ∷ (769 ∷ (98 ∷ [])))

pub tabs_two : length (Tabs.new 2).tabs ≡ 2
unfolding Tabs.new Tabs.stops
tabs_two = refl

abbrev pub screen-IsValid : Safe.IsValid (term false)
screen-IsValid = record {
  motion = term-IsValid false;
  grid = grid-IsValid;
  saved_row = 1;
  saved_at = refl;
  saved_row_in = omega arith;
  saved_column_in = omega arith;
  tabs = tabs_two;
  columns = omega arith;
}

-- A new terminal of two lines of two columns, with five lines of history.
abbrev pub fresh_storage : Storage SampleCell
fresh_storage = record {
  inner =
      Row.default_row ⦃cell = cell_grid palette ℕ⦄ 2
      ∷ (Row.default_row ⦃cell = cell_grid palette ℕ⦄ 2 ∷ []);
  zero = 0;
  visible_lines = 2;
  len = 2;
}

abbrev pub fresh : Write.Screen palette ℕ
fresh =
    Machine.with_grid palette ℕ 2 2
      (Defs.with_rows ⦃cell = cell_grid palette ℕ⦄ 2 2 5 fresh_storage)

pub fresh-new : Machine.new palette ℕ 2 2 5 ≡ some fresh
unfolding Machine.new Defs.new Storage.with_capacity Storage.new_rows Row.new
fresh-new = refl

pub palette-IsLawful : IsLawful (cell_grid palette ℕ)
palette-IsLawful = cell_grid-IsLawful palette ℕ ==_iff

abbrev pub same_char : ℕ → ℕ
same_char c = c

pub fresh-IsValid : Safe.IsValid ⦃cell = cell_grid palette ℕ⦄ fresh
fresh-IsValid =
    Runs.Reachable-IsValid palette ℕ palette-IsLawful same_char narrow_width 2 2 5 (omega arith)
      (omega arith) fresh (Machine.start fresh-new)
