-- ===== src/Term/Machine/Runs.antt =====
-- No command panics, and every terminal that commands lead to is well-formed.
use alacritty_pro.Prelude.{
  >>=-step, ℕ, zero, suc, ◌≤◌, ◌<◌, ◌≡◌, refl, sym, ◌∙◌, ap, arith, Option, some, some_inj, List,
  [], ◌∷◌, length, length-replicate, replicate,
}
use mathlib.Core.Path.{subst}
use alacritty_pro.Cell.{Palette, cell_grid}
use alacritty_pro.Row.{GridCell}
use alacritty_pro.Row.Occupied.{IsLawful}
use alacritty_pro.Term.{
  goto, goto_line, goto_col, move_up, move_down, move_up_and_cr, move_down_and_cr, Term,
}
use alacritty_pro.Term.Motion.{goto_lem}
use alacritty_pro.Term.Along.{move_along_lem}
use alacritty_pro.Term.Write.{Screen}
use alacritty_pro.Term.Safe.{IsValid, Safe, Safe-bind}
use alacritty_pro.Term.Fed.{moved-Safe}
use alacritty_pro.Term.Feeding.{
  scroll_up-Safe, scroll_down-Safe, insert_blank_lines-Safe, delete_lines-Safe, linefeed-Safe,
  reverse_index-Safe, carriage_return-Safe, newline-Safe, idle-Safe,
}
use alacritty_pro.Term.Cursors.{
  backspace-Safe, save_cursor_position-Safe, restore_cursor_position-Safe,
  set_scrolling_region-Safe, move_backward_tabs-Safe, move_forward_tabs-Safe,
}
use alacritty_pro.Term.Edited.{
  insert_blank-Safe, delete_chars-Safe, erase_chars-Safe, clear_line-Safe,
}
use alacritty_pro.Term.Settings.{
  set_mode-Safe, unset_mode-Safe, set_private_mode-Safe, unset_private_mode-Safe,
  terminal_attribute-Safe, set_horizontal_tabstop-Safe, clear_tabs-Safe,
}
use alacritty_pro.Term.Written.Cursor.{SafeScreen, ValidScreen}
use alacritty_pro.Term.Written.Input.{input-Safe}
use alacritty_pro.Damage
use alacritty_pro.Damage.{undamaged_lines}
use alacritty_pro.Damage.Report.{new_lem}
use alacritty_pro.Tabs
use alacritty_pro.Tabs.Stops.{length-stops}
use alacritty_pro.Row
use alacritty_pro.Storage
use alacritty_pro.Storage.{Storage}
use alacritty_pro.Storage.Resize.{new_rows_lem}
use alacritty_pro.Grid.Defs
use alacritty_pro.Grid.Up
use alacritty_pro.Grid.Up.{IsLine, new-IsLine, replicate-eq, AllRows-rotate_left}
use alacritty_pro.Term.Machine.{Command, run, run_all, Reachable, start, step, new, with_grid}

module _ {T : Type 0} ⦃cell : GridCell T⦄ (t : Term T) (v : IsValid t) where
  goto-Safe : (line : _) (column : ℕ) → Safe (goto t line column)
  goto-Safe line column = moved-Safe t v _ _ (goto t line column) (goto_lem t v.motion line column)

  goto_line-Safe : (line : _) → Safe (goto_line t line)
  unfolding goto_line
  goto_line-Safe line = goto-Safe line _

  goto_col-Safe : (column : ℕ) → Safe (goto_col t column)
  unfolding goto_col
  goto_col-Safe column = goto-Safe _ column

  move_lines-Safe :
      (n : ℕ)
      → Safe (move_up t n)
        × Safe (move_down t n)
        × Safe (move_up_and_cr t n)
        × Safe (move_down_and_cr t n)
  unfolding move_up move_down move_up_and_cr move_down_and_cr
  move_lines-Safe n = (goto-Safe _ _, goto-Safe _ _, goto-Safe _ _, goto-Safe _ _)

module _ {Color : Type 0} (palette : Palette Color) (Link : Type 0)
    (lawful : IsLawful (cell_grid palette Link)) (char_map : ℕ → ℕ)
    (char_width : ℕ → Option ℕ) where
  -- Every command, with any argument, succeeds on a well-formed screen whose cells keep the promises of
  -- the rows, and leaves a well-formed screen.
  pub run-Safe :
      (c : Command Color) (t : Screen palette Link)
      → ValidScreen palette Link t
      → SafeScreen palette Link (run palette Link char_map char_width c t)
  unfolding run
  run-Safe (Command.goto line column) t v = goto-Safe ⦃cell = _⦄ t v line column
  run-Safe (Command.goto_line line) t v = goto_line-Safe ⦃cell = _⦄ t v line
  run-Safe (Command.goto_col column) t v = goto_col-Safe ⦃cell = _⦄ t v column
  run-Safe (Command.move_up n) t v = (move_lines-Safe ⦃cell = _⦄ t v n).0
  run-Safe (Command.move_down n) t v = (move_lines-Safe ⦃cell = _⦄ t v n).1
  run-Safe (Command.move_up_and_cr n) t v = (move_lines-Safe ⦃cell = _⦄ t v n).2
  run-Safe (Command.move_down_and_cr n) t v = (move_lines-Safe ⦃cell = _⦄ t v n).3
  run-Safe (Command.move_forward n) t v =
      moved-Safe ⦃cell = _⦄ t v _ _ _ (move_along_lem t v.motion n).0
  run-Safe (Command.move_backward n) t v =
      moved-Safe ⦃cell = _⦄ t v _ _ _ (move_along_lem t v.motion n).1
  run-Safe (Command.move_backward_tabs n) t v = move_backward_tabs-Safe ⦃cell = _⦄ t n v
  run-Safe (Command.move_forward_tabs n) t v = move_forward_tabs-Safe ⦃cell = _⦄ t n v
  run-Safe Command.carriage_return t v = carriage_return-Safe ⦃cell = _⦄ lawful t v
  run-Safe Command.backspace t v = backspace-Safe ⦃cell = _⦄ t v
  run-Safe Command.linefeed t v = linefeed-Safe ⦃cell = _⦄ lawful t v
  run-Safe Command.newline t v = newline-Safe ⦃cell = _⦄ lawful t v
  run-Safe Command.reverse_index t v = reverse_index-Safe ⦃cell = _⦄ lawful t v
  run-Safe Command.save_cursor_position t v = save_cursor_position-Safe ⦃cell = _⦄ t v
  run-Safe Command.restore_cursor_position t v = restore_cursor_position-Safe ⦃cell = _⦄ t v
  run-Safe (Command.set_scrolling_region top bottom) t v =
      set_scrolling_region-Safe ⦃cell = _⦄ t top bottom v
  run-Safe (Command.scroll_up n) t v = scroll_up-Safe ⦃cell = _⦄ lawful t v n
  run-Safe (Command.scroll_down n) t v = scroll_down-Safe ⦃cell = _⦄ lawful t v n
  run-Safe (Command.insert_blank_lines n) t v = insert_blank_lines-Safe ⦃cell = _⦄ lawful t v n
  run-Safe (Command.delete_lines n) t v = delete_lines-Safe ⦃cell = _⦄ lawful t v n
  run-Safe (Command.insert_blank n) t v = insert_blank-Safe palette Link t n v
  run-Safe (Command.erase_chars n) t v = erase_chars-Safe palette Link t n v
  run-Safe (Command.delete_chars n) t v = delete_chars-Safe palette Link t n v
  run-Safe (Command.clear_line mode) t v = clear_line-Safe palette Link mode t v
  run-Safe (Command.input c) t v = input-Safe palette Link lawful char_map char_width t c v
  run-Safe (Command.set_mode mode) t v = set_mode-Safe ⦃cell = _⦄ mode t v
  run-Safe (Command.unset_mode mode) t v = unset_mode-Safe ⦃cell = _⦄ mode t v
  run-Safe (Command.set_private_mode mode) t v = set_private_mode-Safe palette Link lawful mode t v
  run-Safe (Command.unset_private_mode mode) t v =
      unset_private_mode-Safe palette Link lawful mode t v
  run-Safe (Command.terminal_attribute attr) t v = terminal_attribute-Safe palette Link attr t v
  run-Safe Command.set_horizontal_tabstop t v = set_horizontal_tabstop-Safe ⦃cell = _⦄ t v
  run-Safe (Command.clear_tabs mode) t v = clear_tabs-Safe ⦃cell = _⦄ mode t v

  -- So does every sequence of commands.
  pub run_all-Safe :
      (cs : List (Command Color)) (t : Screen palette Link)
      → ValidScreen palette Link t
      → SafeScreen palette Link (run_all palette Link char_map char_width cs t)
  unfolding run_all
  run_all-Safe [] t v = idle-Safe ⦃cell = _⦄ t v
  run_all-Safe (c ∷ cs) t v =
      Safe-bind ⦃cell = cell_grid palette Link⦄ (run palette Link char_map char_width c t)
        (run_all palette Link char_map char_width cs) (run-Safe c t v) (run_all-Safe cs)

length-undamaged_lines : (cols n line : ℕ) → length (undamaged_lines cols n line) ≡ n
unfolding undamaged_lines
length-undamaged_lines cols zero line = refl
length-undamaged_lines cols (suc n) line = ap suc (length-undamaged_lines cols n (suc line))

module _ {T : Type 0} ⦃cell : GridCell T⦄ (lawful : IsLawful cell) where
  -- The storage of a new grid.
  abbrev new_storage : ℕ → ℕ → Storage T
  new_storage lines columns = record {
    inner = replicate lines (Row.default_row columns);
    zero = 0;
    visible_lines = lines;
    len = lines;
  }

  new_grid_lem :
      (lines columns history : ℕ)
      → 0 < columns
      → Defs.new {T = T} lines columns history
        ≡ some (Defs.with_rows lines columns history (new_storage lines columns))
  unfolding Defs.new Storage.with_capacity
  new_grid_lem lines columns history h = rw (new_rows_lem {T = T} lines columns h) refl

  -- A new grid is valid.
  new_grid-IsValid :
      (lines columns history : ℕ)
      → 0 < lines
      → 0 < columns
      → Up.IsValid {T = T} (Defs.with_rows lines columns history (new_storage lines columns))
  new_grid-IsValid lines columns history h k =
      let size = length-replicate lines (Row.default_row {T = T} columns) in
      record {
        raw = record {
          zero_in = omega (arith, size);
          len_in = omega (arith, size);
          visible_in = omega arith;
          some_line = h;
        };
        visible = refl;
        some_column = k;
        rows =
            AllRows-rotate_left (IsLine columns) 0
              (replicate lines (Row.default_row {T = T} columns)) (omega arith)
              (λ p row e.
                subst (IsLine columns)
                  (sym (replicate-eq lines p (Row.default_row {T = T} columns) row e))
                  (new-IsLine lawful columns));
        limit = omega arith;
      }

module _ {Color : Type 0} (palette : Palette Color) (Link : Type 0)
    (lawful : IsLawful (cell_grid palette Link)) where
  -- A new terminal with a line and two columns at least is made without a panic, and is well-formed.
  pub new-Safe :
      (columns lines history : ℕ)
      → 2 ≤ columns
      → 0 < lines
      → SafeScreen palette Link (new palette Link columns lines history)
  unfolding new with_grid Damage.new Tabs.new
  new-Safe columns lines history h k = record {
    out = _;
    returns =
        >>=-step _ _
          (new_grid_lem ⦃cell = cell_grid palette Link⦄ lawful lines columns history (omega arith))
          refl;
    valid = record {
      motion = record {
        damage = (new_lem columns lines).0;
        entries = length-undamaged_lines columns lines 0;
        row = 0;
        at_row = refl;
        row_in = k;
        column_in = omega arith;
        top = 0;
        bottom = lines;
        start = refl;
        end = refl;
        ordered = omega arith;
        some_line = k;
        bottom_in = omega arith;
      };
      grid = new_grid-IsValid ⦃cell = _⦄ lawful lines columns history k (omega arith);
      saved_row = 0;
      saved_at = refl;
      saved_row_in = k;
      saved_column_in = omega arith;
      tabs = length-stops columns 0;
      columns = h;
    };
  }

  module _ (char_map : ℕ → ℕ) (char_width : ℕ → Option ℕ) (columns lines history : ℕ)
      (wide : 2 ≤ columns) (high : 0 < lines) where
    -- Every reachable terminal is well-formed.
    pub Reachable-IsValid :
        (t : Screen palette Link)
        → Reachable palette Link char_map char_width columns lines history t
        → ValidScreen palette Link t
    Reachable-IsValid t (start e) =
        let safe = new-Safe columns lines history wide high in
        subst (ValidScreen palette Link) (some_inj (sym safe.returns ∙ e)) safe.valid
    Reachable-IsValid u (step {t} c r e) =
        let safe = run-Safe palette Link lawful char_map char_width c t (Reachable-IsValid t r) in
        subst (ValidScreen palette Link) (some_inj (sym safe.returns ∙ e)) safe.valid
