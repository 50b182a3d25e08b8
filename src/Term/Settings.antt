-- ===== src/Term/Settings.antt =====
-- Setting modes, attributes and tab stops keeps the screen well-formed, and does not panic.
use alacritty_pro.Prelude.{
  ◌≡◌, refl, ◌∙◌, arith, Bool, true, false, some, length, length-set, lt→ltb, >>=-step, map, List,
  [], ◌∷◌, ap, suc, set,
}
use alacritty_pro.Prelude.Int.{pos}
use alacritty_pro.Row.{GridCell}
use alacritty_pro.Row.Occupied.{IsLawful}
use alacritty_pro.Cell.{Palette, cell_grid}
use alacritty_pro.Tabs
use alacritty_pro.Tabs.{TabStops, set_stop}
use alacritty_pro.Term.{Term, goto, cursor_column}
use alacritty_pro.Term.Motion.{goto_lem}
use alacritty_pro.Term.Safe.{IsValid, Safe}
use alacritty_pro.Term.Fed.{moved-Safe}
use alacritty_pro.Term.Columns.{deccolm-Safe}
use alacritty_pro.Term.Modes.{
  NamedMode, NamedPrivateMode, TabulationClearMode, Attr, set_mode, unset_mode, set_private_mode,
  unset_private_mode, terminal_attribute, with_attr, set_horizontal_tabstop, clear_tabs,
}
use alacritty_pro.Term.Write.{Screen}
use alacritty_pro.Term.Written.Cursor.{SafeScreen, ValidScreen}
use alacritty_pro.Term.Written.Pen.{penned-IsValid}

same_length : (xs : List Bool) → length (map (λ (b : Bool). false) xs) ≡ length xs
same_length [] = refl
same_length (x ∷ xs) = ap suc (same_length xs)

module _ {T : Type 0} ⦃cell : GridCell T⦄ where
  -- The screen with other flags, and perhaps fully damaged.
  flagged-IsValid :
      (t : Term T) (origin wrap insert feed full : Bool)
      → IsValid t
      → IsValid (record t {
        origin_mode = origin;
        line_wrap = wrap;
        insert_mode = insert;
        line_feed_new_line = feed;
        damage = record t.damage { full = full };
      })
  flagged-IsValid t origin wrap insert feed full v = record {
    motion = record {
      damage = record { numbered = v.motion.damage.numbered };
      entries = v.motion.entries;
      row = v.motion.row;
      at_row = v.motion.at_row;
      row_in = v.motion.row_in;
      column_in = v.motion.column_in;
      top = v.motion.top;
      bottom = v.motion.bottom;
      start = v.motion.start;
      end = v.motion.end;
      ordered = v.motion.ordered;
      some_line = v.motion.some_line;
      bottom_in = v.motion.bottom_in;
    };
    grid = v.grid;
    saved_row = v.saved_row;
    saved_at = v.saved_at;
    saved_row_in = v.saved_row_in;
    saved_column_in = v.saved_column_in;
    tabs = v.tabs;
    columns = v.columns;
  }

  tabbed-IsValid :
      (t : Term T) (tabs : TabStops)
      → IsValid t
      → length tabs.tabs ≡ length t.tabs.tabs
      → IsValid (record t { tabs = tabs })
  tabbed-IsValid t tabs v same = record {
    motion = record {
      damage = v.motion.damage;
      entries = v.motion.entries;
      row = v.motion.row;
      at_row = v.motion.at_row;
      row_in = v.motion.row_in;
      column_in = v.motion.column_in;
      top = v.motion.top;
      bottom = v.motion.bottom;
      start = v.motion.start;
      end = v.motion.end;
      ordered = v.motion.ordered;
      some_line = v.motion.some_line;
      bottom_in = v.motion.bottom_in;
    };
    grid = v.grid;
    saved_row = v.saved_row;
    saved_at = v.saved_at;
    saved_row_in = v.saved_row_in;
    saved_column_in = v.saved_column_in;
    tabs = same ∙ v.tabs;
    columns = v.columns;
  }

  pub set_mode-Safe : (mode : NamedMode) (t : Term T) → IsValid t → Safe (some (set_mode mode t))
  unfolding set_mode
  set_mode-Safe NamedMode.insert t v = record {
    out = _;
    returns = refl;
    valid = flagged-IsValid t _ _ _ _ t.damage.full v;
  }
  set_mode-Safe NamedMode.line_feed_new_line t v = record {
    out = _;
    returns = refl;
    valid = flagged-IsValid t _ _ _ _ t.damage.full v;
  }

  pub unset_mode-Safe :
      (mode : NamedMode) (t : Term T) → IsValid t → Safe (some (unset_mode mode t))
  unfolding unset_mode
  unset_mode-Safe NamedMode.insert t v = record {
    out = _;
    returns = refl;
    valid = flagged-IsValid t _ _ _ _ true v;
  }
  unset_mode-Safe NamedMode.line_feed_new_line t v = record {
    out = _;
    returns = refl;
    valid = flagged-IsValid t _ _ _ _ t.damage.full v;
  }

  set_stop_lem :
      (t : Term T) (b : Bool)
      → IsValid t
      → set_stop t.tabs (cursor_column t) b
        ≡ some (record { tabs = set t.tabs.tabs (cursor_column t) b })
  unfolding set_stop
  set_stop_lem t b v =
      rw (lt→ltb (cursor_column t) (length t.tabs.tabs) (omega (arith, v.tabs, v.motion.column_in)))
        refl

  pub set_horizontal_tabstop-Safe : (t : Term T) → IsValid t → Safe (set_horizontal_tabstop t)
  unfolding set_horizontal_tabstop
  set_horizontal_tabstop-Safe t v = record {
    out = _;
    returns = >>=-step _ _ (set_stop_lem t true v) refl;
    valid = tabbed-IsValid t _ v (length-set t.tabs.tabs (cursor_column t) true);
  }

  pub clear_tabs-Safe :
      (mode : TabulationClearMode) (t : Term T) → IsValid t → Safe (clear_tabs mode t)
  unfolding clear_tabs Tabs.clear_all
  clear_tabs-Safe TabulationClearMode.current t v = record {
    out = _;
    returns = >>=-step _ _ (set_stop_lem t false v) refl;
    valid = tabbed-IsValid t _ v (length-set t.tabs.tabs (cursor_column t) false);
  }
  clear_tabs-Safe TabulationClearMode.all t v = record {
    out = _;
    returns = refl;
    valid = tabbed-IsValid t _ v (same_length t.tabs.tabs);
  }

module _ {Color : Type 0} (palette : Palette Color) (Link : Type 0) where
  pub set_private_mode-Safe :
      IsLawful (cell_grid palette Link)
      → (mode : NamedPrivateMode) (t : Screen palette Link) → ValidScreen palette Link t
      → SafeScreen palette Link (set_private_mode palette Link mode t)
  unfolding set_private_mode
  set_private_mode-Safe lawful NamedPrivateMode.line_wrap t v = record {
    out = _;
    returns = refl;
    valid = flagged-IsValid ⦃cell = _⦄ t _ _ _ _ t.damage.full v;
  }
  set_private_mode-Safe lawful NamedPrivateMode.origin t v =
      let u : Screen palette Link = record t { origin_mode = true } in
      let w = flagged-IsValid ⦃cell = cell_grid palette Link⦄ t true _ _ _ t.damage.full v in
      moved-Safe ⦃cell = cell_grid palette Link⦄ u w _ _ (goto u (pos 0) 0)
        (goto_lem u w.motion (pos 0) 0)
  set_private_mode-Safe lawful NamedPrivateMode.column_mode t v = deccolm-Safe ⦃cell = _⦄ lawful t v

  pub unset_private_mode-Safe :
      IsLawful (cell_grid palette Link)
      → (mode : NamedPrivateMode) (t : Screen palette Link) → ValidScreen palette Link t
      → SafeScreen palette Link (unset_private_mode palette Link mode t)
  unfolding unset_private_mode
  unset_private_mode-Safe lawful NamedPrivateMode.line_wrap t v = record {
    out = _;
    returns = refl;
    valid = flagged-IsValid ⦃cell = _⦄ t _ _ _ _ t.damage.full v;
  }
  unset_private_mode-Safe lawful NamedPrivateMode.origin t v = record {
    out = _;
    returns = refl;
    valid = flagged-IsValid ⦃cell = _⦄ t _ _ _ _ t.damage.full v;
  }
  unset_private_mode-Safe lawful NamedPrivateMode.column_mode t v =
      deccolm-Safe ⦃cell = _⦄ lawful t v

  pub terminal_attribute-Safe :
      (attr : Attr Color) (t : Screen palette Link)
      → ValidScreen palette Link t
      → SafeScreen palette Link (some (terminal_attribute palette Link attr t))
  unfolding terminal_attribute
  terminal_attribute-Safe attr t v = record {
    out = _;
    returns = refl;
    valid =
        penned-IsValid ⦃cell = cell_grid palette Link⦄ t t.grid.raw
          (with_attr palette Link attr t.grid.cursor.template) v v.grid;
  }
