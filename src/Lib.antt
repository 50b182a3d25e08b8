-- ===== src/Lib.antt =====
-- A model of the core of the terminal emulator: the grid with its scrollback, and the parts of the
-- terminal around it, with theorems that make them correct.
--
-- The parts, from the bottom up, and the files that model them:
-- - Row: a row of cells, `Row` of alacritty_terminal/src/grid/row.rs. A row knows by `occ` how many of
--   its cells may differ from a blank, so that a reset writes those only. Row.antt has the operations,
--   Row/Edit.antt what `insert_blank`, `delete_chars` and `erase_chars` of
--   alacritty_terminal/src/term/mod.rs do to the row of the cursor.
-- - Cell: `Cell`, `CellExtra` and `Flags` of alacritty_terminal/src/term/cell.rs, which implement the
--   interface `GridCell` that rows and grids take as an instance argument; its laws are the record
--   `IsLawful` of Row/Occupied.antt.
-- - Storage: the ring buffer of rows, `Storage` of alacritty_terminal/src/grid/storage.rs. Line 0 is the
--   top of the screen, and negative lines are the history. Storage/View.antt reads a storage as the list
--   of its lines from the bottommost one up, which its operations are described by.
-- - Index: points, boundaries and dimensions, alacritty_terminal/src/index.rs and the trait `Dimensions`
--   of alacritty_terminal/src/grid/mod.rs.
-- - Grid: `Grid` of alacritty_terminal/src/grid/mod.rs. Grid/Defs.antt has its state and its operations,
--   which call those of the storage, Grid/Iter.antt the iterator over its cells.
-- - Selection: `Selection` of alacritty_terminal/src/selection.rs, two anchors, each on a side of a cell.
--   Selection/Borders.antt and Selection/Ranges.antt count the cells that it covers row by row from the
--   top of the history, Selection/Rotation.antt follows it when a region scrolls.
-- - Damage, Tabs, Term and Stacks: parts of alacritty_terminal/src/term/mod.rs. Damage tracking,
--   the tab stops, the motions of the cursor with the scrolling region and the viewport, and the
--   stacks of titles and of keyboard modes. A motion changes the cursor of the grid and reports
--   damage. Term/Edit.antt has the handlers that edit the line of the cursor, or move it by tabs,
--   Term/Lines.antt those that scroll the region, insert and delete lines and feed lines, each
--   with the selection and the vi cursor, and Term/Write.antt `input`, which writes a character
--   with wrapping, wide and zero-width characters and the insert mode, and `clear_line`.
--   Term/Modes.antt sets modes, attributes and tab stops. Term/Machine.antt puts them together: a
--   command is a call of the trait `Handler`, and a terminal is reachable if commands lead to it
--   from `Term::new`. Term/Safe.antt says which terminals are well-formed, and the files beside
--   it, with Term/Written, show that the commands keep it.
-- - Scheduler: the timers of alacritty/src/scheduler.rs.
-- - Shortener: `StrShortener` of alacritty/src/string.rs.
-- Prelude has what all share: tests, options, lists and integers. Samples has the states that the
-- modules named Tests apply the theorems to.
--
-- How the code is modelled. A method on a mutable reference is a function to the new state. A panic is
-- the result `none`: an index out of range, a failed assertion, also one of debug builds, and an
-- underflow. Sizes and columns are natural numbers, and lines are unbounded integers: the sizes of a
-- terminal are far below the bounds of `i32` and `usize`. Only `scroll_display`, whose argument is not
-- bounded by a size, wraps its sum. A loop over a range is a structural recursion on the number of its
-- rounds. The only fuel is that of the update of the scheduler, where one more than the number of timers
-- due is enough, as is proved there. The number of calls that `Shortener.collect` makes is no bound of
-- the code: the theorem holds for each.
--
-- What is not in this repository is a parameter: the colors and the hyperlinks of cells, the flags of
-- the keyboard modes, the width of characters and their mapping by a character set, the searches of
-- words and lines that a selection asks the terminal for, and the clock. A screen has two columns at
-- least, as `MIN_COLUMNS` of alacritty_terminal/src/term/mod.rs says.
--
-- Not modelled: the character sets of the cursor, `put_tab`, erasing of screens, the alternate screen,
-- resets, reflow, search and the motions of vi mode, which build on these parts; and the event loop, the
-- pseudo-terminal, the renderer, the windows, input and configuration, which are input and output.
pub mod Cell
pub mod Damage
pub mod Grid
pub mod Index
pub mod Prelude
pub mod Row
pub mod Samples
pub mod Scheduler
pub mod Selection
pub mod Shortener
pub mod Stacks
pub mod Storage
pub mod Tabs
pub mod Term
