-- ===== src/Grid.antt =====
-- The grid: `Grid` of alacritty_terminal/src/grid/mod.rs, a screen with a history above it.
-- A panic is the result `none`, as in `Storage`.
pub mod Defs
pub mod Iter
pub mod Neighbours
pub mod Walk
pub mod Lines
pub mod Up
pub mod Rounds
pub mod Region
pub mod Down
pub mod Fixed
pub mod Edits
pub mod Scroll
pub mod Display
mod Tests
