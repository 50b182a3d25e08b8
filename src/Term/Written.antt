-- ===== src/Term/Written.antt =====
-- Writing characters keeps the screen well-formed, and does not panic.
pub mod Rows
pub mod Pen
pub mod Cursor
pub mod Wrap
pub mod Input
pub mod Overwrite
pub mod Narrow
