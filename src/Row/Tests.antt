-- ===== src/Row/Tests.antt =====
-- The theorems at concrete states.
mod Occupied
mod Cells
mod Chars
