-- ===== src/Term/Tests.antt =====
-- The theorems at concrete states.
mod Motion
mod Along
mod Scrolling
mod Machine
mod Lines
mod Narrow
