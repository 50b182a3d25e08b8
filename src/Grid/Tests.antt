-- ===== src/Grid/Tests.antt =====
-- The theorems at concrete states.
mod Scroll
mod Display
mod Walk
mod Region
