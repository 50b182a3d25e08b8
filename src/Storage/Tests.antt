-- ===== src/Storage/Tests.antt =====
-- The theorems at concrete states.
mod Access
mod Rotate
mod Resize
