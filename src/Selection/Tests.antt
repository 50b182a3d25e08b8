-- ===== src/Selection/Tests.antt =====
-- The theorems at concrete states.
mod Rotation
mod Ranges
