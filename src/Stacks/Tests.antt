-- ===== src/Stacks/Tests.antt =====
-- The theorems at concrete states.
mod Bounds
