-- ===== src/Damage/Tests.antt =====
-- The theorems at concrete states.
mod Report
