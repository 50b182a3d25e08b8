-- ===== src/Scheduler/Tests.antt =====
-- The theorems at concrete states.
mod Due
