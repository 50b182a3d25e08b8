-- ===== src/Cell/Tests.antt =====
-- The theorems at concrete states.
mod Lawful
