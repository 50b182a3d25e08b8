-- ===== src/Index/Tests.antt =====
-- The theorems at concrete states.
mod Clamp
mod Steps
