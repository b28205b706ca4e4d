-- ===== src/Config/Tests.antt =====
-- Runs of the configuration code (src/config) on one concrete platform and one concrete file.
mod Machine
mod Runs
