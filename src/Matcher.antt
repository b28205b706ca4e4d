-- ===== src/Matcher.antt =====
-- src/core/matcher: from the answer of the AI to file operations that do not collide.
pub mod Types
pub mod Names
pub mod Naming
pub mod Plan
pub mod Targets
pub mod Batch
pub mod Conflict
pub mod Execute
pub mod Replay
pub mod Tests
