-- ===== src/Formats.antt =====
-- src/core/formats: the entries of a subtitle, and the line endings of the text formats.
pub mod Types
pub mod Time
pub mod LineEndings
