-- ===== src/Translation.antt =====
-- src/core/translation and the response parser of src/services/ai: batches of cues, the answers that
-- are accepted, the one retry, and the fallback for cues that stay without an answer.
pub mod Response
pub mod Chunks
pub mod Terminology
pub mod Engine
pub mod Accepted
pub mod Fallback
pub mod Dialogue
pub mod Complete
pub mod Tests
