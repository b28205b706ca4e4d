-- ===== src/Tasks.antt =====
-- src/core/parallel/task.rs and src/core/fs_util.rs: the file tasks on a disk of files.
pub mod Disk
pub mod Files
pub mod Operation
pub mod Reads
pub mod Keeps
pub mod Moves
