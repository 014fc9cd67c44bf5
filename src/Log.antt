-- ===== src/Log.antt =====
-- The memory-mapped log of responses: src/mmap_log.cpp with include/ipc/mmap_log.h.
pub mod Files
pub mod Writer
pub mod Reader
pub mod Ahead
pub mod Appended
pub mod Replay
mod Tests
