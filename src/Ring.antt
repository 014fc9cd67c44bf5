-- ===== src/Ring.antt =====
-- src/SHMRingBuffer.cpp: the ring of messages in shared memory.
pub mod Memory
pub mod Shm
pub mod Slots
pub mod Held
pub mod Claims
pub mod Acquired
pub mod System
pub mod Order
pub mod Traces
pub mod Room
pub mod Enqueues
pub mod Tests
