-- ===== src/Clients.antt =====
-- Client sessions: src/CMClient.cpp and src/ClientManager.cpp.
pub mod CmClient
pub mod Manager
pub mod Requests
pub mod Answers
pub mod Numbering
pub mod Logons
pub mod Receiving
pub mod Queueing
pub mod Turns
pub mod OrderEntry
pub mod Resync
pub mod Tests
