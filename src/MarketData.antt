-- ===== src/MarketData.antt =====
-- Market data as the server sends it: src/MarketDataServer.cpp.
pub mod ServerBook
pub mod Server
pub mod Snapshots
pub mod Subscriptions
pub mod Restore
pub mod Covered
pub mod Keys
pub mod Keyed
pub mod Crossing
pub mod Rebuild
pub mod Symbols
pub mod Cancelling
pub mod Waiting
pub mod Tests
pub mod Registered
pub mod Agreement
pub mod Closing
