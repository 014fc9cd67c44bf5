-- ===== src/Engine.antt =====
-- The matching engine: src/MatchingEngine.cpp with include/service/MatchingEngine.hpp.
pub mod MatchingEngine
pub mod BySymbol
pub mod Serving
pub mod InOrder
mod Tests
