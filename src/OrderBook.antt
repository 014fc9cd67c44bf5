-- ===== src/OrderBook.antt =====
-- The matching engine's order book: src/OrderBook.cpp with include/service/OrderBook.hpp,
-- include/service/Order.hpp and include/service/Snapshot.hpp. The first modules are its data and
-- its member functions in the order in which they call one another; the others prove.
pub mod State
pub mod Price
pub mod Response
pub mod Levels
pub mod Match
pub mod Handlers
pub mod Snapshot
pub mod Indices
pub mod Rounds
pub mod Fifo
pub mod FirstCome
pub mod Nearest
pub mod Keys
pub mod Pointers
pub mod Linked
pub mod Valid
pub mod Emptied
pub mod Taken
pub mod MatchStep
pub mod MatchLoop
pub mod Conserve
pub mod Trades
pub mod Stored
pub mod Resting
pub mod TakeOut
pub mod Amend
pub mod NewOrders
pub mod Changes
pub mod Requests
pub mod Fresh
pub mod Quiet
pub mod Recovery
pub mod Samples
mod Tests
