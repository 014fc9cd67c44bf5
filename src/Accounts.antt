-- ===== src/Accounts.antt =====
-- Positions and open orders of clients: include/client/ClientAccount.hpp on the client's side and
-- include/database/InMemoryClientDatabase.hpp on the server's.
pub mod ClientAccount
pub mod ClientDatabase
pub mod Positions
pub mod Agreement
pub mod Balance
pub mod ZeroSum
pub mod OpenOrders
pub mod Samples
mod Tests
