-- ===== src/Feed.antt =====
-- Market data: the books that are kept from the order book's responses. include/client/L2Book.hpp,
-- src/L3Book.cpp with include/client/L3Book.hpp, and include/service/MDOrderBook.hpp.
pub mod L2Book
pub mod L3Book
pub mod MdOrderBook
pub mod Pending
pub mod Latest
pub mod Publish
pub mod Levels
pub mod Told
pub mod Shown
mod Tests
