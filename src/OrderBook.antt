-- ===== src/OrderBook.antt =====
-- order_book/: the books that the venues stream, as they are kept and passed on.
pub mod Models
pub mod Cache
pub mod Subscribers
