-- ===== src/Stocktakes.antt =====
-- src/modules/stocktakes: a count of the stock of a location, and the adjustment to it.
pub mod Service
pub mod Counting
pub mod Sent
pub mod Editing
pub mod Overlapping
mod Examples
