-- ===== src/Transfers.antt =====
-- The stock transfers between two locations (src/modules/transfers/stock-transfer.service.ts).
pub mod Types
pub mod Service
pub mod Postings
pub mod Totals
pub mod Rows
pub mod Journey
pub mod Overlapping
mod Examples
