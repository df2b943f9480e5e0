-- ===== src/Purchasing.antt =====
-- src/modules/purchasing: purchase orders, goods receipts and purchase returns, with the supplier
-- ledger and the vouchers that they write.
pub mod Types
pub mod Orders
pub mod Receipts
pub mod Payments
pub mod Returns
pub mod Arrivals
pub mod Books
pub mod Payables
pub mod SentBack
pub mod Untouched
pub mod Accounts
pub mod Announced
pub mod Returned
pub mod Paying
pub mod Received
pub mod Remaining
mod StockExamples
mod Examples
