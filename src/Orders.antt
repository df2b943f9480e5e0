-- ===== src/Orders.antt =====
-- src/modules/orders: the parts of an order's life that are modelled.
pub mod RefundStatus
pub mod Types
pub mod Posting
pub mod Refunds
pub mod Pricing
pub mod Creating
pub mod Service
pub mod Restocking
pub mod Examples
pub mod Debts
pub mod Cancelling
pub mod Transitions
pub mod Collecting
pub mod Opening
pub mod Ledger
pub mod Outstanding
pub mod Stocking
