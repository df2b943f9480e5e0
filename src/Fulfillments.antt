-- ===== src/Fulfillments.antt =====
-- src/modules/fulfillments: the packages of an order, from packing to delivery or return.
pub mod Service
pub mod Shipping
pub mod Whereabouts
pub mod Accounting
pub mod Effects
pub mod Paths
pub mod Reaching
pub mod Fits
pub mod Guards
pub mod Opening
pub mod Pushing
pub mod Runs
pub mod Examples
