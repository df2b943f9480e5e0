-- ===== src/Inventory.antt =====
-- The inventory component (src/modules/inventory), one module for each part: the types, the two
-- tables behind the repository, the service, and what is proved of them.
pub mod Types
pub mod Store
pub mod Service
pub mod Levels
pub mod Steps
pub mod Ledger
pub mod Bounds
pub mod Locking
pub mod Single
pub mod Adjust
pub mod Reconcile
pub mod Refinement
pub mod Effect
pub mod Lines
pub mod Computing
mod Examples
